-- ===== src/Khqr/Checksum.antt =====
-- `crc16_ccitt_false` of khqr.py, and the last field of `build_khqr_payload`.
use Prim.Native.Nat.{bit_xor}
use chmabapay.Base.{
  ℕ, zero, suc, ◌+◌, ◌*◌, ◌/◌, ◌%◌, Option, none, some, List, [], ◌∷◌, ◌++◌, ltb, leb,
  if◌then◌else◌, Text, codes,
}
use chmabapay.Khqr.Tlv.{tlv}

-- `str.encode()`: UTF-8, for code points below 0x110000
abbrev pub utf8 : ℕ → List ℕ
utf8 c =
    if ltb c 128
    then c ∷ []
    else if ltb c 2048
    then (192 + c / 64) ∷ (128 + c % 64) ∷ []
    else if ltb c 65536
    then (224 + c / 4096) ∷ (128 + c / 64 % 64) ∷ (128 + c % 64) ∷ []
    else (240 + c / 262144) ∷ (128 + c / 4096 % 64) ∷ (128 + c / 64 % 64) ∷ (128 + c % 64) ∷ []

unfoldable pub bytes : Text → List ℕ
bytes [] = []
bytes (c ∷ s) = utf8 c ++ bytes s

-- One round of the inner loop: `crc & 0x8000` asks for the highest of the 16 bits.
unfoldable pub shift : ℕ → ℕ
shift crc = if leb 32768 (crc % 65536) then bit_xor (crc * 2) 4129 % 65536 else crc * 2 % 65536

unfoldable pub shifts : ℕ → ℕ → ℕ
unfolding shift
shifts zero crc = crc
shifts (suc n) crc = shifts n (shift crc)

unfoldable pub crc16_from : ℕ → List ℕ → ℕ
unfolding shifts
crc16_from crc [] = crc
crc16_from crc (b ∷ octets) = crc16_from (shifts 8 (bit_xor crc (b * 256))) octets

unfoldable pub crc16_ccitt_false : List ℕ → ℕ
unfolding crc16_from
crc16_ccitt_false octets = crc16_from 65535 octets

abbrev pub hex_digit : ℕ → ℕ
hex_digit n = if ltb n 10 then 48 + n else 55 + n

-- `f"{n:04X}"` for n < 65536
abbrev pub hex : ℕ → Text
hex n =
    hex_digit (n / 4096)
    ∷ hex_digit (n / 256 % 16)
    ∷ hex_digit (n / 16 % 16)
    ∷ hex_digit (n % 16)
    ∷ []

unfoldable pub checksum : Text → ℕ
unfolding crc16_ccitt_false bytes
checksum body = crc16_ccitt_false (bytes (body ++ codes "6304"))

-- The body with its last field; `none` is the `ValueError` of `tlv`.
unfoldable pub seal : Text → Option Text
unfolding checksum tlv
seal body = elim (tlv (codes "63") (hex (checksum body))) [
  | none ↦ none
  | some last ↦ some (body ++ last)
]
