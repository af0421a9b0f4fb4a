-- ===== src/Khqr/Sealed.antt =====
-- A sealed payload and its checksum.
use chmabapay.Base.{
  ℕ, ◌+◌, ◌-◌, ◌*◌, ◌/◌, ◌%◌, ◌<◌, ◌≡◌, refl, ap, ◌∙◌, some, List, [], ◌∷◌, ◌++◌, All, ltb,
  if◌then◌else◌, Text, codes, arith,
}
use chmabapay.Khqr.Tlv.{tlv, parse_tlv, parse_tlv_from, encode}
use chmabapay.Khqr.Checksum.{
  shift, shifts, crc16_from, crc16_ccitt_false, bytes, hex_digit, hex, checksum, seal,
}
use chmabapay.Khqr.RoundTrip.{IsTag, parse_tlv-encode}

shift-bound : (crc : ℕ) → shift crc < 65536
unfolding shift
shift-bound crc = ground arith

crc16_from-bound : (octets : List ℕ) (crc : ℕ) → crc < 65536 → crc16_from crc octets < 65536
unfolding crc16_from shifts
crc16_from-bound [] crc small = small
crc16_from-bound (b ∷ octets) crc small = crc16_from-bound octets _ (shift-bound _)

-- `int(s, 16)` of four hexadecimal digits
abbrev digit_value : ℕ → ℕ
digit_value c = if ltb c 58 then c - 48 else c - 55

abbrev pub hex_value : Text → ℕ
hex_value [] = 0
hex_value (a ∷ []) = digit_value a
hex_value (a ∷ b ∷ []) = digit_value a * 16 + digit_value b
hex_value (a ∷ b ∷ c ∷ []) = (digit_value a * 16 + digit_value b) * 16 + digit_value c
hex_value (a ∷ b ∷ c ∷ d ∷ r) =
    ((digit_value a * 16 + digit_value b) * 16 + digit_value c) * 16 + digit_value d

digit_value-hex_digit : (n : ℕ) → n < 16 → digit_value (hex_digit n) ≡ n
digit_value-hex_digit n small = ground arith

hex_value-hex : (n : ℕ) → n < 65536 → hex_value (hex n) ≡ n
hex_value-hex n small = omega (
  arith,
  digit_value-hex_digit (n / 4096) (omega (arith, small)),
  digit_value-hex_digit (n / 256 % 16) (omega arith),
  digit_value-hex_digit (n / 16 % 16) (omega arith),
  digit_value-hex_digit (n % 16) (omega arith),
)

checksum-bound : (body : Text) → checksum body < 65536
unfolding checksum crc16_ccitt_false
checksum-bound body = crc16_from-bound (bytes (body ++ codes "6304")) 65535 (omega arith)

-- The last field of a payload: its tag, its length and the checksum.
abbrev pub last_field : ℕ → Text
last_field crc = codes "6304" ++ hex crc

encode-last_field : (crc : ℕ) → encode ((codes "63", hex crc) ∷ []) ≡ some (last_field crc)
unfolding encode tlv
encode-last_field crc = refl

seal-total : (body : Text) → seal body ≡ some (body ++ last_field (checksum body))
unfolding seal tlv
seal-total body = refl

parse_tlv-empty : parse_tlv [] ≡ []
unfolding parse_tlv parse_tlv_from
parse_tlv-empty = refl

-- A body of encoded fields whose tags are two digits each is always sealed, and reading the
-- sealed payload gives those fields and then a last field 63 whose four hexadecimal digits are
-- worth the checksum of the body with the tag and length of that field.
pub seal-reads :
    (fields : List (Text × Text)) (body : Text)
    → All (λ f. IsTag f.0) fields
    → encode fields ≡ some body
    → let payload = body ++ last_field (checksum body) in
      (seal body ≡ some payload)
      × (parse_tlv payload ≡ fields ++ (codes "63", hex (checksum body)) ∷ [])
      × (hex_value (hex (checksum body)) ≡ checksum body)
seal-reads fields body tags h =
    let crc = checksum body in
    (
      seal-total body,
      parse_tlv-encode fields body (last_field crc) tags h
          ∙ ap (λ r. fields ++ r)
              (parse_tlv-encode ((codes "63", hex crc) ∷ []) (last_field crc) [] ((refl, refl), tt)
                  (encode-last_field crc)
                ∙ ap (λ r. (codes "63", hex crc) ∷ r) parse_tlv-empty),
      hex_value-hex crc (checksum-bound body),
    )
