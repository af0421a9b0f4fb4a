-- ===== src/Examples/Codes.antt =====
-- The payment code's format at concrete data.
use chmabapay.Base.{
  ◌≡◌, refl, List, [], ◌∷◌, ◌++◌, none, some, codes, Text, or_else, decimal, arith,
}
use chmabapay.Khqr.{
  parse_tlv_from, parse_tlv, encode, tlv, checksum, seal, hex, crc16_ccitt_false, crc16_from,
  shifts, shift, build_khqr_payload, khqr_fields, tag_30, tag_62, tag_99, pack, format_amount,
}
use chmabapay.Khqr.Payload.{field_of, build_khqr_payload-reads}
use chmabapay.Model.{PaymentLink, StoreStatus}
use chmabapay.Examples.Data.{a_store, a_link}
use chmabapay.Khqr.Sealed.{last_field, hex_value, seal-reads}
use chmabapay.Khqr.RoundTrip.{parse_tlv-fuel}

abbrev fields : List (Text × Text)
fields = (b'0' ∷ b'0' ∷ [], b'0' ∷ b'1' ∷ []) ∷ (b'5' ∷ b'8' ∷ [], b'K' ∷ b'H' ∷ []) ∷ []

-- `000201` and `5802KH`
abbrev written : Text
written = b'0' ∷ b'0' ∷ b'0' ∷ b'2' ∷ b'0' ∷ b'1' ∷ b'5' ∷ b'8' ∷ b'0' ∷ b'2' ∷ b'K' ∷ b'H' ∷ []

parse_tlv-fuel_example : parse_tlv_from 40 written ≡ parse_tlv written
parse_tlv-fuel_example = parse_tlv-fuel 40 written (omega arith)

seal-reads_example :
    let payload = written ++ last_field (checksum written) in
    (seal written ≡ some payload)
    × (parse_tlv payload ≡ fields ++ (codes "63", hex (checksum written)) ∷ [])
    × (hex_value (hex (checksum written)) ≡ checksum written)
unfolding encode tlv
seal-reads_example = seal-reads fields written ((refl, refl), ((refl, refl), tt)) refl

-- The published check value of this checksum, 0x29B1.
crc16_ccitt_false_test : crc16_ccitt_false (codes "123456789") ≡ 10673
unfolding crc16_ccitt_false crc16_from shifts shift
crc16_ccitt_false_test = refl

abbrev till_link : PaymentLink
till_link = record (a_link 1) { merchant_account_id = codes "012345678" }

-- The payload of 2.50 US dollars at noon of the first day.
abbrev built : Text
built =
    or_else
      (build_khqr_payload (a_store 4 none StoreStatus.active) till_link 250 (codes "p1")
        43_500_000_000 none 43_200_000_000)
      []

build_khqr_payload-reads_example :
    (field_of (codes "53") (parse_tlv built) ≡ some (codes "53", codes "840"))
    × (field_of (codes "54") (parse_tlv built) ≡ some (codes "54", codes "2.50"))
unfolding build_khqr_payload khqr_fields tag_30 tag_62 tag_99 pack format_amount encode tlv seal
    checksum hex decimal crc16_ccitt_false crc16_from shifts shift
build_khqr_payload-reads_example =
    build_khqr_payload-reads (a_store 4 none StoreStatus.active) till_link 250 (codes "p1")
      43_500_000_000 none 43_200_000_000 built refl
