-- ===== src/Khqr/Build.antt =====
-- `_format_amount` and `build_khqr_payload` of khqr.py.
use chmabapay.Base.{
  ℕ, ◌+◌, ◌-◌, ◌*◌, ◌/◌, ◌%◌, Option, some, List, [], ◌∷◌, ◌++◌, length, take, leb, ◌==◌, max,
  if◌then◌else◌, Text, codes, text_eq, or_else, strip, upper, decimal, padded, is_int, ◌>>=◌,
  is_nonempty,
}
use chmabapay.Base.Money.{round_units, two_decimals}
use chmabapay.Model.{Instant, Store, PaymentLink}
use chmabapay.Khqr.Tlv.{tlv, encode}
use chmabapay.Khqr.Checksum.{seal}

-- A zero decimal part is left out.
unfoldable pub format_amount : ℕ → Text → Text
format_amount amount_cents currency =
    if text_eq (upper (strip (or_else (some currency) (codes "USD")))) (codes "KHR")
    then decimal (round_units amount_cents)
    else if amount_cents % 100 == 0
    then decimal (amount_cents / 100)
    else two_decimals amount_cents

-- `_CURRENCY_ISO_NUMERIC`, and 840 for what is no number
abbrev pub currency_iso : Text → Text
currency_iso currency =
    if text_eq currency (codes "USD")
    then codes "840"
    else if text_eq currency (codes "KHR")
    then codes "116"
    else if is_int currency
    then currency
    else codes "840"

-- `currency or link.currency or "USD"`, normalised
abbrev pub selected_currency : Option Text → PaymentLink → Text
selected_currency currency link =
    upper (strip (or_else (some (or_else currency link.currency)) (codes "USD")))

-- `KHQR_VALIDITY_WINDOW_MS`
abbrev pub khqr_validity_window_ms : ℕ
khqr_validity_window_ms = 30 * 24 * 60 * 60 * 1000

-- Tag 30, the merchant's account.
unfoldable pub tag_30 : PaymentLink → Option Text
tag_30 link = encode (
    (codes "00", codes "abaakhppxxx@abaa")
    ∷ (codes "01", link.merchant_account_id)
    ∷ (codes "02", codes "ABA Bank")
    ∷ [])

-- The private template, in the order of priority.
abbrev pub private_parts : Text → Text → ℕ → ℕ → List (Text × Text)
private_parts client_id bill_number now_epoch ttl_sec =
    (if is_nonempty client_id then (codes "00", codes "PAYWAY@ABA") ∷ [] else [])
    ++ (if is_nonempty bill_number
        then (codes "02", bill_number) ∷ (codes "06", bill_number) ∷ []
        else [])
    ++ (codes "05", decimal (now_epoch + ttl_sec)) ∷ []
    ++ (if is_nonempty client_id then (codes "01", client_id) ∷ [] else [])
    ++ (codes "03", padded 9 (now_epoch % 1000000000) []) ∷ (codes "04", decimal now_epoch) ∷ []

-- Each part that still fits the 99 code points is appended.
unfoldable pub pack : List (Text × Text) → Text → Option Text
pack [] inner = some inner
pack ((k, v) ∷ parts) inner = do
  part ← tlv k v
  pack parts (if leb (length (inner ++ part)) 99 then inner ++ part else inner)

-- The value of tag 62: the private template, the bill and the terminal, where they fit.
unfoldable pub tag_62 : Text → Text → ℕ → ℕ → Option Text
unfolding pack
tag_62 client_id bill_number now_epoch ttl_sec = do
  inner ← pack (private_parts client_id bill_number now_epoch ttl_sec) []
  pack
      ((if is_nonempty inner then (codes "50", inner) ∷ [] else [])
        ++ (if is_nonempty bill_number then (codes "01", bill_number) ∷ [] else [])
        ++ (codes "03", padded 9 (now_epoch % 1000000000) []) ∷ [])
      []

-- Tag 99: the issue time and the end of the validity, in milliseconds.
unfoldable pub tag_99 : ℕ → Option Text
tag_99 now_epoch = encode (
    (codes "00", decimal (now_epoch * 1000))
    ∷ (codes "01", decimal (now_epoch * 1000 + khqr_validity_window_ms))
    ∷ [])

-- The fields of the body, in order.
abbrev pub body_fields : Text → Text → Text → Text → Text → Text → List (Text × Text)
body_fields selected amount merchant_name t30 t62 t99 =
    (codes "00", codes "01")
      ∷ (codes "01", codes "12")
      ∷ (codes "30", t30)
      ∷ (codes "52", codes "8999")
      ∷ (codes "53", currency_iso selected)
      ∷ (codes "54", amount)
      ∷ (codes "58", codes "KH")
      ∷ (codes "59", take 99 merchant_name)
      ∷ (codes "60", codes "N/A")
      ∷ (if is_nonempty t62 then (codes "62", t62) ∷ [] else [])
    ++ (codes "99", t99) ∷ []

-- The fields of a payment; `none` is a `ValueError` of `tlv`.
unfoldable pub khqr_fields :
    Store → PaymentLink → ℕ → Text → Instant → Option Text → Instant → Option (List (Text × Text))
unfolding tag_30 tag_62 tag_99 format_amount
khqr_fields store link amount_cents bill_number expires_at currency now =
    let selected = selected_currency currency link in
    let now_epoch = now / 1_000_000 in
    let ttl_sec = max 1 ((expires_at - now) / 1_000_000) in
    do
      t30 ← tag_30 link
      t62 ← tag_62 (or_else link.payway_client_id []) bill_number now_epoch ttl_sec
      t99 ← tag_99 now_epoch
      some (
          body_fields selected (format_amount amount_cents selected)
            (or_else link.merchant_name store.name) t30 t62 t99)

unfoldable pub build_khqr_payload :
    Store → PaymentLink → ℕ → Text → Instant → Option Text → Instant → Option Text
unfolding khqr_fields
build_khqr_payload store link amount_cents bill_number expires_at currency now = do
  fields ← khqr_fields store link amount_cents bill_number expires_at currency now
  body ← encode fields
  seal body
