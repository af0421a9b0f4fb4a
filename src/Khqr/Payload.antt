-- ===== src/Khqr/Payload.antt =====
-- What a reader finds in a payload that `build_khqr_payload` of khqr.py has built.
use mathlib.Core.Path.{subst}
use chmabapay.Base.{
  ℕ, ◌-◌, ◌/◌, max, or_else, ◌≡◌, refl, sym, ap, ◌∙◌, Option, some, List, [], ◌∷◌, ◌++◌, All,
  find_by, Option-cases, inl, inr, Text, codes, text_eq, arith,
}
use chmabapay.Model.{Instant, Store, PaymentLink}
use chmabapay.Khqr.Tlv.{parse_tlv, encode}
use chmabapay.Khqr.Checksum.{hex, checksum}
use chmabapay.Khqr.Build.{
  format_amount, currency_iso, selected_currency, tag_30, tag_62, tag_99, body_fields, khqr_fields,
  build_khqr_payload,
}
use chmabapay.Khqr.RoundTrip.{IsTag}
use chmabapay.Khqr.Sealed.{last_field, seal-reads}

-- The first field of a tag.
abbrev pub field_of : Text → List (Text × Text) → Option (Text × Text)
field_of tag fields = find_by (λ f. text_eq f.0 tag) fields

-- What a reader relies on: two-digit tags, and the first fields 53 and 54, whatever follows.
abbrev IsKnown : Text → Text → List (Text × Text) → Type 0
IsKnown iso amount fields =
    All (λ f. IsTag f.0) fields
    × ((rest : List (Text × Text))
        → (field_of (codes "53") (fields ++ rest) ≡ some (codes "53", iso))
          × (field_of (codes "54") (fields ++ rest) ≡ some (codes "54", amount)))

body_fields-IsKnown :
    (selected amount merchant_name t30 t62 t99 : Text)
    → IsKnown (currency_iso selected) amount (body_fields selected amount merchant_name t30 t62 t99)
body_fields-IsKnown selected amount merchant_name t30 [] t99 = (ground arith, λ rest. (refl, refl))
body_fields-IsKnown selected amount merchant_name t30 (c ∷ r) t99 =
    (ground arith, λ rest. (refl, refl))

module _ (store : Store) (link : PaymentLink) (amount_cents : ℕ) (bill_number : Text)
    (expires_at : Instant) (currency : Option Text) (now : Instant) where
  khqr_fields-IsKnown :
      (fields : List (Text × Text))
      → khqr_fields store link amount_cents bill_number expires_at currency now ≡ some fields
      → let selected = selected_currency currency link in
        IsKnown (currency_iso selected) (format_amount amount_cents selected) fields
  unfolding khqr_fields
  khqr_fields-IsKnown fields h =
      let selected = selected_currency currency link in
      let amount = format_amount amount_cents selected in
      let epoch = now / 1_000_000 in
      let ttl = max 1 ((expires_at - now) / 1_000_000) in
      elim (Option-cases (tag_30 link)) [
        | inl e ↦ absurd (ground (arith, e, h))
        | inr (t30, e) ↦
            elim (Option-cases (tag_62 (or_else link.payway_client_id []) bill_number epoch ttl)) [
              | inl e' ↦ absurd (ground (arith, e, e', h))
              | inr (t62, e') ↦ elim (Option-cases (tag_99 epoch)) [
                | inl e'' ↦ absurd (ground (arith, e, e', e'', h))
                | inr (t99, e'') ↦
                    let built : body_fields selected amount (or_else link.merchant_name store.name)
                          t30 t62 t99
                        ≡ fields =
                      ground (arith, e, e', e'', h) in
                    subst (IsKnown (currency_iso selected) amount) built (
                      body_fields-IsKnown selected amount (or_else link.merchant_name store.name)
                        t30 t62 t99)
              ]
            ]
      ]

  -- Whenever a payload is built, a reader of it finds under tag 53 the numeric code of the
  -- selected currency and under tag 54 the formatted amount of the payment in that currency.
  pub build_khqr_payload-reads :
      (payload : Text)
      → build_khqr_payload store link amount_cents bill_number expires_at currency now
        ≡ some payload
      → let selected = selected_currency currency link in
        (field_of (codes "53") (parse_tlv payload) ≡ some (codes "53", currency_iso selected))
        × (field_of (codes "54") (parse_tlv payload)
            ≡ some (codes "54", format_amount amount_cents selected))
  unfolding build_khqr_payload
  build_khqr_payload-reads payload h =
      elim (Option-cases
        (khqr_fields store link amount_cents bill_number expires_at currency now)) [
          | inl e ↦ absurd (ground (arith, e, h))
          | inr (fields, e) ↦ elim (Option-cases (encode fields)) [
            | inl e' ↦ absurd (ground (arith, e, e', h))
            | inr (body, e') ↦
                let (tags, known) = khqr_fields-IsKnown fields e in
                let (sealed, read, crc) = seal-reads fields body tags e' in
                let same : body ++ last_field (checksum body) ≡ payload =
                  ground (arith, e, e', sealed, h) in
                let (currency_read, amount_read) = known ((codes "63", hex (checksum body)) ∷ []) in
                let there = ap parse_tlv (sym same) ∙ read in
                (
                  ap (field_of (codes "53")) there ∙ currency_read,
                  ap (field_of (codes "54")) there ∙ amount_read,
                )
          ]
        ]
