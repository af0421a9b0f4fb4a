-- ===== src/Khqr/RoundTrip.antt =====
-- What `parse_tlv` of khqr.py reads back from what `tlv` wrote.
use mathlib.Core.List.{append_assoc}
use chmabapay.Base.{
  ℕ, zero, suc, ◌+◌, ◌/◌, ◌%◌, ◌≤◌, ◌≡◌, refl, true, some, List, [], ◌∷◌, ◌++◌, length,
  length-append, take-length-append, drop-length-append, All, arith, Text, is_digit, Option-cases,
  length-drop-le, inl, inr, sym, ap, ◌∙◌,
}
use chmabapay.Khqr.Tlv.{int_of_two, two_digits, tlv, read_tlv, parse_tlv_from, parse_tlv, encode}
use chmabapay.Base.Int.{pos, negsuc}

-- A tag of two decimal digits.
abbrev pub IsTag : Text → Type 0
IsTag [] = ⊥
IsTag (a ∷ []) = ⊥
IsTag (a ∷ b ∷ []) = (is_digit a ≡ true) × (is_digit b ≡ true)
IsTag (a ∷ b ∷ c ∷ r) = ⊥

int_of_two-digits : (n : ℕ) → n ≤ 99 → int_of_two (48 + n / 10) (48 + n % 10) ≡ some (pos n)
int_of_two-digits n h = ground arith

tlv-eq_some :
    (tag value s : Text)
    → tlv tag value ≡ some s
    → (length value ≤ 99) × (s ≡ tag ++ two_digits (length value) ++ value)
unfolding tlv
tlv-eq_some tag value s h = ground arith

read_tlv-digits :
    (a b : ℕ) (value rest : Text)
    → is_digit a ≡ true
    → is_digit b ≡ true
    → length value ≤ 99
    → read_tlv (a ∷ b ∷ (48 + length value / 10) ∷ (48 + length value % 10) ∷ (value ++ rest))
      ≡ some (a ∷ b ∷ [], value, rest)
unfolding read_tlv
read_tlv-digits a b value rest da db h = ground (
  arith,
  int_of_two-digits (length value) h,
  length-append value rest,
  take-length-append value rest,
  drop-length-append value rest,
)

-- One field is read back, whatever follows it.
read_tlv-append :
    (tag value s rest : Text)
    → IsTag tag
    → tlv tag value ≡ some s
    → read_tlv (s ++ rest) ≡ some (tag, value, rest)
read_tlv-append [] value s rest t h = absurd t
read_tlv-append (a ∷ []) value s rest t h = absurd t
read_tlv-append (a ∷ b ∷ c ∷ r) value s rest t h = absurd t
read_tlv-append (a ∷ b ∷ []) value s rest t h =
    let (short, e) = tlv-eq_some (a ∷ b ∷ []) value s h in
    rw e (read_tlv-digits a b value rest t.0 t.1 short)

-- A round consumes at least four code points.
read_tlv-shorter :
    (s : Text) {t v rest : Text} → read_tlv s ≡ some (t, v, rest) → length rest + 4 ≤ length s
unfolding read_tlv
read_tlv-shorter [] h = ground arith
read_tlv-shorter (a ∷ []) h = ground arith
read_tlv-shorter (a ∷ b ∷ []) h = ground arith
read_tlv-shorter (a ∷ b ∷ c ∷ []) h = ground arith
read_tlv-shorter (a ∷ b ∷ c ∷ d ∷ r) h = elim (Option-cases (int_of_two c d)) [
  | inl e ↦ ground arith
  | inr (pos ln, e) ↦ ground (arith, length-drop-le ln r)
  | inr (negsuc k, e) ↦ ground arith
]

parse_tlv_from-enough :
    (fuel more : ℕ) (s : Text)
    → length s ≤ fuel
    → length s ≤ more
    → parse_tlv_from fuel s ≡ parse_tlv_from more s
unfolding parse_tlv_from
parse_tlv_from-enough zero zero s h k = refl
parse_tlv_from-enough zero (suc more) s h k = elim (Option-cases (read_tlv s)) [
  | inl e ↦ rw (e, parse_tlv_from)
  | inr ((t, v, rest), e) ↦ absurd (omega (arith, read_tlv-shorter s e))
]
parse_tlv_from-enough (suc fuel) zero s h k = elim (Option-cases (read_tlv s)) [
  | inl e ↦ rw (e, parse_tlv_from)
  | inr ((t, v, rest), e) ↦ absurd (omega (arith, read_tlv-shorter s e))
]
parse_tlv_from-enough (suc fuel) (suc more) s h k = elim (Option-cases (read_tlv s)) [
  | inl e ↦ rw (e, parse_tlv_from)
  | inr ((t, v, rest), e) ↦
      let shorter = read_tlv-shorter s e in
      rw (e, parse_tlv_from, parse_tlv_from-enough fuel more rest (omega arith) (omega arith))
]

-- The loop of the reader gives the same fields with any number of rounds that is at least the
-- length of the text, so the fuel of the model never runs out.
pub parse_tlv-fuel : (more : ℕ) (s : Text) → length s ≤ more → parse_tlv_from more s ≡ parse_tlv s
unfolding parse_tlv
parse_tlv-fuel more s h = parse_tlv_from-enough more (length s) s h (omega arith)

parse_tlv_from-step :
    (fuel : ℕ) (s : Text) {t v rest : Text}
    → read_tlv s ≡ some (t, v, rest)
    → parse_tlv_from (suc fuel) s ≡ (t, v) ∷ parse_tlv_from fuel rest
unfolding parse_tlv_from
parse_tlv_from-step fuel s e = rw (e, parse_tlv_from)

parse_tlv-append :
    (tag value s rest : Text)
    → IsTag tag
    → tlv tag value ≡ some s
    → parse_tlv (s ++ rest) ≡ (tag, value) ∷ parse_tlv rest
parse_tlv-append tag value s rest t h =
    let more = length (s ++ rest) in
    sym (parse_tlv-fuel (suc more) (s ++ rest) (omega arith))
    ∙ parse_tlv_from-step more (s ++ rest) (read_tlv-append tag value s rest t h)
    ∙ ap (λ fields. (tag, value) ∷ fields)
        (parse_tlv-fuel more rest (omega (arith, length-append s rest)))

encode-cons_eq_some :
    (tag value : Text) (fields : List (Text × Text)) (s : Text)
    → encode ((tag, value) ∷ fields) ≡ some s
    → (head : Text) × (rest : Text) × (tlv tag value ≡ some head)
      × (encode fields ≡ some rest)
      × (s ≡ head ++ rest)
unfolding encode
encode-cons_eq_some tag value fields s h = elim (Option-cases (tlv tag value)) [
  | inl e ↦ cc (rw e at h)
  | inr (head, e) ↦ elim (Option-cases (encode fields)) [
    | inl e' ↦ cc (rw (e, e') at h)
    | inr (rest, e') ↦ (head, rest, e, e', ground arith)
  ]
]

-- Reading a text that starts with encoded fields, whose tags are two digits each, gives those
-- fields, and then whatever reading the rest gives.
pub parse_tlv-encode :
    (fields : List (Text × Text)) (s rest : Text)
    → All (λ f. IsTag f.0) fields
    → encode fields ≡ some s
    → parse_tlv (s ++ rest) ≡ fields ++ parse_tlv rest
unfolding encode
parse_tlv-encode [] s rest tags h = ground arith
parse_tlv-encode ((t, v) ∷ fields) s rest tags h =
    let (head, tail, e, e', same) = encode-cons_eq_some t v fields s h in
    rw (same, append_assoc head tail rest)
      (parse_tlv-append t v head (tail ++ rest) tags.0 e
        ∙ ap (λ fs. (t, v) ∷ fs) (parse_tlv-encode fields tail rest tags.1 e'))
