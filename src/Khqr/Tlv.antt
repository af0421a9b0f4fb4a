-- ===== src/Khqr/Tlv.antt =====
-- `tlv` and `parse_tlv` of khqr.py. A Python string is the list of its code points.
use chmabapay.Base.{
  ℕ, zero, suc, ◌+◌, ◌-◌, ◌*◌, ◌/◌, ◌%◌, ◌&&◌, ◌||◌, Option, none, some, List, [], ◌∷◌, ◌++◌, ◌>>=◌,
  length, take, drop, ltb, leb, ◌==◌, if◌then◌else◌, Text, is_digit, is_space,
}
use chmabapay.Base.Int.{ℤ, pos, negsuc}

-- `int(s[i+2:i+4])` for the two code points of a length field; `none` is a `ValueError`
abbrev pub int_of_two : ℕ → ℕ → Option ℤ
int_of_two a b =
    if is_digit a && is_digit b
    then some (pos ((a - 48) * 10 + (b - 48)))
    else if is_digit a && is_space b
    then some (pos (a - 48))
    else if (is_space a || (a == b'+')) && is_digit b
    then some (pos (b - 48))
    else if (a == b'-') && is_digit b
    then some (if b == b'0' then pos 0 else negsuc (b - 49))
    else none

-- `f"{n:02d}"` for n ≤ 99
abbrev pub two_digits : ℕ → Text
two_digits n = (48 + n / 10) ∷ (48 + n % 10) ∷ []

-- `none` is the `ValueError` of a value of more than 99 code points.
unfoldable pub tlv : Text → Text → Option Text
tlv tag value =
    let n = length value in if ltb 99 n then none else some (tag ++ two_digits n ++ value)

-- One round of the loop: the tag, the value and what follows it, or `none` where the loop breaks.
unfoldable pub read_tlv : Text → Option (Text × Text × Text)
read_tlv (t1 ∷ t2 ∷ l1 ∷ l2 ∷ rest) =
    if is_digit t1 && is_digit t2
    then elim (int_of_two l1 l2) [
      | none ↦ none
      | some (negsuc _) ↦ none
      | some (pos ln) ↦
          if leb ln (length rest) then some (t1 ∷ t2 ∷ [], take ln rest, drop ln rest) else none
    ]
    else none
read_tlv _ = none

-- The loop of `parse_tlv`, on fuel: each round consumes at least four code points.
unfoldable pub parse_tlv_from : ℕ → Text → List (Text × Text)
parse_tlv_from zero s = []
parse_tlv_from (suc fuel) s = elim (read_tlv s) [
  | none ↦ []
  | some (t, v, rest) ↦ (t, v) ∷ parse_tlv_from fuel rest
]

unfoldable pub parse_tlv : Text → List (Text × Text)
unfolding parse_tlv_from read_tlv
parse_tlv s = parse_tlv_from (length s) s

-- `tlv(a, x) + tlv(b, y) + ...`
unfoldable pub encode : List (Text × Text) → Option Text
encode [] = some []
encode ((t, v) ∷ fields) = do head ← tlv t v; rest ← encode fields; some (head ++ rest)
