-- ===== src/Base/Money.antt =====
-- `normalize_currency` and `money_to_str` of schemas.py, without grouping.
use Prim.Native.Nat.{ℕ, ◌+◌, ◌/◌, ◌%◌}
use mathlib.Core.List.{[], ◌∷◌, ◌++◌}
use mathlib.Core.Option.{Option, none, some}
use chmabapay.Base.Tests.{ltb, ◌==◌, if◌then◌else◌}
use chmabapay.Base.Strings.{Text, codes, text_eq, or_else, strip, upper, decimal, padded}

-- `normalize_currency(currency)`, with the default `"USD"`
abbrev pub normalize_currency : Option Text → Text
normalize_currency none = codes "USD"
normalize_currency (some []) = codes "USD"
normalize_currency (some (c ∷ r)) = or_else (some (upper (strip (c ∷ r)))) (codes "USD")

-- `round(cents / 100)` and `f"{cents / 100:.0f}"`: to the even number at a half. The division of
-- floats is exact at halves below 2 ^ 52.
abbrev pub round_units : ℕ → ℕ
round_units cents =
    let whole = cents / 100 in
    let part = cents % 100 in
    if ltb part 50 then whole else if part == 50 then whole + whole % 2 else whole + 1

-- `f"{cents / 100:.2f}"`
abbrev pub two_decimals : ℕ → Text
two_decimals cents = decimal (cents / 100) ++ b'.' ∷ padded 2 (cents % 100) []

unfoldable pub money_to_str : ℕ → Text → Text
money_to_str cents currency =
    if text_eq (normalize_currency (some currency)) (codes "KHR")
    then decimal (round_units cents)
    else two_decimals cents
