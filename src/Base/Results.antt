-- ===== src/Base/Results.antt =====
-- A computation that returns a value or raises an error that its callers can see.
use mathlib.Core.Bool.{Bool, true, false}
use mathlib.Core.Path.{◌≡◌, refl, ap}
use native.Mathlib.Omega.{arith}
use chmabapay.Base.Tests.{if◌then◌else◌}

pub data Result (E : Type 0) (A : Type 0) : Type 0 where
  ok : A → Result E A
  err : E → Result E A

-- `raise e` where the test holds, and the rest of the body.
abbrev pub refuse : {E A : Type 0} → Bool → E → Result E A → Result E A
refuse bad e rest = if bad then err e else rest

abbrev pub and_then : {E A B : Type 0} → Result E A → (A → Result E B) → Result E B
and_then (ok a) f = f a
and_then (err e) f = err e

-- Where a body returns, no test of it held.
pub refuse-ok :
    {E A : Type 0} (bad : Bool) (e : E) (rest : Result E A) (a : A)
    → refuse bad e rest ≡ ok a
    → (bad ≡ false) × (rest ≡ ok a)
refuse-ok true e rest a h = absurd (ground (arith, h))
refuse-ok false e rest a h = (refl, h)

pub and_then-ok :
    {E A B : Type 0} (m : Result E A) (f : A → Result E B) (b : B)
    → and_then m f ≡ ok b
    → (a : A) × (m ≡ ok a) × (f a ≡ ok b)
and_then-ok (ok a) f b h = (a, refl, h)
and_then-ok (err e) f b h = absurd (ground (arith, h))

abbrev pub result_or : {E A : Type 0} → A → Result E A → A
result_or a (ok b) = b
result_or a (err e) = a

pub ok_injective : {E A : Type 0} (a b : A) → Path (Result E A) (ok a) (ok b) → a ≡ b
ok_injective a b h = ap (result_or a) h
