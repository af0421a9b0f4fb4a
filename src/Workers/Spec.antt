-- ===== src/Workers/Spec.antt =====
-- What a queue promises: every job that it accepts is in flight until it is done or given up.
use chmabapay.Base.{ℕ, ◌+◌, ◌≡◌, arith}

pub record Tally : Type 0 where
  pub accepted : ℕ
  pub in_flight : ℕ
  pub done : ℕ
  pub given_up : ℕ

pub data SpecStep (a b : Tally) : Type 0 where
  idle :
      b.accepted ≡ a.accepted
      → b.in_flight ≡ a.in_flight
      → b.done ≡ a.done
      → b.given_up ≡ a.given_up
      → SpecStep a b
  accepts :
      b.accepted ≡ a.accepted + 1
      → b.in_flight ≡ a.in_flight + 1
      → b.done ≡ a.done
      → b.given_up ≡ a.given_up
      → SpecStep a b
  completes :
      b.accepted ≡ a.accepted
      → b.in_flight + 1 ≡ a.in_flight
      → b.done ≡ a.done + 1
      → b.given_up ≡ a.given_up
      → SpecStep a b
  gives_up :
      b.accepted ≡ a.accepted
      → b.in_flight + 1 ≡ a.in_flight
      → b.done ≡ a.done
      → b.given_up ≡ a.given_up + 1
      → SpecStep a b

abbrev pub IsBalanced : Tally → Type 0
IsBalanced a = a.accepted ≡ a.in_flight + a.done + a.given_up

pub SpecStep-IsBalanced : (a b : Tally) → SpecStep a b → IsBalanced a → IsBalanced b
SpecStep-IsBalanced a b (idle h i j k) v = omega (arith, h, i, j, k, v)
SpecStep-IsBalanced a b (accepts h i j k) v = omega (arith, h, i, j, k, v)
SpecStep-IsBalanced a b (completes h i j k) v = omega (arith, h, i, j, k, v)
SpecStep-IsBalanced a b (gives_up h i j k) v = omega (arith, h, i, j, k, v)
