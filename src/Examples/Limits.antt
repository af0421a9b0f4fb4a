-- ===== src/Examples/Limits.antt =====
-- Rate limits at concrete data.
use chmabapay.Base.{
  map, Bool, Option, some, ltb, ℕ, ◌+◌, ◌*◌, ◌≡◌, none, List, [], ◌∷◌, length, ◌-◌, ◌^◌, leb,
  if◌then◌else◌, count_where, min, arith,
}
use chmabapay.RateLimit.{second, locked_for, CachedFailures, get_failures}
use chmabapay.RateLimit.Ceiling.{hits, hits-ceiling}
use chmabapay.RateLimit.Lockout.{hour, last_of, failures, failures-wait}

-- Three requests of one minute against a limit of two.
hits-ceiling_example :
    count_where (λ a. a) (hits 2 none (5 ∷ 6 * second ∷ 59 * second ∷ [])) ≡ min 2 (1 + 2)
hits-ceiling_example =
    hits-ceiling 2 5 (6 * second ∷ 59 * second ∷ [])
      ((omega arith, omega arith), ((omega arith, omega arith), tt))

-- Seven failures, a second apart, of an address whose earlier failures are over an hour old.
abbrev mistakes : List ℕ
mistakes = map (λ n. hour + n * second) (2 ∷ 3 ∷ 4 ∷ 5 ∷ 6 ∷ 7 ∷ [])

abbrev forgotten : Option CachedFailures
forgotten = some (record { entry = record { count = 9; locked_until = 7 }; stored_at = 5 })

abbrev within_hour : ℕ → ℕ → Bool
within_hour stored now = ltb now (stored + hour)

failures-wait_example :
    let first = hour + second in
    let last = last_of first mistakes in
    locked_for
      (get_failures within_hour (failures within_hour 5 forgotten (first ∷ mistakes)) last)
      last
    ≡ (if leb 5 (1 + length mistakes) then min (60 * 2 ^ (1 + length mistakes - 5)) 3600 else 0)
failures-wait_example =
    failures-wait within_hour 5 forgotten (hour + second) mistakes
      (λ stored now h. ground (arith, h), λ stored now h. ground (arith, h)) (omega arith)
      (
        omega arith,
        omega arith,
        (
          omega arith,
          omega arith,
          (
            omega arith,
            omega arith,
            (omega arith, omega arith, (omega arith, omega arith, (omega arith, omega arith, tt))),
          ),
        ),
      )
