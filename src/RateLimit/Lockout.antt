-- ===== src/RateLimit/Lockout.antt =====
-- How long an e-mail address is refused after a run of failures.
use chmabapay.Base.{
  ℕ, ◌+◌, ◌-◌, ◌*◌, ◌^◌, ◌≤◌, ◌<◌, ◌≡◌, ap, ◌∙◌, Bool, true, false, Option, none, some, List, [],
  ◌∷◌, length, min, leb, if◌then◌else◌, arith,
}
use chmabapay.RateLimit.Counter.{
  Tick, second, CachedFailures, locked_for, lock_seconds, record_login_failure, get_failures,
  record_cached_failure,
}

-- 3600 seconds, in microseconds
abbrev pub hour : ℕ
hour = 3_600_000_000

-- The cache has an entry for an hour after it was stored, and no longer.
abbrev pub KeepsForAnHour : (Tick → Tick → Bool) → Type 0
KeepsForAnHour is_kept =
    ((stored now : Tick) → now < stored + hour → is_kept stored now ≡ true)
    × ((stored now : Tick) → stored + hour ≤ now → is_kept stored now ≡ false)

-- Each failure comes less than an hour after the one before.
abbrev pub AreClose : Tick → List Tick → Type 0
AreClose before [] = Unit
AreClose before (now ∷ ticks) = (before ≤ now) × (now < before + hour) × AreClose now ticks

-- No failure, or none within the last hour.
abbrev pub IsStale : Option CachedFailures → Tick → Type 0
IsStale none now = Unit
IsStale (some cached) now = cached.stored_at + hour ≤ now

abbrev pub last_of : Tick → List Tick → Tick
last_of first [] = first
last_of first (now ∷ ticks) = last_of now ticks

-- The cache after a run of failures with no success between them.
unfoldable pub failures :
    (Tick → Tick → Bool) → ℕ → Option CachedFailures → List Tick → Option CachedFailures
unfolding record_cached_failure
failures is_kept threshold cached [] = cached
failures is_kept threshold cached (now ∷ ticks) =
    failures is_kept threshold (some (record_cached_failure is_kept threshold cached now)) ticks

abbrev lock_end : ℕ → ℕ → Tick → Tick
lock_end threshold n now = if leb threshold n then now + lock_seconds threshold n * second else 0

-- The record after `n` failures, the last of them at `now`.
abbrev after : ℕ → ℕ → Tick → CachedFailures
after threshold n now = record {
  entry = record { count = n; locked_until = lock_end threshold n now };
  stored_at = now;
}

module _ (is_kept : Tick → Tick → Bool) (threshold : ℕ) (ttl : KeepsForAnHour is_kept) where
  record_cached_failure-stale :
      (before : Option CachedFailures) (now : Tick)
      → IsStale before now
      → record_cached_failure is_kept threshold before now ≡ after threshold 1 now
  unfolding record_cached_failure record_login_failure get_failures
  record_cached_failure-stale none now old = ground arith
  record_cached_failure-stale (some cached) now old =
      ground (arith, ttl.1 cached.stored_at now (omega (arith, old)))

  record_cached_failure-kept :
      (n before now : ℕ)
      → now < before + hour
      → record_cached_failure is_kept threshold (some (after threshold n before)) now
        ≡ after threshold (n + 1) now
  unfolding record_cached_failure record_login_failure get_failures
  record_cached_failure-kept n before now close =
      ground (arith, ttl.0 before now (omega (arith, close)))

  failures-after :
      (n first : ℕ) (ticks : List Tick)
      → AreClose first ticks
      → failures is_kept threshold (some (after threshold n first)) ticks
        ≡ some (after threshold (n + length ticks) (last_of first ticks))
  unfolding failures
  failures-after n first [] close = ap (λ k. some (after threshold k first)) (omega arith)
  failures-after n first (now ∷ ticks) (_, close, rest) =
      ap (λ c. failures is_kept threshold (some c) ticks)
        (record_cached_failure-kept n first now close)
      ∙ failures-after (n + 1) now ticks rest
      ∙ ap (λ k. some (after threshold k (last_of now ticks))) (omega arith)

  locked_for-after :
      (n now : ℕ)
      → locked_for (get_failures is_kept (some (after threshold n now)) now) now
        ≡ (if leb threshold n then min (60 * 2 ^ (n - threshold)) 3600 else 0)
  unfolding locked_for get_failures
  locked_for-after n now = ground (arith, ttl.0 now now (omega arith))

-- After a run of failed sign-ins of one address with no success between them, each less than an
-- hour after the one before, and the first an hour or more after any earlier failure, the
-- address waits no time below the threshold, and from the threshold on sixty seconds that double
-- with each further failure of the run, up to one hour. It assumes that the cache keeps an entry
-- for an hour after it was stored and no longer, which is so while it is not full.
pub failures-wait :
    (is_kept : Tick → Tick → Bool) (threshold : ℕ) (before : Option CachedFailures) (first : Tick)
    (ticks : List Tick)
    → KeepsForAnHour is_kept
    → IsStale before first
    → AreClose first ticks
    → let last = last_of first ticks in
      locked_for
        (get_failures is_kept (failures is_kept threshold before (first ∷ ticks)) last)
        last
      ≡ (if leb threshold (1 + length ticks)
          then min (60 * 2 ^ (1 + length ticks - threshold)) 3600
          else 0)
unfolding failures
failures-wait is_kept threshold before first ticks ttl old close =
    let last = last_of first ticks in
    ap
      (λ c. locked_for (get_failures is_kept (failures is_kept threshold (some c) ticks) last) last)
      (record_cached_failure-stale is_kept threshold ttl before first old)
    ∙ ap (λ c. locked_for (get_failures is_kept c last) last)
        (failures-after is_kept threshold ttl 1 first ticks close)
    ∙ locked_for-after is_kept threshold ttl (1 + length ticks) last
