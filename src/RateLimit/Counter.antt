-- ===== src/RateLimit/Counter.antt =====
-- `RateLimiter.hit` and `LoginLockout` of ratelimit.py, for one key. The caches of the library
-- `cachetools` are outside: the window that one returns, or `none`, is an argument, and so is whether
-- the other still has an entry. The monotonic clock counts microseconds.
use chmabapay.Base.{
  ℕ, ◌+◌, ◌-◌, ◌*◌, ◌/◌, ◌^◌, Bool, Option, none, some, leb, min, max, if◌then◌else◌,
}

-- `time.monotonic()`
abbrev pub Tick : Type 0
Tick = ℕ

abbrev pub second : ℕ
second = 1_000_000

-- `WINDOW_SECONDS`
abbrev pub window_ticks : ℕ
window_ticks = 60 * second

pub record Window : Type 0 where
  pub started : Tick
  pub count : ℕ

-- The window that the cache returned, if it is still running, or a new one.
abbrev pub current : Option Window → Tick → Window
current none now = record { started = now; count = 0 }
current (some w) now =
    if leb window_ticks (now - w.started) then record { started = now; count = 0 } else w

pub record Verdict : Type 0 where
  pub allowed : Bool
  pub remaining : ℕ
  pub retry_after : ℕ

abbrev pub verdict : ℕ → Window → Tick → Verdict
verdict limit w now = record {
  allowed = leb w.count limit;
  remaining = limit - w.count;
  retry_after = max 1 ((window_ticks - (now - w.started)) / second);
}

-- The window after the request has been counted, and the answer.
unfoldable pub hit : ℕ → Option Window → Tick → Window × Verdict
hit limit entry now =
    let w = current entry now in
    let counted : Window = record { started = w.started; count = w.count + 1 } in
    (counted, verdict limit counted now)

pub record LoginFailures : Type 0 where
  pub count : ℕ
  pub locked_until : Tick

-- The seconds to wait.
unfoldable pub locked_for : Option LoginFailures → Tick → ℕ
locked_for none now = 0
locked_for (some entry) now = (entry.locked_until - now) / second

abbrev pub or_new : Option LoginFailures → LoginFailures
or_new none = record { count = 0; locked_until = 0 }
or_new (some entry) = entry

-- `min(60 * 2 ** (count - threshold), 3600)`
abbrev pub lock_seconds : ℕ → ℕ → ℕ
lock_seconds threshold count = min (60 * 2 ^ (count - threshold)) 3600

-- The entry after one more failure.
unfoldable pub record_login_failure : ℕ → Option LoginFailures → Tick → LoginFailures
record_login_failure threshold entry now =
    let count = (or_new entry).count + 1 in
    if leb threshold count
    then record { count = count; locked_until = now + lock_seconds threshold count * second }
    else record { count = count; locked_until = (or_new entry).locked_until }

-- The record of an address in the cache, with the instant at which it was stored.
pub record CachedFailures : Type 0 where
  pub entry : LoginFailures
  pub stored_at : Tick

-- `self._failures.get(email)`: `is_kept` says whether the cache still has what was stored then.
unfoldable pub get_failures :
    (Tick → Tick → Bool) → Option CachedFailures → Tick → Option LoginFailures
get_failures is_kept none now = none
get_failures is_kept (some cached) now =
    if is_kept cached.stored_at now then some cached.entry else none

-- `record_failure`, which stores the entry again; the answer is its `locked_for`.
unfoldable pub record_cached_failure :
    (Tick → Tick → Bool) → ℕ → Option CachedFailures → Tick → CachedFailures
unfolding record_login_failure get_failures
record_cached_failure is_kept threshold cached now = record {
  entry = record_login_failure threshold (get_failures is_kept cached now) now;
  stored_at = now;
}
