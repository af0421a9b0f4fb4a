-- ===== src/RateLimit/Ceiling.antt =====
-- How many requests of one window are let through, and when the next window opens.
use chmabapay.Base.{
  ℕ, ◌+◌, ◌-◌, ◌*◌, ◌/◌, ◌≤◌, ◌<◌, ◌≡◌, Bool, true, Option, none, some, List, [], ◌∷◌, All, length,
  count_where, min, max, arith,
}
use chmabapay.RateLimit.Counter.{Tick, second, window_ticks, Window, current, hit}

-- The answers to a run of requests for one key, while the cache keeps the entry.
unfoldable pub hits : ℕ → Option Window → List Tick → List Bool
unfolding hit
hits limit entry [] = []
hits limit entry (now ∷ ticks) =
    let (w, answer) = hit limit entry now in answer.allowed ∷ hits limit (some w) ticks

-- The window that started at `started` is running.
abbrev pub IsWithin : Tick → Tick → Type 0
IsWithin started now = (started ≤ now) × (now < started + window_ticks)

hits-running :
    (limit : ℕ) (w : Window) (ticks : List Tick)
    → All (IsWithin w.started) ticks
    → count_where (λ a. a) (hits limit (some w) ticks) ≡ min (limit - w.count) (length ticks)
unfolding hits hit
hits-running limit w [] inside = omega arith
hits-running limit w (now ∷ ticks) (here, inside) = ground (
  arith,
  here.0,
  here.1,
  hits-running limit (record { started = w.started; count = w.count + 1 }) ticks inside,
)

-- Of the requests of one key that arrive within one window of sixty seconds from the first,
-- exactly the smaller of the limit and their number are let through, while the cache keeps the
-- entry.
pub hits-ceiling :
    (limit : ℕ) (first : Tick) (ticks : List Tick)
    → All (IsWithin first) ticks
    → count_where (λ a. a) (hits limit none (first ∷ ticks)) ≡ min limit (1 + length ticks)
unfolding hits hit
hits-ceiling limit first ticks inside =
    ground (arith, hits-running limit (record { started = first; count = 1 }) ticks inside)

waited :
    (started now : Tick)
    → started ≤ now
    → window_ticks
      ≤ now + (max 1 ((window_ticks - (now - started)) / second) + 1) * second - started
waited started now before = omega arith

-- A request after the end of a window is let through.
hit-after :
    (limit : ℕ) (w : Window) (later : Tick)
    → 1 ≤ limit
    → window_ticks ≤ later - w.started
    → (hit limit (some w) later).1.allowed ≡ true
unfolding hit
hit-after limit w later room over = ground (arith, over)

retry :
    (limit : ℕ) (entry : Option Window) (now : Tick)
    → (current entry now).started ≤ now
    → let (w, answer) = hit limit entry now in
      window_ticks ≤ now + (answer.retry_after + 1) * second - w.started
unfolding hit
retry limit entry now before = waited (current entry now).started now before

-- Under a limit of at least one, a request that comes one second after the retry time that an
-- answer gives is let through. It assumes that the window of the answer did not start after the
-- request.
hit-reopens :
    (limit : ℕ) (entry : Option Window) (now : Tick)
    → 1 ≤ limit
    → (current entry now).started ≤ now
    → let (w, answer) = hit limit entry now in
      (hit limit (some w) (now + (answer.retry_after + 1) * second)).1.allowed ≡ true
hit-reopens limit entry now room before =
    let (w, answer) = hit limit entry now in
    hit-after limit w (now + (answer.retry_after + 1) * second) room (retry limit entry now before)
