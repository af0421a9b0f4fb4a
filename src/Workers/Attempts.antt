-- ===== src/Workers/Attempts.antt =====
-- How often a job is attempted, and how long it waits: `_run_one` of workers/base.py.
use chmabapay.Base.{
  ℕ, ◌+◌, ◌-◌, ◌^◌, ◌≤◌, ◌<◌, min, max, ◌≡◌, refl, Bool, true, ◌&&◌, Option, some, List, [], ◌∷◌,
  ◌++◌, All, find_by, leb, ltb, Text, Bool-cases, inl, inr, arith,
}
use mathlib.Core.Path.{subst}
use chmabapay.Workers.Queue.{
  Job, Outcome, Transport, new_job, is_known, enqueue, is_on, pop, dequeue, is_job, remove_first,
  attempted, mark_done, run_one,
}
use chmabapay.Workers.Steps.{
  fire, Step, enqueues, dequeues, runs, fires, forgets, Reachable, started, stepped,
}

module _ {ℓ κ} {A : Type ℓ} (P : A → Type κ) where
  All-append : (xs ys : List A) → All P xs → All P ys → All P (xs ++ ys)
  All-append [] ys h k = k
  All-append (x ∷ xs) ys (h, t) k = (h, All-append xs ys t k)

  -- A list without one of its elements, and that element.
  All-without : (xs ys : List A) (x : A) → All P (xs ++ x ∷ ys) → All P (xs ++ ys) × P x
  All-without [] ys x (h, t) = (t, h)
  All-without (y ∷ xs) ys x (h, t) = let (rest, here) = All-without xs ys x t in ((h, rest), here)

  All-find : (p : A → Bool) (xs : List A) (x : A) → All P xs → find_by p xs ≡ some x → P x
  All-find p [] x h e = absurd (ground (arith, e))
  All-find p (y ∷ xs) x (h, t) e = elim (Bool-cases (p y)) [
    | inl here ↦ subst P (ground (arith, here, e)) h
    | inr there ↦ All-find p xs x t (ground (arith, there, e))
  ]

-- The default of `max_attempts`, with an attempt left.
abbrev pub IsLimited : Job → Type 0
IsLimited job = (job.max_attempts ≡ 10) × (job.attempts < 10)

-- A retry waits one second at least and ten minutes at most.
abbrev pub IsTimed : ℕ × Job → Type 0
IsTimed r = IsLimited r.1 × (1 ≤ r.0) × (r.0 ≤ 600)

abbrev pub AreLimited : Transport → Type 0
AreLimited t = All IsLimited t.ready × All IsLimited t.running × All IsTimed t.delayed

All-pop :
    (queue : Text) (n : ℕ) (jobs : List Job)
    → All IsLimited jobs
    → All IsLimited (pop queue n jobs).0 × All IsLimited (pop queue n jobs).1
unfolding pop
All-pop queue n [] h = (tt, tt)
All-pop queue n (job ∷ jobs) (h, t) =
    let hit = is_on queue job && ltb 0 n in
    elim (Bool-cases hit) [
      | inl e ↦ let (taken, left) = All-pop queue (n - 1) jobs t in rw e ((h, taken), left)
      | inr e ↦ let (taken, left) = All-pop queue n jobs t in rw e (taken, (h, left))
    ]

All-remove :
    (p : Job → Bool) (jobs : List Job) → All IsLimited jobs → All IsLimited (remove_first p jobs)
All-remove p [] h = tt
All-remove p (job ∷ jobs) (h, t) = elim (Bool-cases (p job)) [
  | inl e ↦ rw e t
  | inr e ↦ rw e (h, All-remove p jobs t)
]

enqueue-AreLimited :
    (t : Transport) (queue payload : Text) (key : Option Text)
    → AreLimited t
    → AreLimited (enqueue t queue payload key).0
unfolding enqueue
enqueue-AreLimited t queue payload key (ready, running, delayed) =
    elim (Bool-cases (is_known key t.dedup)) [
      | inl e ↦ rw (e, enqueue) (ready, running, delayed)
      | inr e ↦
          let new : IsLimited (new_job t.next_id queue payload key) = (refl, omega arith) in
          rw (e, enqueue)
            (
              All-append IsLimited t.ready (new_job t.next_id queue payload key ∷ []) ready
                  (new, tt),
              running,
              delayed,
            )
    ]

dequeue-AreLimited :
    (t : Transport) (queue : Text) (n : ℕ) → AreLimited t → AreLimited (dequeue t queue n).0
unfolding dequeue
dequeue-AreLimited t queue n (ready, running, delayed) =
    let (taken, left) = All-pop queue n t.ready ready in
    (left, All-append IsLimited t.running (pop queue n t.ready).0 running taken, delayed)

fire-AreLimited :
    (t : Transport) (before : List (ℕ × Job)) (delay : ℕ) (job : Job) (after : List (ℕ × Job))
    → t.delayed ≡ before ++ (delay, job) ∷ after
    → AreLimited t
    → AreLimited (fire t before job after)
fire-AreLimited t before delay job after h (ready, running, delayed) =
    let (rest, here) =
      All-without IsTimed before after (delay, job) (subst (All IsTimed) h delayed) in
    (All-append IsLimited t.ready (job ∷ []) ready (here.0, tt), running, rest)

-- A job that has attempts left waits, and another one is given up.
raised-AreLimited :
    (t : Transport) (job : Job)
    → IsLimited job
    → AreLimited t
    → AreLimited (run_one t job Outcome.raised)
unfolding run_one mark_done
raised-AreLimited t job (most, few) (ready, running, delayed) =
    let left = All-remove (is_job job.job_id) t.running running in
    elim (Bool-cases (leb job.max_attempts (job.attempts + 1))) [
      | inl e ↦ rw (run_one, e) (ready, left, delayed)
      | inr e ↦
          let more : ltb (job.attempts + 1) job.max_attempts ≡ true = ground (arith, e) in
          let wait = max 1 (min 600 (2 ^ (job.attempts + 1))) in
          let timed : IsTimed (wait, attempted job) =
            ((most, ground (arith, e, most)), omega arith, omega arith) in
          rw (run_one, e, more)
            (
              ready,
              left,
              All-append IsTimed t.delayed ((wait, attempted job) ∷ []) delayed (timed, tt),
            )
    ]

run_one-AreLimited :
    (t : Transport) (job : Job) (outcome : Outcome)
    → find_by (is_job job.job_id) t.running ≡ some job
    → AreLimited t
    → AreLimited (run_one t job outcome)
unfolding run_one mark_done
run_one-AreLimited t job Outcome.succeeded found (ready, running, delayed) =
    (ready, All-remove (is_job job.job_id) t.running running, delayed)
run_one-AreLimited t job Outcome.raised found v =
    raised-AreLimited t job (All-find IsLimited (is_job job.job_id) t.running job v.1 found) v

Step-AreLimited : (t t' : Transport) → Step t t' → AreLimited t → AreLimited t'
Step-AreLimited t t' (enqueues _ queue payload key) v = enqueue-AreLimited t queue payload key v
Step-AreLimited t t' (dequeues _ queue n) v = dequeue-AreLimited t queue n v
Step-AreLimited t t' (runs _ job outcome found) v = run_one-AreLimited t job outcome found v
Step-AreLimited t t' (fires _ before delay job after h) v =
    fire-AreLimited t before delay job after h v
Step-AreLimited t t' (forgets _ before key after h) v = v

-- In every reachable state of the queue each job in flight may be attempted ten times at most
-- and has been attempted fewer times than that, and a job that waits for a retry waits between
-- one and 600 seconds.
pub Reachable-AreLimited : (t : Transport) → Reachable t → AreLimited t
Reachable-AreLimited t started = (tt, tt, tt)
Reachable-AreLimited t' (stepped t _ before step) =
    Step-AreLimited t t' step (Reachable-AreLimited t before)
