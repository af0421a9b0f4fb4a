-- ===== src/Workers/Refines.antt =====
-- The queue keeps its promise: what `InProcessTransport` counts, and the jobs that it holds.
use chmabapay.Base.{
  ℕ, ◌+◌, ◌-◌, ◌≡◌, refl, ap, Bool, ◌&&◌, Option, none, some, List, [], ◌∷◌, ◌++◌, find_by,
  count_where, count_where-append, ltb, if◌then◌else◌, Text, Bool-cases, inl, inr, arith,
}
use chmabapay.Workers.Queue.{
  Job, Outcome, Transport, new_job, is_known, enqueue, is_on, pop, dequeue, is_job, remove_first,
  retry_delay, retry_or_die, retry_seconds, attempted, mark_done, run_one,
}
use chmabapay.Workers.Steps.{
  fire, Step, enqueues, dequeues, runs, fires, forgets, Reachable, started, stepped,
}
use chmabapay.Workers.Spec.{
  Tally, SpecStep, idle, accepts, completes, gives_up, IsBalanced, SpecStep-IsBalanced,
}

abbrev pub held : Text → List (ℕ × Job) → ℕ
held queue jobs = count_where (λ r. is_on queue r.1) jobs

-- What the specification sees of a queue.
abbrev pub view : Text → Transport → Tally
view queue t = record {
  accepted = (t.counters queue).pending;
  in_flight =
      count_where (is_on queue) t.ready
      + count_where (is_on queue) t.running
      + held queue t.delayed;
  done = (t.counters queue).success;
  given_up = (t.counters queue).dead;
}

pop-count :
    (p : Job → Bool) (queue : Text) (n : ℕ) (jobs : List Job)
    → count_where p (pop queue n jobs).0 + count_where p (pop queue n jobs).1 ≡ count_where p jobs
unfolding pop
pop-count p queue n [] = refl
pop-count p queue n (job ∷ jobs) =
    let hit = is_on queue job && ltb 0 n in
    elim (Bool-cases hit) [
      | inl e ↦ rw e (omega (arith, pop-count p queue (n - 1) jobs))
      | inr e ↦ rw e (omega (arith, pop-count p queue n jobs))
    ]

remove_first-count :
    (m p : Job → Bool) (jobs : List Job) (job : Job)
    → find_by m jobs ≡ some job
    → count_where p (remove_first m jobs) + (if p job then 1 else 0) ≡ count_where p jobs
remove_first-count m p [] job h = absurd (ground (arith, h))
remove_first-count m p (x ∷ xs) job h = ground (arith, h, remove_first-count m p xs job)

enqueue-refines :
    (t : Transport) (queue payload : Text) (dedup_key : Option Text) (name : Text)
    → SpecStep (view name t) (view name (enqueue t queue payload dedup_key).0)
unfolding enqueue
enqueue-refines t queue payload dedup_key name =
    let job = new_job t.next_id queue payload dedup_key in
    let more = count_where-append (is_on name) t.ready (job ∷ []) in
    elim (Bool-cases (is_known dedup_key t.dedup)) [
      | inl e ↦ rw (e, enqueue) (idle refl refl refl refl)
      | inr e ↦ elim (Bool-cases (is_on name job)) [
        | inl here ↦ rw (e, enqueue, here) (accepts refl (ground (arith, more, here)) refl refl)
        | inr there ↦ rw (e, enqueue, there) (idle refl (ground (arith, more, there)) refl refl)
      ]
    ]

dequeue-refines :
    (t : Transport) (queue : Text) (n : ℕ) (name : Text)
    → SpecStep (view name t) (view name (dequeue t queue n).0)
unfolding dequeue
dequeue-refines t queue n name =
    idle refl
      (omega (
        arith,
        pop-count (is_on name) queue n t.ready,
        count_where-append (is_on name) t.running (pop queue n t.ready).0,
      ))
      refl refl

fire-refines :
    (t : Transport) (before : List (ℕ × Job)) (delay : ℕ) (job : Job) (after : List (ℕ × Job))
    (name : Text)
    → t.delayed ≡ before ++ (delay, job) ∷ after
    → SpecStep (view name t) (view name (fire t before job after))
fire-refines t before delay job after name h =
    idle refl
      (ground (
        arith,
        ap (held name) h,
        count_where-append (is_on name) t.ready (job ∷ []),
        count_where-append (λ r. is_on name r.1) before after,
        count_where-append (λ r. is_on name r.1) before ((delay, job) ∷ after),
      ))
      refl refl

-- The end of an attempt that succeeded.
succeeded-refines :
    (t : Transport) (job : Job) (name : Text)
    → find_by (is_job job.job_id) t.running ≡ some job
    → SpecStep (view name t) (view name (run_one t job Outcome.succeeded))
unfolding run_one mark_done
succeeded-refines t job name found =
    let left = remove_first-count (is_job job.job_id) (is_on name) t.running job found in
    elim (Bool-cases (is_on name job)) [
      | inl here ↦ rw here (completes refl (ground (arith, left, here)) refl refl)
      | inr there ↦ rw there (idle refl (ground (arith, left, there)) refl refl)
    ]

-- The end of an attempt that raised.
raised-refines :
    (t : Transport) (job : Job) (delay : Option ℕ) (name : Text)
    → find_by (is_job job.job_id) t.running ≡ some job
    → SpecStep (view name t) (view name (retry_or_die t (attempted job) delay))
raised-refines t job none name found =
    let left = remove_first-count (is_job job.job_id) (is_on name) t.running job found in
    elim (Bool-cases (is_on name job)) [
      | inl here ↦ rw here (gives_up refl (ground (arith, left, here)) refl refl)
      | inr there ↦ rw there (idle refl (ground (arith, left, there)) refl refl)
    ]
raised-refines t job (some delay) name found =
    let left = remove_first-count (is_job job.job_id) (is_on name) t.running job found in
    let timed = count_where-append (λ r. is_on name r.1) t.delayed ((delay, attempted job) ∷ []) in
    elim (Bool-cases (is_on name job)) [
      | inl here ↦ rw here (idle refl (ground (arith, left, timed, here)) refl refl)
      | inr there ↦ rw there (idle refl (ground (arith, left, timed, there)) refl refl)
    ]

run_one-refines :
    (t : Transport) (job : Job) (outcome : Outcome) (name : Text)
    → find_by (is_job job.job_id) t.running ≡ some job
    → SpecStep (view name t) (view name (run_one t job outcome))
unfolding run_one mark_done
run_one-refines t job Outcome.succeeded name found = succeeded-refines t job name found
run_one-refines t job Outcome.raised name found =
    raised-refines t job (retry_delay (attempted job) (retry_seconds (attempted job))) name found

-- Every step of the queue (an enqueued job, a dequeue, an attempt that succeeds or raises, the
-- timer of a retry, a key that the cache drops) is, for each queue name, a step of the
-- specification: nothing changes, or one more job is accepted and in flight, or one job in
-- flight is done, or one is given up.
pub Step-refines :
    (t t' : Transport) (name : Text) → Step t t' → SpecStep (view name t) (view name t')
Step-refines t t' name (enqueues _ queue payload key) = enqueue-refines t queue payload key name
Step-refines t t' name (dequeues _ queue n) = dequeue-refines t queue n name
Step-refines t t' name (runs _ job outcome found) = run_one-refines t job outcome name found
Step-refines t t' name (fires _ before delay job after h) =
    fire-refines t before delay job after name h
Step-refines t t' name (forgets _ before key after h) = idle refl refl refl refl

-- In every reachable state of the queue the number of jobs that a queue name has accepted is the
-- number of its jobs in flight (ready, running or waiting for a retry) with those that are done
-- and those that are given up.
pub Reachable-IsBalanced : (t : Transport) (name : Text) → Reachable t → IsBalanced (view name t)
Reachable-IsBalanced t name started = refl
Reachable-IsBalanced t' name (stepped t _ before step) =
    SpecStep-IsBalanced (view name t) (view name t') (Step-refines t t' name step)
      (Reachable-IsBalanced t name before)
