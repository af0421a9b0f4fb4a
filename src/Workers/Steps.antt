-- ===== src/Workers/Steps.antt =====
-- What can happen to the queue: calls of its operations, timers, and keys that the cache drops.
use chmabapay.Base.{ℕ, ◌≡◌, some, List, [], ◌∷◌, ◌++◌, Option, find_by, Text}
use chmabapay.Workers.Queue.{
  Job, Outcome, Transport, empty_transport, enqueue, dequeue, is_job, run_one,
}

-- The timer of a retry puts the job back.
abbrev pub fire : Transport → List (ℕ × Job) → Job → List (ℕ × Job) → Transport
fire t before job after = record t { ready = t.ready ++ job ∷ []; delayed = before ++ after }

pub data Step : Transport → Transport → Type 0 where
  enqueues :
      (t : Transport) (queue payload : Text) (dedup_key : Option Text)
      → Step t (enqueue t queue payload dedup_key).0
  dequeues : (t : Transport) (queue : Text) (n : ℕ) → Step t (dequeue t queue n).0
  runs :
      (t : Transport) (job : Job) (outcome : Outcome)
      → find_by (is_job job.job_id) t.running ≡ some job
      → Step t (run_one t job outcome)
  fires :
      (t : Transport) (before : List (ℕ × Job)) (delay : ℕ) (job : Job) (after : List (ℕ × Job))
      → t.delayed ≡ before ++ (delay, job) ∷ after
      → Step t (fire t before job after)
  forgets :
      (t : Transport) (before : List Text) (key : Text) (after : List Text)
      → t.dedup ≡ before ++ key ∷ after
      → Step t (record t { dedup = before ++ after })

pub data Reachable : Transport → Type 0 where
  started : Reachable empty_transport
  stepped : (t t' : Transport) → Reachable t → Step t t' → Reachable t'
