-- ===== src/Workers/Queue.antt =====
-- `Job` of workers/job.py, `_run_one` of workers/base.py and `InProcessTransport` of
-- workers/inprocess.py. The jobs of all the queues stand in one list, in the order of insertion.
use chmabapay.Base.{
  ℕ, ◌+◌, ◌-◌, ◌^◌, min, max, Bool, true, false, Option, none, some, List, [], ◌∷◌, ◌++◌, any_of,
  leb, ltb, ◌==◌, if◌then◌else◌, Text, text_eq, ◌&&◌,
}

pub record Job : Type 0 where
  pub job_id : ℕ
  pub queue_name : Text
  pub payload : Text
  pub dedup_key : Option Text
  pub attempts : ℕ
  pub max_attempts : ℕ

-- What `Worker.process` does: it returns, or it raises.
pub data Outcome : Type 0 where
  succeeded raised : Outcome

-- The counters of a queue, by the constants of `JobStatus`, and `"retry"`.
pub record Counters : Type 0 where
  pub pending : ℕ
  pub success : ℕ
  pub retry : ℕ
  pub dead : ℕ

-- `running` are the jobs that a drain loop has taken, `delayed` those that a timer holds, with its
-- seconds. `pending` has the identifiers of
-- the jobs in flight, and `dedup` the keys that the cache still holds.
pub record Transport : Type 0 where
  pub ready : List Job
  pub running : List Job
  pub delayed : List (ℕ × Job)
  pub pending : List ℕ
  pub dedup : List Text
  pub counters : Text → Counters
  pub next_id : ℕ

abbrev pub no_counts : Counters
no_counts = record { pending = 0; success = 0; retry = 0; dead = 0 }

abbrev pub empty_transport : Transport
empty_transport = record {
  ready = [];
  running = [];
  delayed = [];
  pending = [];
  dedup = [];
  counters = λ queue. no_counts;
  next_id = 0;
}

abbrev pub bump : Text → (Counters → Counters) → (Text → Counters) → Text → Counters
bump queue f counters name = if text_eq queue name then f (counters name) else counters name

abbrev pub new_job : ℕ → Text → Text → Option Text → Job
new_job id queue payload dedup_key = record {
  job_id = id;
  queue_name = queue;
  payload = payload;
  dedup_key = dedup_key;
  attempts = 0;
  max_attempts = 10;
}

abbrev pub is_known : Option Text → List Text → Bool
is_known none keys = false
is_known (some key) keys = any_of (text_eq key) keys

abbrev pub remember : Option Text → List Text → List Text
remember none keys = keys
remember (some key) keys = key ∷ keys

abbrev pub submit : Transport → Job → Transport
submit t job = record t {
  ready = t.ready ++ job ∷ [];
  pending = t.pending ++ job.job_id ∷ [];
  dedup = remember job.dedup_key t.dedup;
  counters = bump job.queue_name (λ c. record c { pending = c.pending + 1 }) t.counters;
  next_id = t.next_id + 1;
}

-- The job is returned in both cases; one whose key is known is put in no queue.
unfoldable pub enqueue : Transport → Text → Text → Option Text → Transport × Job
enqueue t queue payload dedup_key =
    let job = new_job t.next_id queue payload dedup_key in
    if is_known dedup_key t.dedup
    then (record t { next_id = t.next_id + 1 }, job)
    else (submit t job, job)

abbrev pub is_on : Text → Job → Bool
is_on queue job = text_eq job.queue_name queue

-- Splits the first `n` jobs of a queue off.
unfoldable pub pop : Text → ℕ → List Job → List Job × List Job
pop queue n [] = ([], [])
pop queue n (job ∷ jobs) =
    let hit = is_on queue job && ltb 0 n in
    let rest = pop queue (if hit then n - 1 else n) jobs in
    if hit then (job ∷ rest.0, rest.1) else (rest.0, job ∷ rest.1)

-- `n` jobs at most, those that are there before the deadline.
unfoldable pub dequeue : Transport → Text → ℕ → Transport × List Job
unfolding pop
dequeue t queue n =
    let (taken, left) = pop queue n t.ready in
    (record t { ready = left; running = t.running ++ taken }, taken)

-- The first that passes the test goes.
abbrev pub remove_first : {A : Type 0} → (A → Bool) → List A → List A
remove_first p [] = []
remove_first p (x ∷ xs) = let rest = remove_first p xs in if p x then xs else x ∷ rest

abbrev pub is_job : ℕ → Job → Bool
is_job id job = job.job_id == id

abbrev pub finished : Job → (Counters → Counters) → Transport → Transport
finished job f t = record t {
  running = remove_first (is_job job.job_id) t.running;
  pending = remove_first (λ id. id == job.job_id) t.pending;
  counters = bump job.queue_name f t.counters;
}

-- `retry_after_seconds is not None and job.attempts < job.max_attempts`: the timer of the retry.
abbrev pub retry_delay : Job → Option ℕ → Option ℕ
retry_delay job none = none
retry_delay job (some seconds) =
    if ltb job.attempts job.max_attempts then some (max 1 seconds) else none

abbrev pub retry_or_die : Transport → Job → Option ℕ → Transport
retry_or_die t job none = finished job (λ c. record c { dead = c.dead + 1 }) t
retry_or_die t job (some delay) = record t {
  running = remove_first (is_job job.job_id) t.running;
  delayed = t.delayed ++ (delay, job) ∷ [];
  counters = bump job.queue_name (λ c. record c { retry = c.retry + 1 }) t.counters;
}

unfoldable pub mark_done : Transport → Job → Bool → Option ℕ → Transport
mark_done t job success retry_after_seconds =
    if success
    then finished job (λ c. record c { success = c.success + 1 }) t
    else retry_or_die t job (retry_delay job retry_after_seconds)

-- `min(600, 2 ** job.attempts)`, and none for the last attempt
abbrev pub retry_seconds : Job → Option ℕ
retry_seconds job =
    if leb job.max_attempts job.attempts then none else some (min 600 (2 ^ job.attempts))

abbrev pub attempted : Job → Job
attempted job = record job { attempts = job.attempts + 1 }

-- One attempt at a job.
unfoldable pub run_one : Transport → Job → Outcome → Transport
unfolding mark_done
run_one t job Outcome.succeeded = mark_done t (attempted job) true none
run_one t job Outcome.raised = mark_done t (attempted job) false (retry_seconds (attempted job))
