-- ===== src/Examples/Jobs.antt =====
-- A job that raises once, at concrete data.
use chmabapay.Base.{refl, some, [], codes, Text}
use chmabapay.Workers.{
  Job, Outcome, Transport, empty_transport, enqueue, pop, dequeue, run_one, new_job,
}
use chmabapay.Workers.Steps.{Step, enqueues, dequeues, runs, Reachable, started, stepped}
use chmabapay.Workers.Spec.{SpecStep, IsBalanced}
use chmabapay.Workers.Refines.{view, Step-refines, Reachable-IsBalanced}
use chmabapay.Workers.Attempts.{AreLimited, Reachable-AreLimited}

abbrev queue : Text
queue = codes "q"

abbrev queued : Transport
queued = (enqueue empty_transport queue [] (some (codes "key"))).0

abbrev taken : Transport
taken = (dequeue queued queue 1).0

abbrev job : Job
job = new_job 0 queue [] (some (codes "key"))

abbrev waiting : Transport
waiting = run_one taken job Outcome.raised

waiting-Step : Step taken waiting
unfolding enqueue dequeue pop
waiting-Step = runs taken job Outcome.raised refl

waiting-Reachable : Reachable waiting
waiting-Reachable =
    stepped taken waiting
      (stepped queued taken
        (stepped empty_transport queued started
          (enqueues empty_transport queue [] (some (codes "key"))))
        (dequeues queued queue 1))
      waiting-Step

Step-refines_example : SpecStep (view queue taken) (view queue waiting)
Step-refines_example = Step-refines taken waiting queue waiting-Step

Reachable-IsBalanced_example : IsBalanced (view queue waiting)
Reachable-IsBalanced_example = Reachable-IsBalanced waiting queue waiting-Reachable

Reachable-AreLimited_example : AreLimited waiting
Reachable-AreLimited_example = Reachable-AreLimited waiting waiting-Reachable
