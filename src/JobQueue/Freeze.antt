-- ===== src/JobQueue/Freeze.antt =====
-- What can happen to a job while it is frozen (src/job_queue.py).
use swift_route.Prelude.{String, Bool, true, false, ◌≡◌, ◌≢◌, some, ◌&&◌, str_eq, not}
use swift_route.Prelude.Dict.{lookup}
use swift_route.Float.{Float}
use swift_route.Payments.Processor.{PaymentProcessor}
use swift_route.JobQueue.Jobs.{Job}
use swift_route.JobQueue.World.{World, Phase, before_execution, after_execution, Wait, woken}
use swift_route.JobQueue.Steps.{Event, work, freeze_event, resume_event, submit}

abbrev pub is_woken : Wait → Bool
is_woken woken = true
is_woken _ = false

-- The worker stands at one of the two waits of this job and has not been woken.
abbrev pub waits_for : String → Phase → Bool
waits_for id (before_execution j vm tunnel wait) = str_eq j id && not (is_woken wait)
waits_for id (after_execution j vm tunnel wait) = str_eq j id && not (is_woken wait)
waits_for id _ = false

module _ {W : Type 0} ⦃f : Float W⦄ where
  -- The job is as given, the worker waits for it, and the payments are as given.
  pub record IsHeld (id : String) (job : Job W) (payment : PaymentProcessor W) (w : World W)
      : Type 0 where
    pub same_job : lookup id w.jobs.jobs ≡ some job
    pub waiting : waits_for id w.phase ≡ true
    pub unpaid : w.payment ≡ payment

  -- No event resumes the job or submits another with its id.
  abbrev pub LeavesFrozen : String → Event W → Type 0
  LeavesFrozen id work = Unit
  LeavesFrozen id (freeze_event j) = Unit
  LeavesFrozen id (resume_event j) = j ≢ id
  LeavesFrozen id (submit job) = job.job_id ≢ id
