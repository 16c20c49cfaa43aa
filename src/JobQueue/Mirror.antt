-- ===== src/JobQueue/Mirror.antt =====
-- The status of a job in the database and that of the job object, over the steps of every task
-- (src/job_queue.py).
mod Rules
pub mod Changes
pub mod Process
use mathlib.Core.Option
use swift_route.Prelude.{
  String, Bool, true, false, ◌≡◌, ◌≢◌, refl, sym, subst, ap, ◌∙◌, Option, none, some, List, [], ◌∷◌,
  All, arith, str_eq, eq_iff, if◌then◌else◌, Option-cases, Bool-cases, inl, inr,
}
use swift_route.Prelude.Dict.{Dict, lookup, insert, adjust, lookup-insert, lookup-adjust}
use swift_route.Float.{Float}
use swift_route.Persistence.{
  Db, JobRow, new_row, with_status, with_result, update_job_result, create_job, set_balances,
  store_receipt, update_job_status,
}
use swift_route.Payments.{StripeApi, PaymentResult}
use swift_route.Payments.Processor.{PaymentProcessor, mock, stripe, capture, refund}
use swift_route.Config.{Settings}
use swift_route.Tunnel.{TunnelConfig, WireGuardTunnelManager, create_tunnel, write_config}
use swift_route.Vm.{MicroVm, MicroVmManager, Created, created, vm_error, create_vm, execute}
use swift_route.Host.{Files}
use swift_route.Json.{JsonObject, dumps_or_none}
use swift_route.Receipts.{receipt_object}
use swift_route.Pricing.{StateVector}
use swift_route.Router.{
  Zone, Routed, routed, failed as route_failed, find_optimal_zone, default_workload,
}
use swift_route.JobQueue.Jobs.{
  Job, JobQueue, JobStatus, status_text, job_is, is_running, is_frozen, queued, running, frozen,
  completed, failed, freeze, resume, put_job, freeze_job, resume_job, enqueue,
}
use swift_route.JobQueue.Lookup.{lookup-put_job}
use swift_route.JobQueue.World.{
  World, Env, Phase, idle, before_execution, after_execution, after_capture, Wait, unchecked,
  parked, woken,
}
use swift_route.JobQueue.Worker.{
  set_status, finish, fail_job, run_vm, logs_object, capture_payment, start_job, prepare_job,
  complete_job, with_created, with_written, with_managers, with_stored, with_route, payment_object,
  set_job, mint_receipt,
}
use swift_route.JobQueue.Steps.{
  step_idle, step_at, capture_found, complete_found, Event, work, freeze_event, resume_event,
  submit, step, run, worker_step, freeze_in, resume_in, submit_in,
}
pub use Changes.{Mirrored}
use Changes.{
  set_status-Mirrored, finish-Mirrored, freeze-Mirrored, resume-Mirrored, run_vm-Mirrored,
  store_receipt-jobs, submit-Mirrored,
}
use Process.{start_job-Mirrored, capture_payment-Mirrored, complete_job-Mirrored}

module _ {W : Type 0} ⦃f : Float W⦄ where
  step_idle-Mirrored :
      (env : Env W) (w : World W) (ids : List String) → Mirrored w → Mirrored (step_idle env w ids)
  step_idle-Mirrored env w [] m = m
  step_idle-Mirrored env w (id ∷ rest) m = elim (Option-cases (lookup id w.jobs.jobs)) [
    | inl e ↦ rw e m
    | inr (job, e) ↦
        rw e (start_job-Mirrored env job (record w { jobs = record (w.jobs) { queue = rest } }) m)
  ]

  capture_found-Mirrored :
      (env : Env W) (vm : MicroVm) (tunnel : TunnelConfig) (w : World W) (o : Option (Job W))
      → Mirrored w
      → Mirrored (capture_found env vm tunnel w o)
  capture_found-Mirrored env vm tunnel w none m = m
  capture_found-Mirrored env vm tunnel w (some job) m =
      capture_payment-Mirrored env job vm tunnel w m

  complete_found-Mirrored :
      (env : Env W) (vm : MicroVm) (tunnel : TunnelConfig) (w : World W) (o : Option (Job W))
      → Mirrored w
      → Mirrored (complete_found env vm tunnel w o)
  complete_found-Mirrored env vm tunnel w none m = m
  complete_found-Mirrored env vm tunnel w (some job) m = complete_job-Mirrored env job vm tunnel w m

  step_at-Mirrored :
      (env : Env W) (w : World W) (p : Phase) → Mirrored w → Mirrored (step_at env w p)
  step_at-Mirrored env w idle m = step_idle-Mirrored env w w.jobs.queue m
  step_at-Mirrored env w (before_execution id vm tunnel unchecked) m =
      elim (Bool-cases (job_is is_frozen (lookup id w.jobs.jobs))) [
        | inl e ↦ rw e m
        | inr e ↦ rw e (run_vm-Mirrored env id vm tunnel w m)
      ]
  step_at-Mirrored env w (before_execution id vm tunnel parked) m = m
  step_at-Mirrored env w (before_execution id vm tunnel woken) m =
      run_vm-Mirrored env id vm tunnel w m
  step_at-Mirrored env w (after_execution id vm tunnel unchecked) m =
      elim (Bool-cases (job_is is_frozen (lookup id w.jobs.jobs))) [
        | inl e ↦ rw e m
        | inr e ↦ rw e (capture_found-Mirrored env vm tunnel w (lookup id w.jobs.jobs) m)
      ]
  step_at-Mirrored env w (after_execution id vm tunnel parked) m = m
  step_at-Mirrored env w (after_execution id vm tunnel woken) m =
      capture_found-Mirrored env vm tunnel w (lookup id w.jobs.jobs) m
  step_at-Mirrored env w (after_capture id vm tunnel) m =
      complete_found-Mirrored env vm tunnel w (lookup id w.jobs.jobs) m

  -- A submitted job is new: it is queued, and the database has no row under its id.
  abbrev pub IsFresh : Event W → World W → Type 0
  IsFresh (submit job) w = (job.status ≡ queued) × (lookup job.job_id w.db.jobs ≡ none)
  IsFresh _ w = Unit

  pub step-Mirrored :
      (env : Env W) (e : Event W) (w : World W) → IsFresh e w → Mirrored w → Mirrored (step env e w)
  unfolding step worker_step
  step-Mirrored env work w ok m = step_at-Mirrored env w w.phase m
  step-Mirrored env (freeze_event id) w ok m = freeze-Mirrored env id w m
  step-Mirrored env (resume_event id) w ok m = resume-Mirrored env id w m
  step-Mirrored env (submit job) w (new, fresh) m = submit-Mirrored env job w new fresh m

  -- Every submission of the run is fresh when it comes.
  abbrev pub AllFresh : List (Env W × Event W) → World W → Type 0
  AllFresh [] w = Unit
  AllFresh ((env, e) ∷ es) w = IsFresh e w × AllFresh es (step env e w)

  -- Any run of worker steps, freezes, resumes and submissions of fresh jobs, wherever the steps of a
  -- job fail, keeps the status of every job's row in the database that of the job object.
  pub run-Mirrored :
      (es : List (Env W × Event W)) (w : World W) → AllFresh es w → Mirrored w → Mirrored (run es w)
  unfolding run
  run-Mirrored [] w ok m = m
  run-Mirrored ((env, e) ∷ es) w (ok, oks) m =
      run-Mirrored es (step env e w) oks (step-Mirrored env e w ok m)
