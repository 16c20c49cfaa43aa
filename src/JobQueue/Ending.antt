-- ===== src/JobQueue/Ending.antt =====
-- The way of a job from its preparation to its end (src/job_queue.py, `_process_job`).
use text.Mathlib.TextPositions.{eq_refl}
use swift_route.Prelude.{String, true, false, ◌≡◌, refl, subst, sym, some, [], ◌∷◌, arith}
use swift_route.Prelude.Dict.{lookup}
use swift_route.Float.{Float}
use swift_route.Payments.Processor.{capture}
use swift_route.Tunnel.{TunnelConfig}
use swift_route.Vm.{MicroVm, execute}
use swift_route.JobQueue.Jobs.{Job, is_frozen}
use swift_route.JobQueue.Lookup.{lookup-put_job}
use swift_route.JobQueue.World.{
  World, Env, before_execution, after_execution, after_capture, unchecked,
}
use swift_route.JobQueue.Worker.{logs_object, payment_object, run_vm, capture_payment, complete_job}
use swift_route.JobQueue.Steps.{worker_step, step, run, work}
use swift_route.JobQueue.Cleanup.{IsOver, complete_job-IsOver, is_found}

module _ {W : Type 0} ⦃f : Float W⦄ (id : String) (vm : MicroVm) (tunnel : TunnelConfig) where
  -- The job after its execution, and after its capture.
  abbrev executed : Env W → Job W → Job W
  executed env job = record job { vm_logs = logs_object (execute env.sha256 vm) }

  abbrev pub charged : Env W → Job W → World W → Job W
  charged env job w =
      let (_, _, result) =
        capture env.api env.settings env.now job.payment_id job.total_charge w.payment w.db in
      record job { payment_result = payment_object result }

  execution_step :
      (env : Env W) (w : World W) (job : Job W)
      → w.phase ≡ before_execution id vm tunnel unchecked
      → lookup id w.jobs.jobs ≡ some job
      → is_frozen job.status ≡ false
      → ((worker_step env w).phase ≡ after_execution id vm tunnel unchecked)
        × (lookup id (worker_step env w).jobs.jobs ≡ some (executed env job))
  unfolding worker_step run_vm
  execution_step env w job at known warm =
      ground (arith, lookup-put_job id id (executed env) w.jobs, eq_refl id)

  pub capture_step :
      (env : Env W) (w : World W) (job : Job W)
      → w.phase ≡ after_execution id vm tunnel unchecked
      → lookup id w.jobs.jobs ≡ some job
      → is_frozen job.status ≡ false
      → job.job_id ≡ id
      → ((worker_step env w).phase ≡ after_capture id vm tunnel)
        × (lookup id (worker_step env w).jobs.jobs ≡ some (charged env job w))
  unfolding worker_step capture_payment
  capture_step env w job at known warm same = ground (
    arith,
    lookup-put_job id id (λ j. record j { payment_result = (charged env job w).payment_result })
        w.jobs,
    eq_refl id,
  )

  pub last_step :
      (env : Env W) (w : World W) (job : Job W)
      → w.phase ≡ after_capture id vm tunnel
      → lookup id w.jobs.jobs ≡ some job
      → worker_step env w ≡ complete_job env job vm tunnel w
  unfolding worker_step
  last_step env w job at known = ground arith

  last_step-IsOver :
      (env : Env W) (w : World W) (job : Job W)
      → vm.destroyed ≡ false
      → w.phase ≡ after_capture id vm tunnel
      → lookup id w.jobs.jobs ≡ some job
      → job.job_id ≡ id
      → IsOver id vm tunnel (worker_step env w)
  last_step-IsOver env w job live at known same =
      let found : is_found (lookup job.job_id w.jobs.jobs) ≡ true = rw (same, known) refl in
      subst (λ k. IsOver k vm tunnel (worker_step env w)) same
        (subst (IsOver job.job_id vm tunnel) (sym (last_step env w job at known))
          (complete_job-IsOver vm tunnel live env job w found))

  -- A prepared job that is not frozen, with a live VM, comes to its end in three steps of the
  -- worker, whatever the outside world answers at each, if no other task runs in between: it is
  -- completed or failed, the worker is free, its id is no longer registered, and its VM and its
  -- tunnel are gone.
  pub prepared_job-IsOver :
      (e1 e2 e3 : Env W) (w : World W) (job : Job W)
      → vm.destroyed ≡ false
      → w.phase ≡ before_execution id vm tunnel unchecked
      → lookup id w.jobs.jobs ≡ some job
      → job.job_id ≡ id
      → is_frozen job.status ≡ false
      → IsOver id vm tunnel (run ((e1, work) ∷ (e2, work) ∷ (e3, work) ∷ []) w)
  unfolding run step
  prepared_job-IsOver e1 e2 e3 w job live at known same warm =
      let w1 = worker_step e1 w in
      let w2 = worker_step e2 w1 in
      let (at1, known1) = execution_step e1 w job at known warm in
      let (at2, known2) = capture_step e2 w1 (executed e1 job) at1 known1 warm same in
      last_step-IsOver e3 w2 (charged e2 (executed e1 job) w1) live at2 known2 same
