-- ===== src/JobQueue/Mirror/Changes.antt =====
-- The changes of one job (src/job_queue.py), and the statuses of its row and its object.

use swift_route.Prelude.{String, ◌≡◌, refl, Option, none, some, arith, str_eq, Bool-cases, inl, inr}
use swift_route.Prelude.Dict.{lookup, insert, lookup-insert}
use swift_route.Persistence.{Db, new_row, with_status, create_job, store_receipt}
use swift_route.Tunnel.{TunnelConfig}
use swift_route.Vm.{MicroVm, execute}
use swift_route.JobQueue.Jobs.{
  Job, JobStatus, status_text, job_is, is_running, is_frozen, queued, freeze, resume,
}
use swift_route.JobQueue.World.{World, Env}
use swift_route.JobQueue.Worker.{set_status, finish, run_vm, logs_object}
use swift_route.JobQueue.Steps.{freeze_in, resume_in, submit_in}
use swift_route.JobQueue.Mirror.Rules.{IsMirrored, change_both, change_job}

module _ {W : Type 0} where
  abbrev pub Mirrored : World W → Type 0
  Mirrored w = IsMirrored w.jobs.jobs w.db.jobs

  pub set_status-Mirrored :
      (now id : String) (status : JobStatus) (w : World W)
      → Mirrored w
      → Mirrored (set_status now id status w)
  unfolding set_status
  set_status-Mirrored now id status w m =
      change_both id (λ job. record job { status = status }) (with_status (status_text status) now)
        w.jobs w.db.jobs (λ job row _ _. ground arith) m

  finish-keeps :
      (id : String) (vm : Option MicroVm) (tunnel : Option TunnelConfig) (w : World W)
      → let w' = finish id vm tunnel w in (w'.jobs ≡ w.jobs) × (w'.db ≡ w.db)
  unfolding finish
  finish-keeps id vm tunnel w = ground arith

  pub finish-Mirrored :
      (id : String) (vm : Option MicroVm) (tunnel : Option TunnelConfig) (w : World W)
      → Mirrored w
      → Mirrored (finish id vm tunnel w)
  finish-Mirrored id vm tunnel w m =
      let (same_jobs, same_db) = finish-keeps id vm tunnel w in rw (same_jobs, same_db) m

  pub freeze-Mirrored :
      (env : Env W) (id : String) (w : World W) → Mirrored w → Mirrored (freeze_in env id w)
  unfolding freeze_in
  freeze-Mirrored env id w m = elim (Bool-cases (job_is is_running (lookup id w.jobs.jobs))) [
    | inl e ↦ rw e (
        change_both id freeze (with_status "frozen" env.now) w.jobs w.db.jobs
          (λ job row found _. ground arith) m)
    | inr e ↦ rw e m
  ]

  pub resume-Mirrored :
      (env : Env W) (id : String) (w : World W) → Mirrored w → Mirrored (resume_in env id w)
  unfolding resume_in
  resume-Mirrored env id w m = elim (Bool-cases (job_is is_frozen (lookup id w.jobs.jobs))) [
    | inl e ↦ rw e (
        change_both id resume (with_status "running" env.now) w.jobs w.db.jobs
          (λ job row found _. ground arith) m)
    | inr e ↦ rw e m
  ]

  pub run_vm-Mirrored :
      (env : Env W) (id : String) (vm : MicroVm) (tunnel : TunnelConfig) (w : World W)
      → Mirrored w
      → Mirrored (run_vm env id vm tunnel w)
  unfolding run_vm
  run_vm-Mirrored env id vm tunnel w m =
      change_job id (λ job. record job { vm_logs = logs_object (execute env.sha256 vm) }) w.jobs
        w.db.jobs (λ job. refl) m

  create_job_fresh :
      (job : Job W) (now : String) (db : Db W)
      → lookup job.job_id db.jobs ≡ none
      → create_job job.job_id job.script_b64 job.zone_id job.zone_name now db
        ≡ some (record db {
          jobs = insert job.job_id (new_row job.script_b64 job.zone_id job.zone_name now) db.jobs;
        })
  unfolding create_job
  create_job_fresh job now db fresh = ground arith

  pub store_receipt-jobs :
      (receipt_id job_id json now : String) (db db' : Db W)
      → store_receipt receipt_id job_id json now db ≡ some db'
      → db'.jobs ≡ db.jobs
  unfolding store_receipt
  store_receipt-jobs receipt_id job_id json now db db' e = ground arith

  -- A submission of a fresh id.
  pub submit-Mirrored :
      (env : Env W) (job : Job W) (w : World W)
      → job.status ≡ queued
      → lookup job.job_id w.db.jobs ≡ none
      → Mirrored w
      → Mirrored (submit_in env job w)
  unfolding submit_in
  submit-Mirrored env job w new fresh m = record {
    at = λ j.
        rw (create_job_fresh job env.now w.db fresh, lookup-insert, lookup-insert)
          (elim (Bool-cases (str_eq job.job_id j)) [
            | inl e ↦ rw (e, new) refl
            | inr e ↦ rw e (m.at j)
          ]);
  }
