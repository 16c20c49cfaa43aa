-- ===== src/JobQueue/Unpaid.antt =====
-- The end of a job whose capture failed (src/job_queue.py, `_process_job`).
use text.Mathlib.TextPositions.{eq_refl}
use swift_route.Prelude.{
  String, true, false, ◌≡◌, refl, ap, ◌∙◌, none, some, [], ◌∷◌, arith, Option-cases, inl, inr,
}
use swift_route.Prelude.Dict.{lookup, adjust, lookup-adjust}
use swift_route.Float.{Float}
use swift_route.Json.{JsonObject, dumps_or_none}
use swift_route.Payments.Processor.{capture}
use swift_route.Pricing.{StateVector}
use swift_route.Router.{Zone, routed, find_optimal_zone, default_workload}
use swift_route.Tunnel.{TunnelConfig}
use swift_route.Vm.{MicroVm}
use swift_route.JobQueue.Jobs.{Job, completed, is_frozen}
use swift_route.JobQueue.Lookup.{lookup-put_job}
use swift_route.Persistence.{
  Db, JobRow, store_receipt, with_status, with_result, update_job_status, update_job_result,
}
use swift_route.Receipts.{Keypair, receipt_object}
use swift_route.JobQueue.Mirror.Changes.{store_receipt-jobs}
use swift_route.JobQueue.Mirror.Process.{capture-jobs}
use swift_route.JobQueue.World.{World, Env, after_execution, unchecked}
use swift_route.JobQueue.Worker.{
  payment_object, capture_payment, set_job, mint_receipt, finish, set_status, with_stored,
  complete_job,
}
use swift_route.JobQueue.Steps.{worker_step, step, run, work}
use swift_route.JobQueue.Cleanup.{is_found}
use swift_route.JobQueue.Ending.{charged, capture_step, last_step}

-- The row of the job, with the results and the status.
abbrev pub completed_row : {W : Type 0} → Env W → Job W → JsonObject W → JobRow → JobRow
completed_row env job receipt row = with_status "completed" env.now (
    with_result (dumps_or_none env.dumps job.vm_logs) (dumps_or_none env.dumps receipt)
      (dumps_or_none env.dumps job.payment_result) row)

module _ {W : Type 0} ⦃f : Float W⦄ (vm : MicroVm) (tunnel : TunnelConfig) where
  -- The job and its row as they stand at the end.
  with_stored-completed :
      (env : Env W) (job found : Job W) (row : JobRow) (receipt : JsonObject W) (w : World W)
      (db' : Db W)
      → lookup job.job_id w.jobs.jobs ≡ some found
      → lookup job.job_id db'.jobs ≡ some row
      → let w' = with_stored env job vm tunnel receipt w (some db') in
        (lookup job.job_id w'.jobs.jobs ≡ some (record found { status = completed }))
        × (lookup job.job_id w'.db.jobs ≡ some (completed_row env job receipt row))
  unfolding set_status finish update_job_status update_job_result
  with_stored-completed env job found row receipt w db' known rowed =
      let result =
        with_result (dumps_or_none env.dumps job.vm_logs) (dumps_or_none env.dumps receipt)
          (dumps_or_none env.dumps job.payment_result) in
      (
        ground (
          arith,
          lookup-put_job job.job_id job.job_id (λ j. record j { status = completed }) w.jobs,
          eq_refl job.job_id,
          known,
        ),
        ground (
          arith,
          lookup-adjust job.job_id job.job_id (with_status "completed" env.now)
              (adjust job.job_id result db'.jobs),
          lookup-adjust job.job_id job.job_id result db'.jobs,
          eq_refl job.job_id,
          rowed,
        ),
      )

  complete_job-completed :
      (env : Env W) (job found : Job W) (row : JobRow) (w : World W) (zone : Zone W)
      (state : StateVector W) (keys : Keypair)
      → lookup job.job_id w.jobs.jobs ≡ some found
      → lookup job.job_id w.db.jobs ≡ some row
      → find_optimal_zone env.settings env.http default_workload none ≡ routed (zone, state)
      → env.keys ≡ some keys
      → ((t : String) → is_found (store_receipt env.receipt_id job.job_id t env.now w.db) ≡ true)
      → let receipt = receipt_object (mint_receipt keys env job state) in
        let w' = complete_job env job vm tunnel w in
        (lookup job.job_id w'.jobs.jobs
          ≡ some (record found { receipt = receipt; status = completed }))
        × (lookup job.job_id w'.db.jobs ≡ some (completed_row env job receipt row))
  unfolding complete_job
  complete_job-completed env job found row w zone state keys known rowed route signs free =
      let receipt = receipt_object (mint_receipt keys env job state) in
      let change = λ (j : Job W). record j { receipt = receipt } in
      let json = env.dumps_indented receipt in
      elim (Option-cases (store_receipt env.receipt_id job.job_id json env.now w.db)) [
        | inl e ↦ absurd (ground (arith, e, free json))
        | inr (db', e) ↦
            rw (route, signs, e)
              (with_stored-completed env job (change found) row receipt
                (set_job job.job_id change w) db'
                (ground (
                  arith,
                  lookup-put_job job.job_id job.job_id change w.jobs,
                  eq_refl job.job_id,
                  known,
                ))
                (ap (lookup job.job_id)
                    (store_receipt-jobs env.receipt_id job.job_id json env.now w.db db' e)
                  ∙ rowed))
      ]

  capture_step-row :
      (env : Env W) (w : World W) (job : Job W)
      → w.phase ≡ after_execution job.job_id vm tunnel unchecked
      → lookup job.job_id w.jobs.jobs ≡ some job
      → is_frozen job.status ≡ false
      → (worker_step env w).db.jobs ≡ w.db.jobs
  unfolding worker_step capture_payment
  capture_step-row env w job at known warm = ground (
    arith,
    capture-jobs env.api env.settings env.now job.payment_id job.total_charge w.payment w.db,
  )

  -- After its execution, a job that is not frozen is completed in two steps of the worker and gets its
  -- receipt, whatever `capture` answers, "failed" as well, if no other task runs in between, the router
  -- finds a zone, the keys are there and the receipt can be stored. The answer of `capture` goes into
  -- the job and into its row, which is "completed" too, and nothing looks at it.
  pub completed_whatever_captured :
      (e1 e2 : Env W) (w : World W) (job : Job W) (row : JobRow) (zone : Zone W)
      (state : StateVector W) (keys : Keypair)
      → w.phase ≡ after_execution job.job_id vm tunnel unchecked
      → lookup job.job_id w.jobs.jobs ≡ some job
      → lookup job.job_id w.db.jobs ≡ some row
      → is_frozen job.status ≡ false
      → find_optimal_zone e2.settings e2.http default_workload none ≡ routed (zone, state)
      → e2.keys ≡ some keys
      → ((t : String)
          → is_found (store_receipt e2.receipt_id job.job_id t e2.now (worker_step e1 w).db) ≡ true)
      → let (_, _, result) =
          capture e1.api e1.settings e1.now job.payment_id job.total_charge w.payment w.db in
        let w' = run ((e1, work) ∷ (e2, work) ∷ []) w in
        let job' = record job {
          payment_result = payment_object result;
          receipt = receipt_object (mint_receipt keys e2 job state);
          status = completed;
        } in
        (lookup job.job_id w'.jobs.jobs ≡ some job')
        × (lookup job.job_id w'.db.jobs ≡ some (completed_row e2 job' job'.receipt row))
  unfolding run step
  completed_whatever_captured e1 e2 w job row zone state keys at known rowed warm route signs free =
      let w1 = worker_step e1 w in
      let job1 = charged job.job_id vm tunnel e1 job w in
      let (at1, known1) = capture_step job.job_id vm tunnel e1 w job at known warm refl in
      let rowed1 = ap (lookup job.job_id) (capture_step-row e1 w job at known warm) ∙ rowed in
      rw (last_step job.job_id vm tunnel e2 w1 job1 at1 known1)
        (complete_job-completed e2 job1 job1 row w1 zone state keys known1 rowed1 route signs free)
