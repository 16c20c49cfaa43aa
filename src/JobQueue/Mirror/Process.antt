-- ===== src/JobQueue/Mirror/Process.antt =====
-- The parts of `_process_job` (src/job_queue.py), and the statuses of the rows and of the job objects.

use swift_route.Prelude.{String, ◌≡◌, refl, sym, subst, Option, none, some, arith}
use swift_route.Float.{Float}
use swift_route.Persistence.{Db, with_result, update_job_result, store_receipt}
use swift_route.Payments.{StripeApi}
use swift_route.Payments.Processor.{PaymentProcessor, mock, stripe, capture, refund}
use swift_route.Config.{Settings}
use swift_route.Tunnel.{TunnelConfig, WireGuardTunnelManager, create_tunnel, write_config}
use swift_route.Vm.{MicroVm, MicroVmManager, Created, created, vm_error, create_vm}
use swift_route.Host.{Files}
use swift_route.Json.{JsonObject, dumps_or_none}
use swift_route.Receipts.{receipt_object}
use swift_route.Pricing.{StateVector}
use swift_route.Router.{
  Zone, Routed, routed, failed as route_failed, find_optimal_zone, default_workload,
}
use swift_route.JobQueue.Jobs.{Job, running, completed, failed}
use swift_route.Receipts.{Keypair}
use swift_route.JobQueue.World.{World, Env}
use swift_route.JobQueue.Worker.{
  set_status, fail_job, capture_payment, start_job, prepare_job, complete_job, with_created,
  with_written, with_managers, with_stored, with_route, with_keys, payment_object, set_job,
  mint_receipt,
}
use swift_route.JobQueue.Mirror.Rules.{IsMirrored, change_job, change_row}
use swift_route.JobQueue.Mirror.Changes.{
  Mirrored, set_status-Mirrored, finish-Mirrored, store_receipt-jobs,
}

module _ {W : Type 0} ⦃f : Float W⦄ where
  pub capture-jobs :
      (api : StripeApi) (settings : Settings W) (now id : String) (amount : W)
      (p : PaymentProcessor W) (db : Db W)
      → (capture api settings now id amount p db).1.jobs ≡ db.jobs
  unfolding capture
  capture-jobs api settings now id amount (mock p) db = ground arith
  capture-jobs api settings now id amount (stripe p) db = ground arith

  refund-jobs :
      (api : StripeApi) (settings : Settings W) (now id : String) (amount : W)
      (p : PaymentProcessor W) (db : Db W)
      → (refund api settings now id amount p db).1.jobs ≡ db.jobs
  unfolding refund
  refund-jobs api settings now id amount (mock p) db = ground arith
  refund-jobs api settings now id amount (stripe p) db = ground arith

  fail_job-Mirrored :
      (env : Env W) (job : Job W) (vm : Option MicroVm) (tunnel : Option TunnelConfig) (w : World W)
      → Mirrored w
      → Mirrored (fail_job env job vm tunnel w)
  unfolding fail_job
  fail_job-Mirrored env job vm tunnel w m =
      let (payment', db', _) =
        refund env.api env.settings env.now job.payment_id job.total_charge w.payment w.db in
      let refunded_world = record w { payment = payment'; db = db' } in
      finish-Mirrored job.job_id vm tunnel (set_status env.now job.job_id failed refunded_world) (
        set_status-Mirrored env.now job.job_id failed refunded_world (
          subst (λ rows. IsMirrored w.jobs.jobs rows)
            (sym (
              refund-jobs env.api env.settings env.now job.payment_id job.total_charge w.payment
                w.db))
            m))

  with_created-Mirrored :
      (env : Env W) (job : Job W) (tunnel : TunnelConfig) (w : World W)
      (r : MicroVmManager × Files × Created)
      → Mirrored w
      → Mirrored (with_created env job tunnel w r)
  with_created-Mirrored env job tunnel w (vms', files', created vm) m = m
  with_created-Mirrored env job tunnel w (vms', files', vm_error e) m =
      fail_job-Mirrored env job none (some tunnel) (record w { vms = some vms'; files = files' }) m

  with_written-Mirrored :
      (env : Env W) (job : Job W) (vms : MicroVmManager) (tunnel : TunnelConfig) (w : World W)
      (r : Option (Files × TunnelConfig))
      → Mirrored w
      → Mirrored (with_written env job vms tunnel w r)
  with_written-Mirrored env job vms tunnel w none m =
      fail_job-Mirrored env job none (some tunnel) w m
  with_written-Mirrored env job vms tunnel w (some (files', tunnel')) m =
      with_created-Mirrored env job tunnel' w
        (create_vm env.host env.dumps_config env.vm_id job.script_b64 vms files') m

  prepare_job-Mirrored :
      (env : Env W) (job : Job W) (vms : MicroVmManager) (tunnels : WireGuardTunnelManager)
      (w : World W)
      → Mirrored w
      → Mirrored (prepare_job env job vms tunnels w)
  unfolding prepare_job
  prepare_job-Mirrored env job vms tunnels w m =
      let (tunnels', tunnel) = create_tunnel env.fresh_tunnel none tunnels in
      with_written-Mirrored env job vms tunnel (record w { tunnels = some tunnels' })
        (write_config env.host tunnel none tunnels' w.files) m

  with_managers-Mirrored :
      (env : Env W) (job : Job W) (w : World W) (vms : Option MicroVmManager)
      (tunnels : Option WireGuardTunnelManager)
      → Mirrored w
      → Mirrored (with_managers env job w vms tunnels)
  with_managers-Mirrored env job w (some vms) (some tunnels) m =
      prepare_job-Mirrored env job vms tunnels w m
  with_managers-Mirrored env job w _ _ m = set_status-Mirrored env.now job.job_id failed w m

  pub start_job-Mirrored :
      (env : Env W) (job : Job W) (w : World W) → Mirrored w → Mirrored (start_job env job w)
  unfolding start_job
  start_job-Mirrored env job w m =
      let w' = set_status env.now job.job_id running w in
      with_managers-Mirrored env job w' w.vms w.tunnels
        (set_status-Mirrored env.now job.job_id running w m)

  pub capture_payment-Mirrored :
      (env : Env W) (job : Job W) (vm : MicroVm) (tunnel : TunnelConfig) (w : World W)
      → Mirrored w
      → Mirrored (capture_payment env job vm tunnel w)
  unfolding capture_payment
  capture_payment-Mirrored env job vm tunnel w m =
      let (_, db', result) =
        capture env.api env.settings env.now job.payment_id job.total_charge w.payment w.db in
      change_job job.job_id (λ j. record j { payment_result = payment_object result }) w.jobs
        db'.jobs (λ j. refl)
        (subst (λ rows. IsMirrored w.jobs.jobs rows)
          (sym (
            capture-jobs env.api env.settings env.now job.payment_id job.total_charge w.payment
              w.db))
          m)

  with_stored-Mirrored :
      (env : Env W) (job : Job W) (vm : MicroVm) (tunnel : TunnelConfig) (receipt : JsonObject W)
      (w : World W) (r : Option (Db W))
      → ((db' : Db W) → r ≡ some db' → db'.jobs ≡ w.db.jobs)
      → Mirrored w
      → Mirrored (with_stored env job vm tunnel receipt w r)
  unfolding update_job_result
  with_stored-Mirrored env job vm tunnel receipt w none same m =
      fail_job-Mirrored env job (some vm) (some tunnel) w m
  with_stored-Mirrored env job vm tunnel receipt w (some db') same m =
      let db'' =
        update_job_result env.dumps job.job_id job.vm_logs receipt job.payment_result db' in
      let w' = record w { db = db'' } in
      finish-Mirrored job.job_id (some vm) (some tunnel)
        (set_status env.now job.job_id completed w')
        (set_status-Mirrored env.now job.job_id completed w' (
          change_row job.job_id
            (with_result (dumps_or_none env.dumps job.vm_logs) (dumps_or_none env.dumps receipt)
              (dumps_or_none env.dumps job.payment_result))
            w.jobs.jobs db'.jobs (λ row. refl)
            (subst (λ rows. IsMirrored w.jobs.jobs rows) (sym (same db' refl)) m)))

  with_keys-Mirrored :
      (env : Env W) (job : Job W) (vm : MicroVm) (tunnel : TunnelConfig) (remote : StateVector W)
      (w : World W) (keys : Option Keypair)
      → Mirrored w
      → Mirrored (with_keys env job vm tunnel remote w keys)
  with_keys-Mirrored env job vm tunnel remote w none m =
      fail_job-Mirrored env job (some vm) (some tunnel) w m
  with_keys-Mirrored env job vm tunnel remote w (some keys) m =
      let receipt = receipt_object (mint_receipt keys env job remote) in
      let json = env.dumps_indented receipt in
      let change = λ (j : Job W). record j { receipt = receipt } in
      with_stored-Mirrored env job vm tunnel receipt (set_job job.job_id change w)
        (store_receipt env.receipt_id job.job_id json env.now w.db)
        (store_receipt-jobs env.receipt_id job.job_id json env.now w.db)
        (change_job job.job_id change w.jobs w.db.jobs (λ j. refl) m)

  with_route-Mirrored :
      (env : Env W) (job : Job W) (vm : MicroVm) (tunnel : TunnelConfig) (w : World W)
      (r : Routed (Zone W × StateVector W))
      → Mirrored w
      → Mirrored (with_route env job vm tunnel w r)
  with_route-Mirrored env job vm tunnel w (route_failed e) m =
      fail_job-Mirrored env job (some vm) (some tunnel) w m
  with_route-Mirrored env job vm tunnel w (routed (zone, remote_state)) m =
      with_keys-Mirrored env job vm tunnel remote_state w env.keys m

  pub complete_job-Mirrored :
      (env : Env W) (job : Job W) (vm : MicroVm) (tunnel : TunnelConfig) (w : World W)
      → Mirrored w
      → Mirrored (complete_job env job vm tunnel w)
  unfolding complete_job
  complete_job-Mirrored env job vm tunnel w m =
      with_route-Mirrored env job vm tunnel w
        (find_optimal_zone env.settings env.http default_workload none) m
