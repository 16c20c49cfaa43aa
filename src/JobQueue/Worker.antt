-- ===== src/JobQueue/Worker.antt =====
-- The worker of src/job_queue.py, in steps from one place where other tasks can run to the next.
use swift_route.Prelude.{String, Option, none, some, [], ◌∷◌}
use swift_route.Float.{Float}
use swift_route.Json.{JsonObject, text, number}
use swift_route.Persistence.{Db, update_job_status, update_job_result, store_receipt}
use swift_route.Payments.{PaymentResult, PaymentStatus, authorized, captured, failed, refunded}
use swift_route.Payments.Processor.{capture, refund}
use swift_route.Pricing.{StateVector, calculate_pricing}
use swift_route.Router.{
  Zone, Routed, routed, failed as route_failed, find_optimal_zone, default_workload,
}
use swift_route.Tunnel.{
  TunnelConfig, WireGuardTunnelManager, create_tunnel, write_config, tear_down,
}
use swift_route.Vm.{
  MicroVm, MicroVmManager, Created, created, vm_error, VmLogs, create_vm, execute, destroy,
}
use swift_route.Host.{Files}
use swift_route.Receipts.{GhgReceipt, Keypair, generate, receipt_object}
use swift_route.JobQueue.Jobs
use swift_route.JobQueue.Jobs.{Job, JobStatus, JobQueue, status_text, put_job, is_frozen, job_is}
use swift_route.JobQueue.World.{
  World, Env, idle, before_execution, after_execution, after_capture, unchecked, register,
  unregister,
}

abbrev pub payment_text : PaymentStatus → String
payment_text authorized = "authorized"
payment_text captured = "captured"
payment_text failed = "failed"
payment_text refunded = "refunded"

module _ {W : Type 0} where
  abbrev pub payment_object : PaymentResult W → JsonObject W
  payment_object r =
      ("payment_id", text r.payment_id)
      ∷ ("status", text (payment_text r.status))
      ∷ ("amount_usd", number r.amount_usd)
      ∷ ("fee_usd", number r.fee_usd)
      ∷ ("net_usd", number r.net_usd)
      ∷ []

  abbrev pub logs_object : VmLogs → JsonObject W
  logs_object logs =
      ("vm_id", text logs.vm_id)
      ∷ ("status", text logs.status)
      ∷ ("stdout", text logs.stdout)
      ∷ ("signature", text logs.signature)
      ∷ []

  -- job.… = …, on the object with this id.
  abbrev pub set_job : String → (Job W → Job W) → World W → World W
  set_job id change w = record w { jobs = put_job id change w.jobs }

  -- job.status = …, and the same in the database.
  unfoldable pub set_status : String → String → JobStatus → World W → World W
  unfolding update_job_status
  set_status now id status w = record w {
    jobs = put_job id (λ job. record job { status = status }) w.jobs;
    db = update_job_status id (status_text status) now w.db;
  }

  abbrev pub destroy_vm : Option MicroVm → World W → World W
  destroy_vm none w = w
  destroy_vm (some vm) w = elim w.vms [
    | none ↦ w
    | some m ↦
        let (_, m', files') = destroy vm m w.files in record w { vms = some m'; files = files' }
  ]

  abbrev pub tear_down_tunnel : Option TunnelConfig → World W → World W
  tear_down_tunnel none w = w
  tear_down_tunnel (some cfg) w = elim w.tunnels [
    | none ↦ w
    | some m ↦
        let (m', files') = tear_down cfg m w.files in record w { tunnels = some m'; files = files' }
  ]

  -- The `finally` block: what of `vm` and `tunnel` was assigned is taken down.
  unfoldable pub finish : String → Option MicroVm → Option TunnelConfig → World W → World W
  unfolding destroy tear_down unregister
  finish id vm tunnel w =
      let w' = tear_down_tunnel tunnel (destroy_vm vm w) in
      record w' { registry = unregister id w'.registry; phase = idle }

  -- vm_mgr.execute, and job.vm_logs
  unfoldable pub run_vm : Env W → String → MicroVm → TunnelConfig → World W → World W
  unfolding execute
  run_vm env id vm tunnel w =
      record (set_job id (λ job. record job { vm_logs = logs_object (execute env.sha256 vm) }) w) {
        phase = after_execution id vm tunnel unchecked;
      }

module _ {W : Type 0} ⦃f : Float W⦄ where
  -- The `except` block and then the `finally` block.
  unfoldable pub fail_job : Env W → Job W → Option MicroVm → Option TunnelConfig → World W → World W
  unfolding refund set_status finish
  fail_job env job vm tunnel w =
      let (payment', db', _) =
        refund env.api env.settings env.now job.payment_id job.total_charge w.payment w.db in
      finish job.job_id vm tunnel
        (set_status env.now job.job_id Jobs.failed (record w { payment = payment'; db = db' }))

  abbrev pub with_created :
      Env W → Job W → TunnelConfig → World W → MicroVmManager × Files × Created → World W
  with_created env job tunnel w (vms', files', created vm) = record w {
    vms = some vms';
    files = files';
    registry = register job.job_id w.registry;
    phase = before_execution job.job_id vm tunnel unchecked;
  }
  with_created env job tunnel w (vms', files', vm_error e) =
      fail_job env job none (some tunnel) (record w { vms = some vms'; files = files' })

  abbrev pub with_written :
      Env W
      → Job W
      → MicroVmManager
      → TunnelConfig
      → World W
      → Option (Files × TunnelConfig)
      → World W
  with_written env job vms tunnel w none = fail_job env job none (some tunnel) w
  with_written env job vms tunnel w (some (files', tunnel')) =
      with_created env job tunnel' w
        (create_vm env.host env.dumps_config env.vm_id job.script_b64 vms files')

  -- The `try` block up to the first wait, with both managers ready.
  unfoldable pub prepare_job :
      Env W → Job W → MicroVmManager → WireGuardTunnelManager → World W → World W
  unfolding create_tunnel write_config create_vm fail_job register
  prepare_job env job vms tunnels w =
      let (tunnels', tunnel) = create_tunnel env.fresh_tunnel none tunnels in
      with_written env job vms tunnel (record w { tunnels = some tunnels' })
        (write_config env.host tunnel none tunnels' w.files)

  abbrev pub with_managers :
      Env W → Job W → World W → Option MicroVmManager → Option WireGuardTunnelManager → World W
  with_managers env job w (some vms) (some tunnels) = prepare_job env job vms tunnels w
  with_managers env job w _ _ = record (set_status env.now job.job_id Jobs.failed w) {
    phase = idle;
  }

  -- _process_job, up to its first wait.
  unfoldable pub start_job : Env W → Job W → World W → World W
  unfolding set_status prepare_job
  start_job env job w =
      let w' = set_status env.now job.job_id Jobs.running w in
      with_managers env job w' w.vms w.tunnels

  -- payment_proc.capture, and job.payment_result
  unfoldable pub capture_payment : Env W → Job W → MicroVm → TunnelConfig → World W → World W
  unfolding capture
  capture_payment env job vm tunnel w =
      let (payment', db', result) =
        capture env.api env.settings env.now job.payment_id job.total_charge w.payment w.db in
      record (set_job job.job_id (λ j. record j { payment_result = payment_object result }) w) {
        payment = payment';
        db = db';
        phase = after_capture job.job_id vm tunnel;
      }

  -- The receipt under the given keys.
  abbrev pub mint_receipt : Keypair → Env W → Job W → StateVector W → GhgReceipt W
  mint_receipt keys env job remote_state =
      let pricing = calculate_pricing env.settings remote_state in
      generate keys env.dumps env.receipt_id env.now job.job_id pricing.delta_net.carbon_g
        remote_state.carbon_g pricing.v_local.carbon_g pricing.delta_net.tax_value_usd job.zone_name
        job.zone_id

  abbrev pub with_stored :
      Env W → Job W → MicroVm → TunnelConfig → JsonObject W → World W → Option (Db W) → World W
  with_stored env job vm tunnel receipt w none = fail_job env job (some vm) (some tunnel) w
  with_stored env job vm tunnel receipt w (some db') = finish job.job_id (some vm) (some tunnel) (
      set_status env.now job.job_id Jobs.completed (record w {
        db = update_job_result env.dumps job.job_id job.vm_logs receipt job.payment_result db';
      }))

  -- `generate` gets the keys first, which may raise.
  abbrev pub with_keys :
      Env W → Job W → MicroVm → TunnelConfig → StateVector W → World W → Option Keypair → World W
  with_keys env job vm tunnel remote_state w none = fail_job env job (some vm) (some tunnel) w
  with_keys env job vm tunnel remote_state w (some keys) =
      let receipt = receipt_object (mint_receipt keys env job remote_state) in
      with_stored env job vm tunnel receipt
        (set_job job.job_id (λ j. record j { receipt = receipt }) w)
        (store_receipt env.receipt_id job.job_id (env.dumps_indented receipt) env.now w.db)

  abbrev pub with_route :
      Env W → Job W → MicroVm → TunnelConfig → World W → Routed (Zone W × StateVector W) → World W
  with_route env job vm tunnel w (route_failed e) = fail_job env job (some vm) (some tunnel) w
  with_route env job vm tunnel w (routed (zone, remote_state)) =
      with_keys env job vm tunnel remote_state w env.keys

  -- From the receipt to the end.
  unfoldable pub complete_job : Env W → Job W → MicroVm → TunnelConfig → World W → World W
  unfolding find_optimal_zone calculate_pricing generate store_receipt update_job_result fail_job
      set_status finish
  complete_job env job vm tunnel w =
      with_route env job vm tunnel w (find_optimal_zone env.settings env.http default_workload none)
