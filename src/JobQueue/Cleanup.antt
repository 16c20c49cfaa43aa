-- ===== src/JobQueue/Cleanup.antt =====
-- What the end of a job leaves behind (src/job_queue.py, the `except` and `finally` of `_process_job`).

use text.Mathlib.TextPositions.{eq_refl}
use swift_route.Prelude.{
  String, Bool, true, false, ◌≡◌, refl, Option, none, some, List, [], ◌∷◌, arith, Option-cases, inl,
  inr,
}
use swift_route.Prelude.Dict.{lookup, lookup-erase_self}
use swift_route.Float.{Float}
use swift_route.Json.{JsonObject}
use swift_route.Persistence.{Db, store_receipt, update_job_result}
use swift_route.Payments.Processor.{refund}
use swift_route.Pricing.{StateVector}
use swift_route.Receipts.{Keypair, receipt_object}
use swift_route.Router.{
  Zone, Routed, routed, failed as route_failed, find_optimal_zone, default_workload,
}
use swift_route.Tunnel.{TunnelConfig, tear_down}
use swift_route.Vm.{MicroVm, destroy}
use swift_route.Vm.Destroy.{lookup-destroy}
use swift_route.JobQueue.Jobs.{Job, JobStatus, completed, failed, job_is}
use swift_route.JobQueue.Lookup.{lookup-put_job}
use swift_route.JobQueue.World.{World, Env, idle, registered, unregister}
use swift_route.JobQueue.Worker.{
  destroy_vm, tear_down_tunnel, set_status, set_job, finish, fail_job, with_stored, with_route,
  with_keys, complete_job, mint_receipt,
}

abbrev pub is_over : JobStatus → Bool
is_over completed = true
is_over failed = true
is_over _ = false

abbrev pub is_found {ℓ} : {A : Type ℓ} → Option A → Bool
is_found none = false
is_found (some a) = true

-- What the managers keep under an id.
abbrev pub kept_vm : {W : Type 0} → String → World W → Option MicroVm
kept_vm id w = elim w.vms [ none ↦ none | some m ↦ lookup id m.vms ]

abbrev pub kept_tunnel : {W : Type 0} → String → World W → Option TunnelConfig
kept_tunnel id w = elim w.tunnels [ none ↦ none | some m ↦ lookup id m.tunnels ]

-- The worker is free again, the job is completed or failed, its id is no longer registered, and its VM
-- and its tunnel are gone.
pub record IsOver {W : Type 0} (id : String) (vm : MicroVm) (tunnel : TunnelConfig) (w : World W)
    : Type 0 where
  pub free : w.phase ≡ idle
  pub over : job_is is_over (lookup id w.jobs.jobs) ≡ true
  pub unregistered : registered id w.registry ≡ false
  pub no_vm : kept_vm vm.vm_id w ≡ none
  pub no_tunnel : kept_tunnel tunnel.tunnel_id w ≡ none

registered-unregister :
    (id : String) (ids : List String) → registered id (unregister id ids) ≡ false
unfolding registered unregister
registered-unregister id [] = refl
registered-unregister id (x ∷ xs) = ground (arith, registered-unregister id xs)

module _ {W : Type 0} (vm : MicroVm) (tunnel : TunnelConfig) (live : vm.destroyed ≡ false) where
  finish-no_vm :
      (id : String) (w : World W) → kept_vm vm.vm_id (finish id (some vm) (some tunnel) w) ≡ none
  unfolding finish destroy tear_down
  finish-no_vm id w = elim (Option-cases w.vms) [
    | inl e ↦ ground (arith, live)
    | inr (m, e) ↦ ground (arith, live, lookup-destroy vm.vm_id vm m w.files, eq_refl vm.vm_id)
  ]

  finish-no_tunnel :
      (id : String) (w : World W)
      → kept_tunnel tunnel.tunnel_id (finish id (some vm) (some tunnel) w) ≡ none
  unfolding finish destroy tear_down
  finish-no_tunnel id w = elim (Option-cases w.tunnels) [
    | inl e ↦ ground arith
    | inr (m, e) ↦ ground (arith, lookup-erase_self tunnel.tunnel_id m.tunnels)
  ]

  finish-unregistered :
      (id : String) (w : World W)
      → registered id (finish id (some vm) (some tunnel) w).registry ≡ false
  unfolding finish
  finish-unregistered id w =
      registered-unregister id (tear_down_tunnel (some tunnel) (destroy_vm (some vm) w)).registry

  pub finish-jobs :
      (id : String) (w : World W) → (finish id (some vm) (some tunnel) w).jobs ≡ w.jobs
  unfolding finish
  finish-jobs id w = ground arith

  finish-idle : (id : String) (w : World W) → (finish id (some vm) (some tunnel) w).phase ≡ idle
  unfolding finish
  finish-idle id w = refl

  finish-IsOver :
      (id : String) (w : World W)
      → job_is is_over (lookup id w.jobs.jobs) ≡ true
      → IsOver id vm tunnel (finish id (some vm) (some tunnel) w)
  finish-IsOver id w over = record {
    free = finish-idle id w;
    over = rw (finish-jobs id w) over;
    unregistered = finish-unregistered id w;
    no_vm = finish-no_vm id w;
    no_tunnel = finish-no_tunnel id w;
  }

  set_status-over :
      (now id : String) (status : JobStatus) (w : World W)
      → is_over status ≡ true
      → is_found (lookup id w.jobs.jobs) ≡ true
      → job_is is_over (lookup id (set_status now id status w).jobs.jobs) ≡ true
  unfolding set_status
  set_status-over now id status w over found =
      ground
        (arith, lookup-put_job id id (λ job. record job { status = status }) w.jobs, eq_refl id)

  module _ ⦃f : Float W⦄ (env : Env W) (job : Job W) where
    fail_job-IsOver :
        (w : World W)
        → is_found (lookup job.job_id w.jobs.jobs) ≡ true
        → IsOver job.job_id vm tunnel (fail_job env job (some vm) (some tunnel) w)
    unfolding fail_job
    fail_job-IsOver w found =
        let (payment', db', _) =
          refund env.api env.settings env.now job.payment_id job.total_charge w.payment w.db in
        let w' = record w { payment = payment'; db = db' } in
        finish-IsOver job.job_id (set_status env.now job.job_id failed w')
          (set_status-over env.now job.job_id failed w' refl found)

    with_stored-IsOver :
        (receipt : JsonObject W) (w : World W) (r : Option (Db W))
        → is_found (lookup job.job_id w.jobs.jobs) ≡ true
        → IsOver job.job_id vm tunnel (with_stored env job vm tunnel receipt w r)
    with_stored-IsOver receipt w none found = fail_job-IsOver w found
    with_stored-IsOver receipt w (some db') found =
        let w' = record w {
          db = update_job_result env.dumps job.job_id job.vm_logs receipt job.payment_result db';
        } in
        finish-IsOver job.job_id (set_status env.now job.job_id completed w')
          (set_status-over env.now job.job_id completed w' refl found)

    set_job-found :
        (id : String) (change : Job W → Job W) (w : World W)
        → is_found (lookup id w.jobs.jobs) ≡ true
        → is_found (lookup id (set_job id change w).jobs.jobs) ≡ true
    set_job-found id change w found = ground (arith, lookup-put_job id id change w.jobs, eq_refl id)

    with_keys-IsOver :
        (remote : StateVector W) (w : World W) (keys : Option Keypair)
        → is_found (lookup job.job_id w.jobs.jobs) ≡ true
        → IsOver job.job_id vm tunnel (with_keys env job vm tunnel remote w keys)
    with_keys-IsOver remote w none found = fail_job-IsOver w found
    with_keys-IsOver remote w (some keys) found =
        let receipt = receipt_object (mint_receipt keys env job remote) in
        let change = λ (j : Job W). record j { receipt = receipt } in
        with_stored-IsOver receipt (set_job job.job_id change w)
          (store_receipt env.receipt_id job.job_id (env.dumps_indented receipt) env.now w.db)
          (set_job-found job.job_id change w found)

    with_route-IsOver :
        (w : World W) (r : Routed (Zone W × StateVector W))
        → is_found (lookup job.job_id w.jobs.jobs) ≡ true
        → IsOver job.job_id vm tunnel (with_route env job vm tunnel w r)
    with_route-IsOver w (route_failed e) found = fail_job-IsOver w found
    with_route-IsOver w (routed (zone, remote)) found = with_keys-IsOver remote w env.keys found

    -- From a capture on, where the VM was not destroyed and the queue knows the job, the rest of the job
    -- comes to its end whatever the router, the keys, the database and the refund do: the worker is free, the job
    -- is completed or failed, its id is no longer registered, and its VM and its tunnel are gone.
    pub complete_job-IsOver :
        (w : World W)
        → is_found (lookup job.job_id w.jobs.jobs) ≡ true
        → IsOver job.job_id vm tunnel (complete_job env job vm tunnel w)
    unfolding complete_job
    complete_job-IsOver w found =
        with_route-IsOver w (find_optimal_zone env.settings env.http default_workload none) found
