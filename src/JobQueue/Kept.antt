-- ===== src/JobQueue/Kept.antt =====
-- What the managers keep while the worker of src/job_queue.py runs.
pub mod Managers
use swift_route.Prelude.{
  ℕ, String, Bool, true, false, not, ◌&&◌, ◌≡◌, refl, ◌∙◌, arith, subst, Option, none, some, List,
  [], ◌∷◌, Option-cases, inl, inr, All, if◌then◌else◌, Bool-cases, str_eq,
}
use swift_route.Prelude.Dict.{
  Dict, lookup, erase, insert, adjust, erase-adjust, lookup-erase, lookup-insert,
}
use swift_route.Float.{Float}
use swift_route.Host.{Host, Files}
use swift_route.Tunnel.{
  TunnelConfig, WireGuardTunnelManager, create_tunnel, write_config, tear_down,
}
use swift_route.Tunnel.Teardown.{IsKeyed, create_tunnel-IsKeyed}
use swift_route.Vm.{
  MicroVm, MicroVmManager, Created, created, vm_error, create_vm, destroy, started,
  start_firecracker, firecracker_bin, FirecrackerConfig, fresh_vm,
}
use swift_route.Vm.Destroy.{IsLive, lookup-destroy, create_vm-IsLive}
use swift_route.Pricing.{StateVector}
use swift_route.Router.{
  Zone, Routed, routed, failed as route_failed, find_optimal_zone, default_workload,
}
use swift_route.Json.{JsonObject}
use swift_route.Persistence.{Db}
use swift_route.Receipts.{Keypair}
use swift_route.JobQueue.Jobs.{Job, running, job_is, is_frozen, resume_job}
use swift_route.JobQueue.World.{
  World, Env, Phase, idle, before_execution, after_execution, after_capture, unchecked, parked,
  woken,
}
use swift_route.JobQueue.Worker.{
  finish, fail_job, destroy_vm, tear_down_tunnel, start_job, prepare_job, with_managers,
  with_written, with_created, set_status, complete_job, capture_payment, run_vm, with_route,
  with_stored, with_keys,
}
use swift_route.JobQueue.Steps.{
  step, run, Event, work, freeze_event, resume_event, submit, worker_step, step_at, step_idle,
  capture_found, complete_found, freeze_in, resume_in, submit_in, wake,
}
use swift_route.JobQueue.Kept.Managers.{
  VmsOf, TunnelsOf, vm_of, tunnel_of, created_vm, SameTunnel, destroy-VmsOf, tear_down-TunnelsOf,
  create_vm-VmsOf, create_tunnel-TunnelsOf, write_config-SameTunnel, same-TunnelsOf,
}

module _ {W : Type 0} where
  -- The managers keep nothing but the given VM and tunnel.
  abbrev HeldFor : Option MicroVm → Option TunnelConfig → World W → Type 0
  HeldFor vm tunnel w = VmsOf vm w.vms × TunnelsOf tunnel w.tunnels

  -- The managers keep no VM and no tunnel but those of the job where the worker stands, so nothing
  -- where it is idle; the VMs are live, and all are kept under their ids.
  abbrev pub IsKept : World W → Type 0
  IsKept w = HeldFor (vm_of w.phase) (tunnel_of w.phase) w

  destroy_vm-HeldFor :
      (vm : MicroVm) (tunnel : Option TunnelConfig) (w : World W)
      → HeldFor (some vm) tunnel w
      → HeldFor none tunnel (destroy_vm (some vm) w)
  destroy_vm-HeldFor vm tunnel w held = elim (Option-cases w.vms) [
    | inl e ↦ (rw e tt, rw e held.1)
    | inr (m, e) ↦
        (rw e (destroy-VmsOf vm m w.files (subst (VmsOf (some vm)) e held.0)), rw e held.1)
  ]

  tear_down_tunnel-HeldFor :
      (vm : Option MicroVm) (tunnel : TunnelConfig) (w : World W)
      → HeldFor vm (some tunnel) w
      → HeldFor vm none (tear_down_tunnel (some tunnel) w)
  tear_down_tunnel-HeldFor vm tunnel w held = elim (Option-cases w.tunnels) [
    | inl e ↦ (rw e held.0, rw e tt)
    | inr (m, e) ↦ (
      rw e held.0,
      rw e (tear_down-TunnelsOf tunnel m w.files (subst (TunnelsOf (some tunnel)) e held.1)),
    )
  ]

  -- The `finally` block leaves nothing.
  finish-IsKept :
      (id : String) (vm : Option MicroVm) (tunnel : Option TunnelConfig) (w : World W)
      → HeldFor vm tunnel w
      → IsKept (finish id vm tunnel w)
  unfolding finish
  finish-IsKept id none none w held = held
  finish-IsKept id (some vm) none w held = destroy_vm-HeldFor vm none w held
  finish-IsKept id none (some tunnel) w held = tear_down_tunnel-HeldFor none tunnel w held
  finish-IsKept id (some vm) (some tunnel) w held =
      tear_down_tunnel-HeldFor none tunnel (destroy_vm (some vm) w)
        (destroy_vm-HeldFor vm (some tunnel) w held)

module _ {W : Type 0} ⦃f : Float W⦄ where
  fail_job-IsKept :
      (env : Env W) (job : Job W) (vm : Option MicroVm) (tunnel : Option TunnelConfig) (w : World W)
      → HeldFor vm tunnel w
      → IsKept (fail_job env job vm tunnel w)
  unfolding fail_job set_status
  fail_job-IsKept env job vm tunnel w held = finish-IsKept job.job_id vm tunnel _ held

  with_created-IsKept :
      (env : Env W) (job : Job W) (tunnel : TunnelConfig) (w : World W) (m : MicroVmManager)
      (files : Files) (c : Created)
      → VmsOf (created_vm c) (some m)
      → TunnelsOf (some tunnel) w.tunnels
      → IsKept (with_created env job tunnel w (m, files, c))
  with_created-IsKept env job tunnel w m files (created vm) vms tunnels = (vms, tunnels)
  with_created-IsKept env job tunnel w m files (vm_error e) vms tunnels =
      fail_job-IsKept env job none (some tunnel) _ (vms, tunnels)

  with_written-IsKept :
      (env : Env W) (job : Job W) (m : MicroVmManager) (tunnel : TunnelConfig) (w : World W)
      (o : Option (Files × TunnelConfig))
      → SameTunnel tunnel o
      → VmsOf none (some m)
      → HeldFor none (some tunnel) w
      → IsKept (with_written env job m tunnel w o)
  with_written-IsKept env job m tunnel w none same vms held =
      fail_job-IsKept env job none (some tunnel) w held
  with_written-IsKept env job m tunnel w (some (files, tunnel')) same vms held =
      let (m', files', c) = create_vm env.host env.dumps_config env.vm_id job.script_b64 m files in
      with_created-IsKept env job tunnel' w m' files' c
        (create_vm-VmsOf env.host env.dumps_config env.vm_id job.script_b64 m files vms)
        (same-TunnelsOf tunnel tunnel' w.tunnels same held.1)

  with_managers-IsKept :
      (env : Env W) (job : Job W) (w : World W) (o : Option MicroVmManager)
      (p : Option WireGuardTunnelManager)
      → VmsOf none o
      → TunnelsOf none p
      → HeldFor none none w
      → IsKept (with_managers env job w o p)
  unfolding prepare_job set_status
  with_managers-IsKept env job w (some m) (some t) vms tunnels held =
      let made = create_tunnel env.fresh_tunnel none t in
      let w' : World W = record w { tunnels = some (made.0) } in
      with_written-IsKept env job m (made.1) w'
        (write_config env.host (made.1) none (made.0) w.files)
        (write_config-SameTunnel env.host (made.1) (made.0) w.files) vms
        (held.0, create_tunnel-TunnelsOf env.fresh_tunnel t tunnels)
  with_managers-IsKept env job w none p vms tunnels held = held
  with_managers-IsKept env job w (some m) none vms tunnels held = held

  start_job-IsKept :
      (env : Env W) (job : Job W) (w : World W) → HeldFor none none w → IsKept (start_job env job w)
  unfolding start_job set_status
  start_job-IsKept env job w held =
      with_managers-IsKept env job (set_status env.now job.job_id running w) w.vms w.tunnels held.0
        held.1 held

  module _ (env : Env W) (vm : MicroVm) (tunnel : TunnelConfig) where
    with_stored-IsKept :
        (job : Job W) (receipt : JsonObject W) (w : World W) (o : Option (Db W))
        → HeldFor (some vm) (some tunnel) w
        → IsKept (with_stored env job vm tunnel receipt w o)
    unfolding set_status
    with_stored-IsKept job receipt w none held =
        fail_job-IsKept env job (some vm) (some tunnel) w held
    with_stored-IsKept job receipt w (some db') held =
        finish-IsKept job.job_id (some vm) (some tunnel) _ held

    with_keys-IsKept :
        (job : Job W) (state : StateVector W) (w : World W) (keys : Option Keypair)
        → HeldFor (some vm) (some tunnel) w
        → IsKept (with_keys env job vm tunnel state w keys)
    with_keys-IsKept job state w none held = fail_job-IsKept env job (some vm) (some tunnel) w held
    with_keys-IsKept job state w (some keys) held = with_stored-IsKept job _ _ _ held

    with_route-IsKept :
        (job : Job W) (w : World W) (r : Routed (Zone W × StateVector W))
        → HeldFor (some vm) (some tunnel) w
        → IsKept (with_route env job vm tunnel w r)
    with_route-IsKept job w (route_failed e) held =
        fail_job-IsKept env job (some vm) (some tunnel) w held
    with_route-IsKept job w (routed (zone, st)) held = with_keys-IsKept job st w env.keys held

    capture_found-IsKept :
        (w : World W) (o : Option (Job W))
        → IsKept w
        → HeldFor (some vm) (some tunnel) w
        → IsKept (capture_found env vm tunnel w o)
    unfolding capture_payment
    capture_found-IsKept w none kept held = kept
    capture_found-IsKept w (some job) kept held = held

    complete_found-IsKept :
        (w : World W) (o : Option (Job W))
        → IsKept w
        → HeldFor (some vm) (some tunnel) w
        → IsKept (complete_found env vm tunnel w o)
    unfolding complete_job
    complete_found-IsKept w none kept held = kept
    complete_found-IsKept w (some job) kept held =
        with_route-IsKept job w (find_optimal_zone env.settings env.http default_workload none) held

  step_idle-IsKept :
      (env : Env W) (w : World W) (ids : List String)
      → IsKept w
      → HeldFor none none w
      → IsKept (step_idle env w ids)
  step_idle-IsKept env w [] kept held = kept
  step_idle-IsKept env w (id ∷ ids) kept held = elim (Option-cases (lookup id w.jobs.jobs)) [
    | inl e ↦ rw e kept
    | inr (job, e) ↦ rw e (start_job-IsKept env job _ held)
  ]

  -- A conditional that parks the worker, or goes on.
  park_or-IsKept :
      (w : World W) (b : Bool) (p : Phase) (w' : World W)
      → HeldFor (vm_of p) (tunnel_of p) w
      → IsKept w'
      → IsKept (if b then record w { phase = p } else w')
  park_or-IsKept w true p w' held kept' = held
  park_or-IsKept w false p w' held kept' = kept'

  step_at-IsKept :
      (env : Env W) (w : World W) (phase : Phase)
      → IsKept w
      → HeldFor (vm_of phase) (tunnel_of phase) w
      → IsKept (step_at env w phase)
  unfolding run_vm
  step_at-IsKept env w idle kept held = step_idle-IsKept env w w.jobs.queue kept held
  step_at-IsKept env w (before_execution id vm tunnel unchecked) kept held =
      park_or-IsKept w (job_is is_frozen (lookup id w.jobs.jobs))
        (before_execution id vm tunnel parked) (run_vm env id vm tunnel w) held held
  step_at-IsKept env w (before_execution id vm tunnel parked) kept held = kept
  step_at-IsKept env w (before_execution id vm tunnel woken) kept held = held
  step_at-IsKept env w (after_execution id vm tunnel unchecked) kept held =
      let found = lookup id w.jobs.jobs in
      park_or-IsKept w (job_is is_frozen found) (after_execution id vm tunnel parked)
        (capture_found env vm tunnel w found) held
        (capture_found-IsKept env vm tunnel w found kept held)
  step_at-IsKept env w (after_execution id vm tunnel parked) kept held = kept
  step_at-IsKept env w (after_execution id vm tunnel woken) kept held =
      capture_found-IsKept env vm tunnel w (lookup id w.jobs.jobs) kept held
  step_at-IsKept env w (after_capture id vm tunnel) kept held =
      complete_found-IsKept env vm tunnel w (lookup id w.jobs.jobs) kept held

  -- Waking the worker leaves it where it stands.
  wake-HeldFor :
      (id : String) (p : Phase) (w : World W)
      → HeldFor (vm_of p) (tunnel_of p) w
      → HeldFor (vm_of (wake id p)) (tunnel_of (wake id p)) w
  wake-HeldFor id idle w held = held
  wake-HeldFor id (before_execution j vm tunnel wait) w held = held
  wake-HeldFor id (after_execution j vm tunnel wait) w held = held
  wake-HeldFor id (after_capture j vm tunnel) w held = held

  resume_in-IsKept :
      (env : Env W) (id : String) (w : World W) → IsKept w → IsKept (resume_in env id w)
  unfolding resume_in
  resume_in-IsKept env id w kept =
      let (_, _, done) = resume_job env.now id w.jobs w.db in
      elim (Bool-cases done) [ inl e ↦ rw e (wake-HeldFor id w.phase w kept) | inr e ↦ rw e kept ]

  step-IsKept : (env : Env W) (e : Event W) (w : World W) → IsKept w → IsKept (step env e w)
  unfolding step worker_step freeze_in submit_in
  step-IsKept env work w kept = step_at-IsKept env w w.phase kept kept
  step-IsKept env (freeze_event id) w kept = kept
  step-IsKept env (resume_event id) w kept = resume_in-IsKept env id w kept
  step-IsKept env (submit job) w kept = kept

  -- Nothing leaks: on a run of the worker and of the other tasks, whatever the outside world does, the
  -- managers keep no VM and no tunnel but those of the job where the worker stands, so nothing where
  -- it is idle, if that holds at the start; the VMs are live, and all are kept under their ids.
  pub run-IsKept : (es : List (Env W × Event W)) (w : World W) → IsKept w → IsKept (run es w)
  unfolding run
  run-IsKept [] w kept = kept
  run-IsKept ((env, e) ∷ es) w kept = run-IsKept es (step env e w) (step-IsKept env e w kept)
