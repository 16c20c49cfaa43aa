-- ===== src/Gateway/Lifespan.antt =====
-- src/gateway.py: the start and the end of the program (`lifespan`) and its health check; and the
-- worker's task of src/job_queue.py (`start_worker`, `stop_worker`, `CancelledError` in `_worker`).
pub mod Shutdown
use swift_route.Prelude.{
  String, Bool, true, false, ◌&&◌, Option, none, some, List, [], ◌∷◌, if◌then◌else◌,
}
use swift_route.Prelude.Dict.{Dict, contains}
use swift_route.Float.{Float}
use swift_route.Config.{Settings}
use swift_route.Payments.Processor.{PaymentProcessor, get_processor}
use swift_route.Host.{Files}
use swift_route.Tunnel.{TunnelConfig, WireGuardTunnelManager, new_tunnel_manager, teardown_all}
use swift_route.Vm.{MicroVm, MicroVmManager, new_vm_manager, destroy_all}
use swift_route.Sge.{SyntheticGridElasticity, new_sge}
use swift_route.JobQueue.World.{
  World, Phase, idle, before_execution, after_execution, after_capture, unchecked, Wait,
}
use swift_route.JobQueue.Worker.{finish}

-- The worker's task: `cancelling` is cancelled and has not met its CancelledError.
pub data Task : Type 0 where
  no_task live cancelling done : Task

-- The world of the worker with its task, and the engine of grid events.
pub record Server (W : Type 0) : Type 0 where
  pub world : World W
  pub task : Task
  pub sge : Option (SyntheticGridElasticity W)

abbrev pub start_worker : Task → Task
start_worker no_task = live
start_worker live = live
start_worker cancelling = cancelling
start_worker done = live

abbrev pub stop_worker : Task → Task
stop_worker no_task = no_task
stop_worker live = cancelling
stop_worker cancelling = cancelling
stop_worker done = done

module _ {W : Type 0} ⦃f : Float W⦄ where
  -- Before the `yield`: new managers, and the worker is started.
  unfoldable pub start_up : Settings W → Server W → Server W
  unfolding get_processor
  start_up settings s =
      let vms = new_vm_manager settings.vm_kernel_path settings.vm_rootfs_path settings.vm_mode in
      record {
        world = record (s.world) {
          vms = some vms;
          tunnels = some (new_tunnel_manager settings.wireguard_config_path);
          payment = get_processor settings s.world.db;
        };
        task = start_worker s.task;
        sge = some (new_sge settings);
      }

-- The VM object that the worker holds is the manager's, which `destroy_all` has destroyed.
abbrev pub destroyed_in : Dict MicroVm → MicroVm → MicroVm
destroyed_in vms vm = if contains vm.vm_id vms then record vm { destroyed = true } else vm

abbrev pub map_vm : (MicroVm → MicroVm) → Phase → Phase
map_vm g idle = idle
map_vm g (before_execution id vm tunnel wait) = before_execution id (g vm) tunnel wait
map_vm g (after_execution id vm tunnel wait) = after_execution id (g vm) tunnel wait
map_vm g (after_capture id vm tunnel) = after_capture id (g vm) tunnel

module _ {W : Type 0} where
  abbrev pub destroy_vms : World W → World W
  destroy_vms w = elim w.vms [
    | none ↦ w
    | some m ↦
        let (m', files') = destroy_all m w.files in
        record w { vms = some m'; files = files'; phase = map_vm (destroyed_in m.vms) w.phase }
  ]

  abbrev pub tear_down_tunnels : World W → World W
  tear_down_tunnels w = elim w.tunnels [
    | none ↦ w
    | some m ↦
        let (m', files') = teardown_all m w.files in record w { tunnels = some m'; files = files' }
  ]

  -- After the `yield`. No call of it gives way to the worker, so the cancelled task still stands.
  unfoldable pub shut_down : Server W → Server W
  unfolding destroy_all teardown_all
  shut_down s = record s {
    world = tear_down_tunnels (destroy_vms s.world);
    task = stop_worker s.task;
  }

  -- The CancelledError where the worker stands: `except Exception` does not catch it, `finally` runs.
  abbrev pub interrupt : World W → Phase → World W
  interrupt w idle = w
  interrupt w (before_execution id vm tunnel wait) = finish id (some vm) (some tunnel) w
  interrupt w (after_execution id vm tunnel wait) = finish id (some vm) (some tunnel) w
  interrupt w (after_capture id vm tunnel) = finish id (some vm) (some tunnel) w

  -- The next time the event loop runs the task.
  unfoldable pub cancel_task : Server W → Server W
  unfolding finish
  cancel_task s = elim s.task [
    | cancelling ↦ record s { world = interrupt s.world s.world.phase; task = done }
    | _ ↦ s
  ]

-- The checks of `health`: whether each is "ready", or the worker "running".
pub record Health : Type 0 where
  pub vm_manager : Bool
  pub tunnel_manager : Bool
  pub sge : Bool
  pub payment : Bool
  pub job_queue : Bool

abbrev pub is_there {ℓ} : {A : Type ℓ} → Option A → Bool
is_there none = false
is_there (some a) = true

-- _task and not _task.done()
abbrev pub is_working : Task → Bool
is_working no_task = false
is_working live = true
is_working cancelling = true
is_working done = false

-- The payment processor is made with the module, and is always there.
unfoldable pub health : {W : Type 0} → Server W → String × Health
health s =
    let checks : Health = record {
      vm_manager = is_there s.world.vms;
      tunnel_manager = is_there s.world.tunnels;
      sge = is_there s.sge;
      payment = true;
      job_queue = is_working s.task;
    } in
    let healthy =
      checks.vm_manager
      && (checks.tunnel_manager && (checks.sge && (checks.payment && checks.job_queue))) in
    (if healthy then "ok" else "degraded", checks)
