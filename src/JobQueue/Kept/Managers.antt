-- ===== src/JobQueue/Kept/Managers.antt =====
-- What the managers of src/vm_manager.py and src/tunnel_manager.py keep for one job.
use swift_route.Prelude.{
  ℕ, String, Bool, false, not, ◌&&◌, ◌≡◌, refl, ◌∙◌, arith, Option, none, some, [], ◌∷◌,
  Option-cases, inl, inr, All, Bool-cases, str_eq,
}
use swift_route.Prelude.Dict.{Dict, lookup, erase, erase-adjust, lookup-erase, lookup-insert}
use swift_route.Host.{Host, Files}
use swift_route.Tunnel.{
  TunnelConfig, WireGuardTunnelManager, FreshTunnel, default_file, create_tunnel, write_config,
  tear_down,
}
use swift_route.Tunnel.Teardown.{IsKeyed, create_tunnel-IsKeyed}
use swift_route.Vm.{
  MicroVm, MicroVmManager, Created, created, vm_error, create_vm, destroy, started,
  start_firecracker, firecracker_bin, FirecrackerConfig, fresh_vm,
}
use swift_route.Vm.Destroy.{IsLive, lookup-destroy, create_vm-IsLive}
use swift_route.JobQueue.World.{Phase, idle, before_execution, after_execution, after_capture}

-- The ids under which the managers may keep something for a VM, unless that is destroyed, and for a
-- tunnel.
abbrev pub owns_vm : Option MicroVm → String → Bool
owns_vm none id = false
owns_vm (some vm) id = not vm.destroyed && str_eq vm.vm_id id

abbrev pub owns_tunnel : Option TunnelConfig → String → Bool
owns_tunnel none id = false
owns_tunnel (some tunnel) id = str_eq tunnel.tunnel_id id

-- The manager keeps live VMs under their ids, and none but the given one.
abbrev pub VmsOf : Option MicroVm → Option MicroVmManager → Type 0
VmsOf vm none = Unit
VmsOf vm (some m) = IsLive m.vms × ((id : String) → owns_vm vm id ≡ false → lookup id m.vms ≡ none)

-- The manager keeps tunnels under their ids, and none but the given one.
abbrev pub TunnelsOf : Option TunnelConfig → Option WireGuardTunnelManager → Type 0
TunnelsOf tunnel none = Unit
TunnelsOf tunnel (some m) =
    IsKeyed m.tunnels × ((id : String) → owns_tunnel tunnel id ≡ false → lookup id m.tunnels ≡ none)

-- What belongs to the job where the worker stands.
abbrev pub vm_of : Phase → Option MicroVm
vm_of idle = none
vm_of (before_execution id vm tunnel wait) = some vm
vm_of (after_execution id vm tunnel wait) = some vm
vm_of (after_capture id vm tunnel) = some vm

abbrev pub tunnel_of : Phase → Option TunnelConfig
tunnel_of idle = none
tunnel_of (before_execution id vm tunnel wait) = some tunnel
tunnel_of (after_execution id vm tunnel wait) = some tunnel
tunnel_of (after_capture id vm tunnel) = some tunnel

All-erase {ℓ κ} :
    {V : Type ℓ} (P : String × V → Type κ) (k : String) (d : Dict V) → All P d → All P (erase k d)
unfolding erase
All-erase P k [] h = tt
All-erase P k ((j, v) ∷ d) h = elim (Bool-cases (str_eq j k)) [
  | inl e ↦ rw e (All-erase P k d h.1)
  | inr e ↦ rw e (h.0, All-erase P k d h.1)
]

pub destroy-VmsOf :
    (vm : MicroVm) (m : MicroVmManager) (files : Files)
    → VmsOf (some vm) (some m)
    → VmsOf none (some (destroy vm m files).1)
unfolding destroy
destroy-VmsOf vm m files (live, only) = (
  elim (Bool-cases vm.destroyed) [
    | inl e ↦ rw e live
    | inr e ↦ rw (e, erase-adjust) (All-erase _ vm.vm_id m.vms live)
  ],
  λ id _. lookup-destroy id vm m files ∙ elim (Bool-cases (owns_vm (some vm) id)) [
    | inl own ↦ rw own refl
    | inr other ↦ rw other (only id other)
  ],
)

pub tear_down-TunnelsOf :
    (tunnel : TunnelConfig) (m : WireGuardTunnelManager) (files : Files)
    → TunnelsOf (some tunnel) (some m)
    → TunnelsOf none (some (tear_down tunnel m files).0)
unfolding tear_down
tear_down-TunnelsOf tunnel m files (keyed, only) = (
  All-erase _ tunnel.tunnel_id m.tunnels keyed,
  λ id _. ground (arith, lookup-erase tunnel.tunnel_id id m.tunnels, only id),
)

-- The VM that was created, if one was.
abbrev pub created_vm : Created → Option MicroVm
created_vm (created vm) = some vm
created_vm (vm_error e) = none

started-only :
    (m : MicroVmManager) (vm : MicroVm) (pid : Option ℕ) (id : String)
    → vm.destroyed ≡ false
    → lookup id m.vms ≡ none
    → owns_vm (created_vm (started m vm pid).1) id ≡ false
    → lookup id (started m vm pid).0.vms ≡ none
started-only m vm none id live empty other = empty
started-only m vm (some pid) id live empty other =
    ground (arith, lookup-insert vm.vm_id id (record vm { proc = some pid }) m.vms)

start_firecracker-only :
    (host : Host) (m : MicroVmManager) (vm : MicroVm) (id : String)
    → vm.destroyed ≡ false
    → lookup id m.vms ≡ none
    → owns_vm (created_vm (start_firecracker host m vm).1) id ≡ false
    → lookup id (start_firecracker host m vm).0.vms ≡ none
unfolding start_firecracker
start_firecracker-only host m vm id live empty = elim (Option-cases (firecracker_bin host)) [
  | inl missing ↦ rw (start_firecracker, missing) (λ other. empty)
  | inr (bin, found) ↦
      rw (start_firecracker, found)
        (started-only m vm (host.popen bin vm.socket_path vm.config_path) id live empty)
]

pub create_vm-VmsOf :
    (host : Host) (dumps : FirecrackerConfig → String) (vm_id script : String) (m : MicroVmManager)
    (files : Files)
    → VmsOf none (some m)
    → let (m', _, result) = create_vm host dumps vm_id script m files in
      VmsOf (created_vm result) (some m')
unfolding create_vm
create_vm-VmsOf host dumps vm_id script m files (live, none_kept) = (
  create_vm-IsLive host dumps vm_id script m files live,
  λ id. elim (Bool-cases m.mock_mode) [
    | inl mocked ↦
        simp (mocked, lookup-insert vm_id id (fresh_vm host vm_id) m.vms)
          (λ other. rw other (none_kept id refl))
    | inr real ↦
        let vm = fresh_vm host vm_id in
        elim (Bool-cases (host.writable vm.config_path)) [
          | inl writes ↦
              simp (real, writes) (start_firecracker-only host m vm id refl (none_kept id refl))
          | inr fails ↦ simp (real, fails) (λ other. none_kept id refl)
        ]
  ],
)

pub create_tunnel-TunnelsOf :
    (fresh : FreshTunnel) (m : WireGuardTunnelManager)
    → TunnelsOf none (some m)
    → let (m', tunnel) = create_tunnel fresh none m in TunnelsOf (some tunnel) (some m')
unfolding create_tunnel
create_tunnel-TunnelsOf fresh m (keyed, empty) = (
  create_tunnel-IsKeyed fresh none m keyed,
  λ id other. ground (
    arith,
    lookup-insert fresh.tunnel_id id (create_tunnel fresh none m).1 m.tunnels,
    empty id,
    other,
  ),
)

-- The same tunnel, perhaps with another file.
abbrev pub SameTunnel : TunnelConfig → Option (Files × TunnelConfig) → Type 0
SameTunnel tunnel none = Unit
SameTunnel tunnel (some (files, tunnel')) = tunnel'.tunnel_id ≡ tunnel.tunnel_id

pub write_config-SameTunnel :
    (host : Host) (tunnel : TunnelConfig) (m : WireGuardTunnelManager) (files : Files)
    → SameTunnel tunnel (write_config host tunnel none m files)
unfolding write_config
write_config-SameTunnel host tunnel m files =
    elim (Bool-cases (host.writable (default_file m tunnel))) [
      | inl e ↦ rw e refl
      | inr e ↦ rw e tt
    ]

pub same-TunnelsOf :
    (tunnel tunnel' : TunnelConfig) (o : Option WireGuardTunnelManager)
    → tunnel'.tunnel_id ≡ tunnel.tunnel_id
    → TunnelsOf (some tunnel) o
    → TunnelsOf (some tunnel') o
same-TunnelsOf tunnel tunnel' none same kept = tt
same-TunnelsOf tunnel tunnel' (some m) same (keyed, only) = (keyed, rw same only)
