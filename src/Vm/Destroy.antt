-- ===== src/Vm/Destroy.antt =====
-- What destroying every MicroVM (src/vm_manager.py) leaves behind.
use swift_route.Prelude.{
  ℕ, String, Option, Option-cases, inl, inr, Bool, true, false, ◌≡◌, refl, none, some, [], ◌∷◌,
  ◌||◌, ◌&&◌, not, Bool-cases, All, arith, str_eq, if◌then◌else◌,
}
use swift_route.Prelude.Dict.{
  Dict, lookup, erase, insert, lookup-erase, erase-adjust, lookup-insert_self,
}
use swift_route.Host.{Host, Files}
use swift_route.Vm.{
  MicroVm, MicroVmManager, FirecrackerConfig, binary_not_found, vm_error, fresh_vm,
  build_firecracker_config, create_vm, started, start_firecracker, firecracker_bin, destroy,
  destroy_each, destroy_all,
}

-- A VM that is kept is kept under its own id, and has not been destroyed.
abbrev pub IsLive : Dict MicroVm → Type 0
IsLive = All λ e. (e.0 ≡ e.1.vm_id) × (e.1.destroyed ≡ false)

unfoldable pub has_vm : String → Dict MicroVm → Bool
has_vm k [] = false
has_vm k ((_, vm) ∷ d) = str_eq vm.vm_id k || has_vm k d

-- Whether the path is the socket or the configuration file of a VM of the list.
unfoldable pub has_vm_file : String → Dict MicroVm → Bool
has_vm_file path [] = false
has_vm_file path ((_, vm) ∷ d) =
    str_eq vm.socket_path path || str_eq vm.config_path path || has_vm_file path d

insert-IsLive :
    (vm : MicroVm) (d : Dict MicroVm)
    → vm.destroyed ≡ false
    → IsLive d
    → IsLive (insert vm.vm_id vm d)
unfolding insert
insert-IsLive vm [] e h = ((refl, e), tt)
insert-IsLive vm ((j, c) ∷ d) e h = ground (arith, insert-IsLive vm d e h.1)

started-IsLive :
    (m : MicroVmManager) (vm : MicroVm) (pid : Option ℕ)
    → vm.destroyed ≡ false
    → IsLive m.vms
    → IsLive (started m vm pid).0.vms
started-IsLive m vm none e h = h
started-IsLive m vm (some pid) e h = insert-IsLive (record vm { proc = some pid }) m.vms e h

start_firecracker-IsLive :
    (host : Host) (m : MicroVmManager) (vm : MicroVm)
    → vm.destroyed ≡ false
    → IsLive m.vms
    → IsLive (start_firecracker host m vm).0.vms
unfolding start_firecracker
start_firecracker-IsLive host m vm e h = elim (Option-cases (firecracker_bin host)) [
  | inl missing ↦ rw (start_firecracker, missing) h
  | inr (bin, found) ↦
      rw (start_firecracker, found)
        (started-IsLive m vm (host.popen bin vm.socket_path vm.config_path) e h)
]

failed_start :
    (host : Host) (m : MicroVmManager) (vm : MicroVm)
    → host.which_firecracker ≡ none
    → host.project_bin ≡ none
    → start_firecracker host m vm ≡ (m, vm_error binary_not_found)
unfolding start_firecracker
failed_start host m vm missing no_bin = ground arith

-- Creating a VM, whether it succeeds or raises, keeps only live VMs under their own ids.
pub create_vm-IsLive :
    (host : Host) (dumps : FirecrackerConfig → String) (vm_id script : String) (m : MicroVmManager)
    (files : Files)
    → IsLive m.vms
    → IsLive (create_vm host dumps vm_id script m files).0.vms
unfolding create_vm
create_vm-IsLive host dumps vm_id script m files h =
    let vm = fresh_vm host vm_id in
    ground (arith, insert-IsLive vm m.vms refl h, start_firecracker-IsLive host m vm refl h)

-- Outside mock mode, where the configuration can be written and no Firecracker binary is found,
-- `create_vm` raises after it has written the configuration with the agent's script: the file stays,
-- and no VM is kept that would remove it.
pub failed_create_leaves_config :
    (host : Host) (dumps : FirecrackerConfig → String) (vm_id script : String) (m : MicroVmManager)
    (files : Files)
    → m.mock_mode ≡ false
    → host.writable (fresh_vm host vm_id).config_path ≡ true
    → host.which_firecracker ≡ none
    → host.project_bin ≡ none
    → let (m', files', result) = create_vm host dumps vm_id script m files in
      (result ≡ vm_error binary_not_found)
      × (m' ≡ m)
      × (lookup (fresh_vm host vm_id).config_path files'
          ≡ some (dumps (build_firecracker_config m vm_id script 128)))
unfolding create_vm
failed_create_leaves_config host dumps vm_id script m files real writable missing no_bin =
    let config = dumps (build_firecracker_config m vm_id script 128) in
    ground (
      arith,
      failed_start host m (fresh_vm host vm_id) missing no_bin,
      lookup-insert_self (fresh_vm host vm_id).config_path config files,
    )

-- A VM that is not destroyed yet is popped, and no other.
pub lookup-destroy :
    (k : String) (vm : MicroVm) (m : MicroVmManager) (files : Files)
    → lookup k (destroy vm m files).1.vms
      ≡ (if not vm.destroyed && str_eq vm.vm_id k then none else lookup k m.vms)
unfolding destroy
lookup-destroy k vm m files = elim (Bool-cases vm.destroyed) [
  | inl e ↦ rw e refl
  | inr e ↦ rw (e, erase-adjust) (lookup-erase vm.vm_id k m.vms)
]

lookup-has_vm : (k : String) (d : Dict MicroVm) → IsLive d → has_vm k d ≡ false → lookup k d ≡ none
unfolding has_vm lookup
lookup-has_vm k [] h e = refl
lookup-has_vm k ((j, vm) ∷ d) h e = ground (arith, lookup-has_vm k d h.1)

lookup-destroy_each :
    (k : String) (d : Dict MicroVm) (m : MicroVmManager) (files : Files)
    → IsLive d
    → lookup k (destroy_each d m files).0.vms ≡ (if has_vm k d then none else lookup k m.vms)
unfolding destroy_each has_vm
lookup-destroy_each k [] m files h = refl
lookup-destroy_each k ((j, vm) ∷ d) m files h =
    let (_, m', files') = destroy vm m files in
    ground (arith, lookup-destroy_each k d m' files' h.1, lookup-destroy k vm m files)

files-destroy_each :
    (path : String) (d : Dict MicroVm) (m : MicroVmManager) (files : Files)
    → IsLive d
    → lookup path (destroy_each d m files).1
      ≡ (if has_vm_file path d then none else lookup path files)
unfolding destroy_each has_vm_file
files-destroy_each path [] m files h = refl
files-destroy_each path ((j, vm) ∷ d) m files h =
    let (_, m', files') = destroy vm m files in
    ground (
      arith,
      files-destroy_each path d m' files' h.1,
      lookup-erase vm.config_path path (erase vm.socket_path files),
      lookup-erase vm.socket_path path files,
    )

-- From live VMs, `destroy_all` leaves no VM; a file is gone if it is the socket or the configuration
-- file of one of them, and is as it was otherwise.
pub destroy_all_effect :
    (m : MicroVmManager) (files : Files)
    → IsLive m.vms
    → let (m', files') = destroy_all m files in
      ((id : String) → lookup id m'.vms ≡ none)
      × ((path : String)
          → lookup path files' ≡ (if has_vm_file path m.vms then none else lookup path files))
unfolding destroy_all
destroy_all_effect m files live = (
  λ id. ground (arith, lookup-destroy_each id m.vms m files live, lookup-has_vm id m.vms live),
  λ path. files-destroy_each path m.vms m files live,
)
