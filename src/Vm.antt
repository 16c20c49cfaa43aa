-- ===== src/Vm.antt =====
-- src/vm_manager.py: the Firecracker MicroVMs, their files and their processes. The fresh id of a VM
-- is an argument, and so is the text that `json.dumps` makes of a configuration. The
-- directory for the sockets is there, or can be made.
pub mod Destroy
use Prim.Native.String.{slice}
use swift_route.Prelude.{
  ℕ, String, Bool, true, false, Option, none, some, List, [], ◌∷◌, str_eq, if◌then◌else◌,
}
use swift_route.Prelude.Dict.{Dict, insert, erase, adjust}
use swift_route.Host.{Host, Files, ◌++◌}

-- The pid of the process, if there is one.
pub record MicroVm : Type 0 where
  pub vm_id : String
  pub socket_path : String
  pub config_path : String
  pub proc : Option ℕ
  pub destroyed : Bool

pub record MicroVmManager : Type 0 where
  pub kernel_path : String
  pub rootfs_path : String
  pub vms : Dict MicroVm
  pub mock_mode : Bool

abbrev pub new_vm_manager : String → String → String → MicroVmManager
new_vm_manager kernel_path rootfs_path vm_mode = record {
  kernel_path = kernel_path;
  rootfs_path = rootfs_path;
  vms = [];
  mock_mode = str_eq vm_mode "mock";
}

-- The payload of `_build_firecracker_config`, with a field for each entry.
pub record FirecrackerConfig : Type 0 where
  pub kernel_image_path : String
  pub boot_args : String
  pub drive_id : String
  pub path_on_host : String
  pub is_root_device : Bool
  pub is_read_only : Bool
  pub vcpu_count : ℕ
  pub mem_size_mib : ℕ
  pub smt : Bool
  pub mmds_version : String
  pub mmds_interfaces : List String
  pub iface_id : String
  pub guest_mac : String
  pub host_dev_name : String
  pub sap_job_id : String
  pub execution_script_b64 : String

abbrev pub build_firecracker_config : MicroVmManager → String → String → ℕ → FirecrackerConfig
build_firecracker_config m vm_id script_b64 mmd_size = record {
  kernel_image_path = m.kernel_path;
  boot_args = "console=ttyS0 reboot=k panic=1 pci=off";
  drive_id = "rootfs";
  path_on_host = m.rootfs_path;
  is_root_device = true;
  is_read_only = false;
  vcpu_count = 2;
  mem_size_mib = mmd_size;
  smt = false;
  mmds_version = "V2";
  mmds_interfaces = "eth0" ∷ [];
  iface_id = "eth0";
  guest_mac = "AA:FC:00:00:00:01";
  host_dev_name = "tap" ++ slice vm_id 0 8;
  sap_job_id = vm_id;
  execution_script_b64 = script_b64;
}

abbrev pub fresh_vm : Host → String → MicroVm
fresh_vm host vm_id = record {
  vm_id = vm_id;
  socket_path = host.temp_dir ++ "/sap/" ++ vm_id ++ ".sock";
  config_path = host.temp_dir ++ "/sap/" ++ vm_id ++ ".json";
  proc = none;
  destroyed = false;
}

pub data VmError : Type 0 where
  -- VMManagerError("Firecracker binary not found on PATH")
  binary_not_found : VmError
  -- An OSError of `mkdir` or `write_text`.
  not_written : VmError

pub data Created : Type 0 where
  created : MicroVm → Created
  vm_error : VmError → Created

-- The binary on the PATH, or else the project's own.
abbrev pub firecracker_bin : Host → Option String
firecracker_bin host = elim host.which_firecracker [ some bin ↦ some bin | none ↦ host.project_bin ]

abbrev pub started : MicroVmManager → MicroVm → Option ℕ → MicroVmManager × Created
started m vm none = (m, vm_error binary_not_found)
started m vm (some pid) =
    let vm' = record vm { proc = some pid } in
    (record m { vms = insert vm.vm_id vm' m.vms }, created vm')

unfoldable pub start_firecracker : Host → MicroVmManager → MicroVm → MicroVmManager × Created
start_firecracker host m vm = elim (firecracker_bin host) [
  | none ↦ (m, vm_error binary_not_found)
  | some bin ↦ started m vm (host.popen bin vm.socket_path vm.config_path)
]

unfoldable pub create_vm :
    Host
    → (FirecrackerConfig → String)
    → String
    → String
    → MicroVmManager
    → Files
    → MicroVmManager × Files × Created
unfolding start_firecracker
create_vm host dumps vm_id script_b64 m files =
    let vm = fresh_vm host vm_id in
    let config = dumps (build_firecracker_config m vm_id script_b64 128) in
    let (m', result) = start_firecracker host m vm in
    if m.mock_mode
    then (record m { vms = insert vm_id vm m.vms }, files, created vm)
    else if host.writable vm.config_path
    then (m', insert vm.config_path config files, result)
    else (m, files, vm_error not_written)

-- The result of `execute`; `sha256` is hashlib's hex digest.
pub record VmLogs : Type 0 where
  pub vm_id : String
  pub status : String
  pub stdout : String
  pub signature : String

unfoldable pub execute : (String → String) → MicroVm → VmLogs
execute sha256 vm =
    let stdout : String = "SAP job " ++ vm.vm_id ++ " executed in isolated Firecracker MicroVM." in
    record { vm_id = vm.vm_id; status = "completed"; stdout = stdout; signature = sha256 stdout }

-- Ending the process changes nothing that is modelled: its exceptions are swallowed. The VM is an
-- object that the manager holds too, so `_destroyed` is set in both, and then it is popped.
unfoldable pub destroy : MicroVm → MicroVmManager → Files → MicroVm × MicroVmManager × Files
destroy vm m files = if vm.destroyed then (vm, m, files) else (
  record vm { destroyed = true },
  record m {
    vms = erase vm.vm_id (adjust vm.vm_id (λ held. record held { destroyed = true }) m.vms);
  },
  erase vm.config_path (erase vm.socket_path files),
)

unfoldable pub destroy_each : Dict MicroVm → MicroVmManager → Files → MicroVmManager × Files
unfolding destroy
destroy_each [] m files = (m, files)
destroy_each ((k, vm) ∷ rest) m files =
    let (_, m', files') = destroy vm m files in destroy_each rest m' files'

unfoldable pub destroy_all : MicroVmManager → Files → MicroVmManager × Files
unfolding destroy_each
destroy_all m files = destroy_each m.vms m files
