-- ===== src/Tests/Components.antt =====
-- The router, the grid events, the tunnels, the VMs, the receipts and the purge on concrete data.

use swift_route.Prelude.{
  true, false, none, some, ◌≡◌, ◌⊎◌, refl, List, [], ◌∷◌, length, String, if◌then◌else◌, ◌+◌, All,
}
use swift_route.Prelude.Dict.{lookup}
use swift_route.Prelude.Int.{ℤ, pos, ◌+ℤ◌, ◌-ℤ◌}
use swift_route.Fixed.{fixed_float, Fixed-IsIeee}
use swift_route.Router.{
  Zone, routed, failed, no_zones, static_grid, static_zones, fetch_zones, zone_to_state, zone_score,
  find_optimal_zone, default_workload,
}
use swift_route.Router.Optimal.{AllScored, IsFirstBest, find_optimal_zone-IsFirstBest}
use swift_route.Sge.{GridEvent, peak_demand, grid_stabilized, new_sge, is_paused}
use swift_route.Sge.Paused.{run_events, flag_of, paused-eq-flag}
use swift_route.Tunnel.{WireGuardTunnelManager, teardown_all, new_tunnel_manager}
use swift_route.Tunnel.Teardown.{has_file, teardown_all_effect}
use swift_route.Tunnel.Addresses.{create_many, Distinct, create_many-Distinct, host_range}
use swift_route.Vm.{
  MicroVmManager, FirecrackerConfig, binary_not_found, vm_error, new_vm_manager, fresh_vm,
  destroy_all, create_vm,
}
use swift_route.Vm.Destroy.{has_vm_file, destroy_all_effect, failed_create_leaves_config}
use swift_route.Host.{Files}
use swift_route.Receipts.{verify, generate}
use swift_route.Receipts.Signature.{verify-generate}
use swift_route.Persistence.{Db, JobRow, empty_db, is_purged, purge_old_jobs, get_job}
use swift_route.Persistence.Purge.{purge_keeps_same_day, purge_old_jobs_effect}
use swift_route.Json.{JsonObject}
use swift_route.Tests.Data.{settings, http, real_host, tunnel, fresh_tunnel, keys, keys-IsKeypair}

-- The static zones: the cheapest is the last, "ca-hydro-03".
static_zones-AllScored : AllScored (default_workload {W = ℤ}) static_zones
unfolding zone_score ◌+ℤ◌ ◌-ℤ◌
static_zones-AllScored = (refl, (refl, (refl, tt)))

find_optimal_zone-IsFirstBest_example :
    let zs = static_zones {W = ℤ} in
    ((zs ≡ [])
      × (find_optimal_zone settings http default_workload (some static_grid) ≡ failed no_zones))
    ⊎ ((best : Zone ℤ) × (find_optimal_zone settings http default_workload (some static_grid)
          ≡ routed (best, zone_to_state best default_workload))
        × IsFirstBest default_workload best zs)
unfolding fetch_zones
find_optimal_zone-IsFirstBest_example =
    find_optimal_zone-IsFirstBest Fixed-IsIeee default_workload settings http static_grid
      static_zones refl static_zones-AllScored

abbrev peak : GridEvent ℤ
peak = record {
  event_type = peak_demand;
  zone_id = "tx-solar-01";
  price_usd_per_mwh = pos 6_500_000_000;
  timestamp = "2026-01-02T10:00:00Z";
}

abbrev stabilized : GridEvent ℤ
stabilized = record peak { event_type = grid_stabilized }

abbrev grid_events : List (GridEvent ℤ × String)
grid_events = (peak, "j-1") ∷ (peak, "j-2") ∷ (stabilized, "j-2") ∷ []

paused-eq-flag_example :
    is_paused "j-1" (run_events settings grid_events (new_sge settings))
    ≡ flag_of settings "j-1" grid_events (is_paused "j-1" (new_sge settings))
paused-eq-flag_example = paused-eq-flag settings "j-1" grid_events (new_sge settings) refl

grid_events-flag : flag_of settings "j-1" grid_events false ≡ true
unfolding flag_of
grid_events-flag = refl

abbrev tunnel_manager : WireGuardTunnelManager
tunnel_manager = record (new_tunnel_manager "/etc/wireguard/sap0.conf") {
  tunnels = ("t-1", tunnel) ∷ [];
}

abbrev tunnel_files : Files
tunnel_files = ("/etc/wireguard/sap_t-1.conf", "conf") ∷ ("/etc/hosts", "hosts") ∷ []

teardown_all_effect_example :
    let (m', files') = teardown_all tunnel_manager tunnel_files in
    ((id : String) → lookup id m'.tunnels ≡ none)
    × ((path : String)
        → lookup path files' ≡ (
            if has_file tunnel_manager path tunnel_manager.tunnels
            then none
            else lookup path tunnel_files))
teardown_all_effect_example = teardown_all_effect tunnel_manager tunnel_files (refl, tt)

create_many-Distinct_example :
    let (m', ips) =
      create_many (fresh_tunnel ∷ fresh_tunnel ∷ []) (new_tunnel_manager "sap0.conf") in
    (ips ≡ host_range 2 2) × Distinct ips × (m'.ip_counter ≡ 2 + 2)
create_many-Distinct_example =
    create_many-Distinct (fresh_tunnel ∷ fresh_tunnel ∷ []) (new_tunnel_manager "sap0.conf")

abbrev vm_manager : MicroVmManager
vm_manager = record (new_vm_manager "vmlinux" "rootfs" "real") {
  vms = ("vm-1", fresh_vm real_host "vm-1") ∷ [];
}

abbrev vm_files : Files
vm_files = ("/tmp/sap/vm-1.json", "config") ∷ []

abbrev dumps_config : FirecrackerConfig → String
dumps_config config = config.execution_script_b64

destroy_all_effect_example :
    let (m', files') = destroy_all vm_manager vm_files in
    ((id : String) → lookup id m'.vms ≡ none)
    × ((path : String)
        → lookup path files'
          ≡ (if has_vm_file path vm_manager.vms then none else lookup path vm_files))
destroy_all_effect_example = destroy_all_effect vm_manager vm_files ((refl, refl), tt)

failed_create_leaves_config_example :
    let (m', files', result) =
      create_vm real_host dumps_config "vm-2" "ZWNobw==" vm_manager vm_files in
    (result ≡ vm_error binary_not_found)
    × (m' ≡ vm_manager)
    × (lookup "/tmp/sap/vm-2.json" files' ≡ some "ZWNobw==")
failed_create_leaves_config_example =
    failed_create_leaves_config real_host dumps_config "vm-2" "ZWNobw==" vm_manager vm_files refl
      refl refl refl

-- A `json.dumps` that prints the first text of an object.
abbrev dumps : {W : Type 0} → JsonObject W → String
dumps [] = "{}"
dumps ((k, _) ∷ _) = k

verify-generate_example :
    let r =
      generate keys
        (dumps {W = ℤ})
        "r-1"
        "2026-01-02"
        "j-1"
        (pos 1)
        (pos 2)
        (pos 3)
        (pos 4)
        "Quebec"
        "ca-hydro-03" in
    (verify keys dumps r ≡ true)
    × (verify keys dumps
          (record r { carbon_remote_g = pos 9; carbon_local_g = pos 9; zone_region = "x" })
        ≡ true)
verify-generate_example =
    verify-generate keys dumps "r-1" "2026-01-02" "j-1" "Quebec" "ca-hydro-03" "x" (pos 1) (pos 2)
      (pos 3) (pos 4) (pos 9) (pos 9) keys-IsKeypair

-- A job that was completed in the last minute of a day.
abbrev old_row : JobRow
old_row = record {
  status = "completed";
  zone_id = "z";
  zone_name = "Z";
  created_at = "2026-01-01T00:00:00";
  completed_at = some "2026-01-02T00:01:00";
  script_b64 = "";
  vm_logs_json = none;
  receipt_json = none;
  payment_json = none;
}

abbrev old_db : Db ℤ
old_db = record empty_db { jobs = ("j-0", old_row) ∷ [] }

purge_keeps_same_day_example :
    get_job "j-0" (purge_old_jobs "2026-01-02 23:59:00" old_db).0 ≡ some old_row
unfolding get_job lookup
purge_keeps_same_day_example =
    purge_keeps_same_day "2026-01-02" "00:01:00" "23:59:00" "j-0" old_row old_db refl refl

purge_old_jobs_effect_example :
    let (db', count) = purge_old_jobs "2026-01-03 00:00:00" old_db in
    All (λ e. is_purged "2026-01-03 00:00:00" e.1 ≡ false) db'.jobs
    × ((job_id : String) (row : JobRow)
        → get_job job_id old_db ≡ some row
        → is_purged "2026-01-03 00:00:00" row ≡ false
        → get_job job_id db' ≡ some row)
    × (length db'.jobs + count ≡ length old_db.jobs)
    × (db'.receipts ≡ old_db.receipts)
    × (db'.balances ≡ old_db.balances)
purge_old_jobs_effect_example = purge_old_jobs_effect "2026-01-03 00:00:00" old_db

-- A day later the job goes.
purge-old_db : purge_old_jobs "2026-01-03 00:00:00" old_db ≡ (empty_db, 1)
unfolding purge_old_jobs
purge-old_db = refl
