-- ===== src/Tests/Server.antt =====
-- The start and the end of the program, the keys, the command line of the wrapper, and a job whose
-- capture fails.
use Prim.Native.Char.{Char, code}
use swift_route.Prelude.{
  String, true, ◌≡◌, ◌≢◌, refl, some, none, List, [], ◌∷◌, arith, eq_iff, ◌==◌, if◌then◌else◌,
}
use swift_route.Prelude.Dict.{lookup}
use swift_route.Prelude.Int.{ℤ, pos, ◌+ℤ◌}
use swift_route.Fixed.{fixed_float}
use swift_route.Prelude.Text.{replace_char}
use swift_route.Vm.{MicroVm, fresh_vm}
use swift_route.JobQueue.Jobs.{Job, running, completed}
use swift_route.JobQueue.World.{World, Env, idle, after_execution, unchecked}
use swift_route.JobQueue.Kept.{IsKept, run-IsKept}
use swift_route.JobQueue.Steps.{Event, run, worker_step, work, submit}
use swift_route.JobQueue.Unpaid.{completed_row, completed_whatever_captured}
use swift_route.Receipts.Keys.{
  Disk, KeyLibrary, KeyStore, load_or_generate_keys, get_keypair, get_public_key_pem, restart,
}
use swift_route.Receipts.Keys.Restart.{IsSaved, get_keypair-restart}
use swift_route.Gateway.Lifespan.{Server, no_task, done, shut_down, cancel_task}
use swift_route.Gateway.Lifespan.Shutdown.{IsEmpty, SameBooks, after_run, shut_down-IsEmpty}
use swift_route.Shim.{wsl_args, command, win_to_wsl}
use swift_route.Shim.Arguments.{converted, wsl_args-converted}
use swift_route.Payments.Processor.{capture}
use swift_route.Receipts.{receipt_object}
use swift_route.Persistence.{JobRow, new_row, store_receipt}
use swift_route.Router.{
  find_optimal_zone, fetch_zones, best_zone, zone_score, zone_to_state, default_workload,
}
use swift_route.JobQueue.Worker.{capture_payment, payment_object, mint_receipt}
use swift_route.Tests.Data.{keys, settings, db, hydro, env, world, job, tunnel, real_host}

-- A ticket is bought, and its job is prepared.
abbrev events : List (Env ℤ × Event ℤ)
events = (env, submit job) ∷ (env, work) ∷ []

run-IsKept_example : IsKept (run events world)
unfolding lookup
run-IsKept_example = run-IsKept events world ((tt, λ id other. refl), (tt, λ id other. refl))

abbrev server : Server ℤ
server = record { world = world; task = no_task; sge = none }

-- The end of the program interrupts the job.
shut_down-IsEmpty_example :
    let s' = cancel_task (shut_down (after_run settings server events)) in
    IsEmpty s'.world
    × (s'.world.phase ≡ idle)
    × (s'.task ≡ done)
    × SameBooks (after_run settings server events).world s'.world
shut_down-IsEmpty_example = shut_down-IsEmpty settings server events refl

-- A key is a text, and its PEM the same text.
abbrev pem_library : KeyLibrary String String
pem_library = record {
  public_key = λ k. k;
  private_pem = λ k. k;
  public_pem = λ k. k;
  load_private = λ t. some t;
  load_public = λ t. some t;
}

abbrev disk : Disk
disk = record { mkdir = λ _. true; write = λ _. true }

abbrev key_store : KeyStore String String
key_store = record { files = []; cached = none }

two_paths : settings.receipt_private_key_path ≢ settings.receipt_public_key_path
two_paths e =
    ground (arith, eq_iff settings.receipt_private_key_path settings.receipt_public_key_path)

get_keypair-restart_example :
    let s' = (get_keypair pem_library disk settings "k1" key_store).0 in
    IsSaved pem_library settings s'
    × (get_keypair pem_library disk settings "k2" (restart s') ≡ (s', some ("k1", "k1")))
    × (get_public_key_pem pem_library disk settings "k2" (restart s') ≡ (s', some "k1"))
unfolding get_keypair load_or_generate_keys lookup
get_keypair-restart_example =
    get_keypair-restart pem_library settings disk "k1" "k2" key_store ("k1", "k1")
      (record { load_private-private_pem = λ k. refl; load_public-public_pem = λ k. refl })
      two_paths (λ k e. ground (arith, e)) refl

-- The lower case of a character, for the letter C alone.
abbrev lower : Char → String
lower c = if code c == b'C' then "c" else String.◌∷◌ c ""

abbrev windows_args : List String
windows_args = "--api-sock" ∷ "C:\\sap\\vm.sock" ∷ "--config-file" ∷ []

wsl_args-converted_example :
    (wsl_args lower windows_args ≡ some (converted lower windows_args))
    × (command lower windows_args ≡ some ("wsl" ∷ "firecracker" ∷ converted lower windows_args))
wsl_args-converted_example = wsl_args-converted lower windows_args

converted_paths :
    converted lower windows_args ≡ "--api-sock" ∷ "/mnt/c/sap/vm.sock" ∷ "--config-file" ∷ []
unfolding win_to_wsl replace_char
converted_paths = refl

abbrev vm : MicroVm
vm = fresh_vm real_host "vm-1"

abbrev running_job : Job ℤ
running_job = record job { status = running }

abbrev running_row : JobRow
running_row = new_row "ZWNobyBoaQ==" "ca-hydro-03" "Quebec Hydro Overflow" "2026-01-02T09:00:00"

-- The processor has no payment "pay-1".
abbrev executed_world : World ℤ
executed_world = record world {
  db = record db { jobs = ("j-1", running_row) ∷ [] };
  jobs = record { queue = []; jobs = ("j-1", running_job) ∷ [] };
  phase = after_execution "j-1" vm tunnel unchecked;
}

completed_whatever_captured_example :
    let (_, _, result) =
      capture env.api settings env.now "pay-1" (pos 440_000) world.payment executed_world.db in
    let w' = run ((env, work) ∷ (env, work) ∷ []) executed_world in
    let job' = record running_job {
      payment_result = payment_object result;
      receipt =
          receipt_object (mint_receipt keys env running_job (zone_to_state hydro default_workload));
      status = completed;
    } in
    (lookup "j-1" w'.jobs.jobs ≡ some job')
    × (lookup "j-1" w'.db.jobs ≡ some (completed_row env job' job'.receipt running_row))
unfolding find_optimal_zone fetch_zones best_zone zone_score lookup store_receipt worker_step
    capture_payment ◌+ℤ◌
completed_whatever_captured_example =
    completed_whatever_captured vm tunnel env env executed_world running_job running_row hydro
      (zone_to_state hydro default_workload) keys refl refl refl refl refl refl (λ t. refl)
