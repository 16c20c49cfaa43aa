-- ===== src/JobQueue/World.antt =====
-- What the worker of src/job_queue.py works on: the gateway's globals, the place where the worker
-- stands, and the outside world that one job meets.
use swift_route.Prelude.Dict.{Dict, contains}
use swift_route.Prelude.{
  ℕ, ltb, length, String, Bool, Option, List, ◌∷◌, [], str_eq, ◌||◌, false, if◌then◌else◌,
}
use swift_route.Config.{Settings}
use swift_route.Json.{JsonObject}
use swift_route.Persistence.{Db}
use swift_route.Payments.{StripeApi}
use swift_route.Payments.Processor.{PaymentProcessor}
use swift_route.Host.{Host, Files}
use swift_route.Router.{HttpClient}
use swift_route.Tunnel.{FreshTunnel, TunnelConfig, WireGuardTunnelManager}
use swift_route.Vm.{FirecrackerConfig, MicroVm, MicroVmManager}
use swift_route.Receipts.{Keypair}
use swift_route.JobQueue.Jobs.{Job, JobQueue}

-- A `wait_if_frozen`: before its test, waiting for the event, or woken by it. What is woken goes on
-- without a second test.
pub data Wait : Type 0 where
  unchecked parked woken : Wait

-- Where `_process_job` can be interrupted: before it has a job, at its two waits, and after the
-- payment was captured.
pub data Phase : Type 0 where
  idle : Phase
  before_execution : String → MicroVm → TunnelConfig → Wait → Phase
  after_execution : String → MicroVm → TunnelConfig → Wait → Phase
  after_capture : String → MicroVm → TunnelConfig → Phase

pub record World (W : Type 0) : Type 0 where
  pub jobs : JobQueue W
  pub db : Db W
  pub registry : List String
  pub payment : PaymentProcessor W
  pub vms : Option MicroVmManager
  pub tunnels : Option WireGuardTunnelManager
  pub files : Files
  pub phase : Phase

-- The outside world at one step: the clock, fresh ids and keys, the host, and the libraries.
pub record Env (W : Type 0) : Type 0 where
  pub settings : Settings W
  pub now : String
  pub host : Host
  pub api : StripeApi
  pub http : HttpClient W
  pub fresh_tunnel : FreshTunnel
  pub vm_id : String
  pub receipt_id : String
  -- What `_get_keypair` of the receipts gives; `none` where it raises.
  pub keys : Option Keypair
  pub sha256 : String → String
  pub dumps_config : FirecrackerConfig → String
  pub dumps : JsonObject W → String
  -- json.dumps(…, indent=2)
  pub dumps_indented : JsonObject W → String

-- The set of ids of the gateway.
unfoldable pub registered : String → List String → Bool
registered id [] = false
registered id (x ∷ xs) = str_eq x id || registered id xs

unfoldable pub register : String → List String → List String
unfolding registered
register id xs = if registered id xs then xs else id ∷ xs

unfoldable pub unregister : String → List String → List String
unregister id [] = []
unregister id (x ∷ xs) = let rest = unregister id xs in if str_eq x id then rest else x ∷ rest

-- _prune_job_registry: above the limit, only the ids that the queue knows stay.
unfoldable pub keep_known : {W : Type 0} → Dict (Job W) → List String → List String
keep_known jobs [] = []
keep_known jobs (x ∷ xs) =
    let rest = keep_known jobs xs in if contains x jobs then x ∷ rest else rest

unfoldable pub prune_job_registry : {W : Type 0} → ℕ → Dict (Job W) → List String → List String
unfolding keep_known
prune_job_registry max_jobs jobs registry =
    if ltb max_jobs (length registry) then keep_known jobs registry else registry
