-- ===== src/Tests/Data.antt =====
-- The data of the tests.
use Prim.Native.String
use text.Mathlib.TextPositions.{eq_refl}
use swift_route.Prelude.{str_eq, true, false, none, some, [], ◌∷◌}
use swift_route.Prelude.Int.{ℤ, pos}
use swift_route.Fixed.{fixed_float}
use swift_route.Config.{Settings, default_settings}
use swift_route.Persistence.{Db, BalanceRow}
use swift_route.Payments.{StripeApi}
use swift_route.Payments.Processor.{PaymentProcessor, mock}
use swift_route.Host.{Host, exit_ok}
use swift_route.Router.{Zone, HttpClient, http_error}
use swift_route.Tunnel.{FreshTunnel, TunnelConfig, new_tunnel_manager}
use swift_route.Vm.{fresh_vm, new_vm_manager}
use swift_route.Receipts.{Keypair, IsKeypair}
use swift_route.JobQueue.Jobs.{Job, new_job, frozen}
use swift_route.JobQueue.World.{World, Env, idle, before_execution, parked}

abbrev pub settings : Settings ℤ
settings = default_settings

abbrev pub real_host : Host
real_host = record {
  writable = λ _. true;
  wg_quick = λ _ _. exit_ok;
  temp_dir = "/tmp";
  which_firecracker = none;
  project_bin = none;
  popen = λ _ _ _. some 7;
}

abbrev pub stripe_api : StripeApi
stripe_api = record {
  create_intent = λ _ _ _. some ("pi_1", "requires_capture");
  capture_intent = λ _ _. true;
  create_refund = λ _ _. true;
}

abbrev pub http : HttpClient ℤ
http = record { get = λ _ _. http_error }

-- The best of the zones that the router falls back to.
abbrev pub hydro : Zone ℤ
hydro = record {
  id = "ca-hydro-03";
  name = "Quebec Hydro Overflow";
  region = "ca-east";
  compute_cost_usd_per_kwh = fixed_float.decimal 25 3;
  carbon_g_per_kwh = fixed_float.decimal 80 1;
  tax_credit_usd_per_kwh = fixed_float.decimal 15 3;
  available_mw = fixed_float.decimal 12000 1;
  lat = fixed_float.decimal 520 1;
  lon = fixed_float.neg (fixed_float.decimal 720 1);
}

abbrev pub fresh_tunnel : FreshTunnel
fresh_tunnel = record {
  tunnel_id = "t-1";
  gateway_private_key = "gsk";
  gateway_public_key = "gpk";
  node_private_key = "nsk";
  node_public_key = "npk";
}

-- A signature is the payload with a prefix.
abbrev pub keys : Keypair
keys = record { sign = λ p. String.◌++◌ "ed:" p; check = λ s p. str_eq s (String.◌++◌ "ed:" p) }

abbrev pub keys-IsKeypair : IsKeypair keys
keys-IsKeypair = record { check-sign = λ payload. eq_refl (String.◌++◌ "ed:" payload) }

abbrev pub env : Env ℤ
env = record {
  settings = settings;
  now = "2026-01-02T10:00:00";
  host = real_host;
  api = stripe_api;
  http = http;
  fresh_tunnel = fresh_tunnel;
  vm_id = "vm-1";
  receipt_id = "r-1";
  keys = some keys;
  sha256 = λ s. s;
  dumps_config = λ _. "config";
  dumps = λ _. "json";
  dumps_indented = λ _. "json";
}

abbrev pub first_balances : BalanceRow ℤ
first_balances = record { creator_balance = pos 0; node_payout_usd = pos 0; updated_at = "" }

abbrev pub db : Db ℤ
db = record { balances = some first_balances; jobs = []; receipts = [] }

abbrev pub processor : PaymentProcessor ℤ
processor = mock (record { ledger = []; creator_balance = pos 0; node_payout_usd = pos 0 })

abbrev pub world : World ℤ
world = record {
  jobs = record { queue = []; jobs = [] };
  db = db;
  registry = [];
  payment = processor;
  vms = some (new_vm_manager "/opt/sap/vmlinux" "/opt/sap/rootfs.ext4" "mock");
  tunnels = some (new_tunnel_manager "/etc/wireguard/sap0.conf");
  files = [];
  phase = idle;
}

abbrev pub job : Job ℤ
job = new_job "j-1" "ZWNobyBoaQ==" "ca-hydro-03" "Quebec Hydro Overflow" "pay-1" (pos 440_000)

abbrev pub frozen_job : Job ℤ
frozen_job = record job { status = frozen; freeze_event = false }

abbrev pub tunnel : TunnelConfig
tunnel = record {
  tunnel_id = "t-1";
  gateway_private_key = "gsk";
  gateway_public_key = "gpk";
  node_private_key = "nsk";
  node_public_key = "npk";
  gateway_endpoint = "sap-gw.example.com:51820";
  node_ip = "10.200.200.2/24";
  gateway_ip = "10.200.200.1/24";
  listen_port = 51820;
  allowed_ips = "0.0.0.0/0";
  config_file_path = none;
}

-- The worker waits for the frozen job, whose tunnel and VM stand.
abbrev pub frozen_world : World ℤ
frozen_world = record world {
  jobs = record { queue = []; jobs = ("j-1", frozen_job) ∷ [] };
  phase = before_execution "j-1" (fresh_vm real_host "vm-1") tunnel parked;
}
