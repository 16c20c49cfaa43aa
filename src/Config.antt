-- ===== src/Config.antt =====
-- src/config.py: the settings, and the values that they have when nothing overrides them.
use swift_route.Prelude.{ℕ, String, Bool, true}
use swift_route.Float.{Float}

pub record Settings (W : Type 0) : Type 0 where
  pub host : String
  pub port : ℕ
  pub log_level : String
  pub transaction_fee_rate : W
  pub signature_mint_fee_usd : W
  pub local_compute_cost_usd : W
  pub local_carbon_g : W
  pub local_tax_value_usd : W
  pub grid_api_url : String
  pub grid_api_key : String
  pub vm_mode : String
  pub vm_kernel_path : String
  pub vm_rootfs_path : String
  pub wireguard_config_path : String
  pub sge_enabled : Bool
  pub sge_peak_threshold_usd_per_mwh : W
  pub sge_pause_minutes : ℕ
  pub receipt_private_key_path : String
  pub receipt_public_key_path : String
  pub db_path : String
  pub job_max_age_seconds : ℕ
  pub rate_limit_max_entries : ℕ
  pub payment_mode : String
  pub stripe_secret_key : String
  pub stripe_webhook_secret : String
  pub payout_threshold_usd : W

abbrev pub default_settings : {W : Type 0} ⦃f : Float W⦄ → Settings W
default_settings ⦃f⦄ = record {
  host = "0.0.0.0";
  port = 8000;
  log_level = "info";
  transaction_fee_rate = f.decimal 4 2;
  signature_mint_fee_usd = f.decimal 5 2;
  local_compute_cost_usd = f.decimal 350 2;
  local_carbon_g = f.decimal 45000 1;
  local_tax_value_usd = f.decimal 0 2;
  grid_api_url = "https://api.example-grid.com/v1";
  grid_api_key = "";
  vm_mode = "mock";
  vm_kernel_path = "/opt/sap/vmlinux";
  vm_rootfs_path = "/opt/sap/rootfs.ext4";
  wireguard_config_path = "/etc/wireguard/sap0.conf";
  sge_enabled = true;
  sge_peak_threshold_usd_per_mwh = f.decimal 5000 0;
  sge_pause_minutes = 15;
  receipt_private_key_path = "./data/receipt_private.pem";
  receipt_public_key_path = "./data/receipt_public.pem";
  db_path = "./data/sap.db";
  job_max_age_seconds = 86400;
  rate_limit_max_entries = 10000;
  payment_mode = "mock";
  stripe_secret_key = "";
  stripe_webhook_secret = "";
  payout_threshold_usd = f.decimal 10 0;
}
