-- ===== src/Tunnel.antt =====
-- src/tunnel_manager.py: the WireGuard tunnels, their addresses and their configuration files. The
-- fresh id and the fresh keys of a tunnel are arguments.
pub mod Addresses
pub mod Teardown
use swift_route.Prelude.{
  ℕ, zero, suc, ◌+◌, ◌/◌, ◌%◌, String, Bool, true, false, Option, none, some, List, [], ◌∷◌, map,
  ltb, if◌then◌else◌,
}
use Prim.Native.Char.{Char}
use Prim.Native.String
use swift_route.Prelude.Dict.{Dict, insert, erase}
use swift_route.Host.{Host, Files, Run, not_found, exit_error, exit_ok, ◌++◌, sibling}

pub record TunnelConfig : Type 0 where
  pub tunnel_id : String
  pub gateway_private_key : String
  pub gateway_public_key : String
  pub node_private_key : String
  pub node_public_key : String
  pub gateway_endpoint : String
  pub node_ip : String
  pub gateway_ip : String
  pub listen_port : ℕ
  pub allowed_ips : String
  pub config_file_path : Option String

pub record WireGuardTunnelManager : Type 0 where
  pub config_path : String
  pub tunnels : Dict TunnelConfig
  pub ip_counter : ℕ

-- str(uuid.uuid4()) and two results of `_generate_keypair`.
pub record FreshTunnel : Type 0 where
  pub tunnel_id : String
  pub gateway_private_key : String
  pub gateway_public_key : String
  pub node_private_key : String
  pub node_public_key : String

abbrev pub new_tunnel_manager : String → WireGuardTunnelManager
new_tunnel_manager config_path = record { config_path = config_path; tunnels = []; ip_counter = 2 }

abbrev pub digit_char : ℕ → Char
digit_char zero = "0"
digit_char (suc zero) = "1"
digit_char (suc (suc zero)) = "2"
digit_char (suc (suc (suc zero))) = "3"
digit_char (suc (suc (suc (suc zero)))) = "4"
digit_char (suc (suc (suc (suc (suc zero))))) = "5"
digit_char (suc (suc (suc (suc (suc (suc zero)))))) = "6"
digit_char (suc (suc (suc (suc (suc (suc (suc zero))))))) = "7"
digit_char (suc (suc (suc (suc (suc (suc (suc (suc zero)))))))) = "8"
digit_char _ = "9"

-- The decimal digits of a number before a text; the fuel n + 1 is enough for n.
unfoldable pub show_onto : ℕ → ℕ → String → String
show_onto zero n rest = rest
show_onto (suc fuel) n rest =
    let more = show_onto fuel (n / 10) (String.◌∷◌ (digit_char (n % 10)) rest) in
    if ltb n 10 then String.◌∷◌ (digit_char n) rest else more

-- f"{n}"
unfoldable pub show : ℕ → String
unfolding show_onto
show n = show_onto (suc n) n ""

-- f"10.200.200.{n}/24"
unfoldable pub node_address : ℕ → String
unfolding show
node_address n = "10.200.200." ++ show n ++ "/24"

unfoldable pub create_tunnel :
    FreshTunnel → Option String → WireGuardTunnelManager → WireGuardTunnelManager × TunnelConfig
unfolding node_address
create_tunnel fresh node_ip m =
    let ip : String = elim node_ip [ none ↦ node_address m.ip_counter | some given ↦ given ] in
    let counter : ℕ = elim node_ip [ none ↦ m.ip_counter + 1 | some given ↦ m.ip_counter ] in
    let cfg : TunnelConfig = record {
      tunnel_id = fresh.tunnel_id;
      gateway_private_key = fresh.gateway_private_key;
      gateway_public_key = fresh.gateway_public_key;
      node_private_key = fresh.node_private_key;
      node_public_key = fresh.node_public_key;
      gateway_endpoint = "sap-gw.example.com:51820";
      node_ip = ip;
      gateway_ip = "10.200.200.1/24";
      listen_port = 51820;
      allowed_ips = "0.0.0.0/0";
      config_file_path = none;
    } in
    (record m { tunnels = insert fresh.tunnel_id cfg m.tunnels; ip_counter = counter }, cfg)

-- self.config_path.parent / f"sap_{cfg.tunnel_id}.conf"
abbrev pub default_file : WireGuardTunnelManager → TunnelConfig → String
default_file m cfg = sibling m.config_path ("sap_" ++ cfg.tunnel_id ++ ".conf")

abbrev pub newline : String
newline = "\n"

unfoldable pub wg_conf : TunnelConfig → String
unfolding show
wg_conf cfg =
    "[Interface]"
    ++ newline
    ++ "PrivateKey = "
    ++ cfg.node_private_key
    ++ newline
    ++ "Address = "
    ++ cfg.node_ip
    ++ newline
    ++ "ListenPort = "
    ++ show cfg.listen_port
    ++ newline
    ++ newline
    ++ "[Peer]"
    ++ newline
    ++ "PublicKey = "
    ++ cfg.gateway_public_key
    ++ newline
    ++ "AllowedIPs = "
    ++ cfg.allowed_ips
    ++ newline
    ++ "Endpoint = "
    ++ cfg.gateway_endpoint
    ++ newline
    ++ "PersistentKeepalive = 25"
    ++ newline

-- `none` is an OSError of `mkdir` or `write_text`.
unfoldable pub write_config :
    Host
    → TunnelConfig
    → Option String
    → WireGuardTunnelManager
    → Files
    → Option (Files × TunnelConfig)
unfolding wg_conf
write_config host cfg path m files =
    let target : String = elim path [ some p ↦ p | none ↦ default_file m cfg ] in
    if host.writable target
    then some (insert target (wg_conf cfg) files, record cfg { config_file_path = some target })
    else none

-- The message of a `TunnelManagerError`, or an OSError of `write_config`.
pub data TunnelError : Type 0 where
  wg_not_found : TunnelError
  bring_up_failed : String → TunnelError
  not_written : TunnelError

pub data BroughtUp : Type 0 where
  up : TunnelConfig → BroughtUp
  tunnel_error : TunnelError → BroughtUp

abbrev pub brought_up : TunnelConfig → Run → BroughtUp
brought_up cfg not_found = tunnel_error wg_not_found
brought_up cfg (exit_error stderr) = tunnel_error (bring_up_failed stderr)
brought_up cfg exit_ok = up cfg

abbrev pub written_file : WireGuardTunnelManager → TunnelConfig → String
written_file m cfg = elim cfg.config_file_path [ some p ↦ p | none ↦ default_file m cfg ]

unfoldable pub bring_up : Host → TunnelConfig → WireGuardTunnelManager → Files → Files × BroughtUp
unfolding write_config
bring_up host cfg m files = elim (write_config host cfg none m files) [
  | none ↦ (files, tunnel_error not_written)
  | some (files', cfg') ↦ (files', brought_up cfg' (host.wg_quick "up" (written_file m cfg')))
]

-- The answer of `wg-quick down` is not looked at.
unfoldable pub tear_down :
    TunnelConfig → WireGuardTunnelManager → Files → WireGuardTunnelManager × Files
tear_down cfg m files =
    (record m { tunnels = erase cfg.tunnel_id m.tunnels }, erase (written_file m cfg) files)

-- for cfg in …: self.tear_down(cfg)
unfoldable pub tear_down_each :
    List (String × TunnelConfig) → WireGuardTunnelManager → Files → WireGuardTunnelManager × Files
unfolding tear_down
tear_down_each [] m files = (m, files)
tear_down_each ((k, cfg) ∷ rest) m files =
    let (m', files') = tear_down cfg m files in tear_down_each rest m' files'

unfoldable pub teardown_all : WireGuardTunnelManager → Files → WireGuardTunnelManager × Files
unfolding tear_down_each
teardown_all m files = tear_down_each m.tunnels m files
