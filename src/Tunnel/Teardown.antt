-- ===== src/Tunnel/Teardown.antt =====
-- What tearing down every tunnel (src/tunnel_manager.py) leaves behind.
use swift_route.Prelude.{
  String, Bool, false, ◌≡◌, refl, Option, none, [], ◌∷◌, ◌||◌, All, arith, str_eq, if◌then◌else◌,
}
use swift_route.Prelude.Dict.{Dict, lookup, insert, lookup-erase}
use swift_route.Host.{Files}
use swift_route.Tunnel.{
  TunnelConfig, WireGuardTunnelManager, FreshTunnel, create_tunnel, written_file, tear_down,
  tear_down_each, teardown_all,
}

-- A tunnel is kept under its own id.
abbrev pub IsKeyed : Dict TunnelConfig → Type 0
IsKeyed = All λ e. e.0 ≡ e.1.tunnel_id

-- Whether some tunnel of the list has the id, and whether it has the file.
unfoldable pub has_id : String → Dict TunnelConfig → Bool
has_id k [] = false
has_id k ((_, cfg) ∷ d) = str_eq cfg.tunnel_id k || has_id k d

unfoldable pub has_file : WireGuardTunnelManager → String → Dict TunnelConfig → Bool
has_file m path [] = false
has_file m path ((_, cfg) ∷ d) = str_eq (written_file m cfg) path || has_file m path d

insert-IsKeyed :
    (k : String) (cfg : TunnelConfig) (d : Dict TunnelConfig)
    → k ≡ cfg.tunnel_id
    → IsKeyed d
    → IsKeyed (insert k cfg d)
unfolding insert
insert-IsKeyed k cfg [] e h = (e, tt)
insert-IsKeyed k cfg ((j, c) ∷ d) e h = ground (arith, insert-IsKeyed k cfg d e h.1)

-- Creating a tunnel keeps every tunnel under its own id.
pub create_tunnel-IsKeyed :
    (fresh : FreshTunnel) (node_ip : Option String) (m : WireGuardTunnelManager)
    → IsKeyed m.tunnels
    → IsKeyed (create_tunnel fresh node_ip m).0.tunnels
unfolding create_tunnel
create_tunnel-IsKeyed fresh node_ip m h =
    insert-IsKeyed fresh.tunnel_id (create_tunnel fresh node_ip m).1 m.tunnels refl h

lookup-has_id :
    (k : String) (d : Dict TunnelConfig) → IsKeyed d → has_id k d ≡ false → lookup k d ≡ none
unfolding has_id lookup
lookup-has_id k [] h e = refl
lookup-has_id k ((j, cfg) ∷ d) h e = ground (arith, lookup-has_id k d h.1)

lookup-tear_down_each :
    (k : String) (d : Dict TunnelConfig) (m : WireGuardTunnelManager) (files : Files)
    → lookup k (tear_down_each d m files).0.tunnels
      ≡ (if has_id k d then none else lookup k m.tunnels)
unfolding tear_down_each has_id
lookup-tear_down_each k [] m files = refl
lookup-tear_down_each k ((j, cfg) ∷ d) m files =
    let (m', files') = tear_down cfg m files in
    ground (arith, lookup-tear_down_each k d m' files', lookup-erase cfg.tunnel_id k m.tunnels)

files-tear_down_each :
    (path : String) (d : Dict TunnelConfig) (m : WireGuardTunnelManager) (files : Files)
    → lookup path (tear_down_each d m files).1
      ≡ (if has_file m path d then none else lookup path files)
unfolding tear_down_each has_file
files-tear_down_each path [] m files = refl
files-tear_down_each path ((j, cfg) ∷ d) m files =
    let (m', files') = tear_down cfg m files in
    ground
      (arith, files-tear_down_each path d m' files', lookup-erase (written_file m cfg) path files)

-- Where tunnels are kept under their ids, `teardown_all` leaves no tunnel; a file is gone if it is the
-- configuration file of one of the tunnels, and is as it was otherwise.
pub teardown_all_effect :
    (m : WireGuardTunnelManager) (files : Files)
    → IsKeyed m.tunnels
    → let (m', files') = teardown_all m files in
      ((id : String) → lookup id m'.tunnels ≡ none)
      × ((path : String)
          → lookup path files' ≡ (if has_file m path m.tunnels then none else lookup path files))
unfolding teardown_all
teardown_all_effect m files keyed = (
  λ id.
      ground (arith, lookup-tear_down_each id m.tunnels m files, lookup-has_id id m.tunnels keyed),
  λ path. files-tear_down_each path m.tunnels m files,
)
