-- ===== src/Tunnel/Addresses.antt =====
-- The node addresses that `create_tunnel` (src/tunnel_manager.py) hands out.
use Prim.Native.Char.{code}
use Prim.Native.String
use text.Mathlib.TextLemmas.{append_cancel_left, append_cancel_right}
use swift_route.Prelude.{
  ℕ, zero, suc, ◌+◌, ◌-◌, ◌*◌, ◌/◌, ◌%◌, ◌≤◌, ◌<◌, String, ◌≡◌, ◌≢◌, refl, ap, sym, ◌∙◌, true,
  false, none, List, [], ◌∷◌, All, length, arith, ltb, Bool-cases, inl, inr,
}
use swift_route.Tunnel.{
  WireGuardTunnelManager, FreshTunnel, create_tunnel, digit_char, show_onto, show, node_address,
}

-- The number that decimal digits after `acc` stand for.
value : ℕ → String → ℕ
value acc String.[] = acc
value acc (String.◌∷◌ c s) = value (acc * 10 + (code c - 48)) s

code-digit_char : (d : ℕ) → d < 10 → code (digit_char d) - 48 ≡ d
code-digit_char zero h = refl
code-digit_char (suc zero) h = refl
code-digit_char (suc (suc zero)) h = refl
code-digit_char (suc (suc (suc zero))) h = refl
code-digit_char (suc (suc (suc (suc zero)))) h = refl
code-digit_char (suc (suc (suc (suc (suc zero))))) h = refl
code-digit_char (suc (suc (suc (suc (suc (suc zero)))))) h = refl
code-digit_char (suc (suc (suc (suc (suc (suc (suc zero))))))) h = refl
code-digit_char (suc (suc (suc (suc (suc (suc (suc (suc zero)))))))) h = refl
code-digit_char (suc (suc (suc (suc (suc (suc (suc (suc (suc n))))))))) h = omega arith

lt_of_ltb : (a b : ℕ) → ltb a b ≡ true → a < b
lt_of_ltb a b h = ground arith

ge_of_ltb : (a b : ℕ) → ltb a b ≡ false → b ≤ a
ge_of_ltb a b h = ground arith

value-show_onto :
    (fuel n : ℕ) (rest : String) → n < fuel → value 0 (show_onto fuel n rest) ≡ value n rest
unfolding value show_onto
value-show_onto zero n rest h = absurd (omega arith)
value-show_onto (suc fuel) n rest h = elim (Bool-cases (ltb n 10)) [
  | inl small ↦
      rw small (ap (λ k. value k rest) (omega (arith, code-digit_char n (lt_of_ltb n 10 small))))
  | inr large ↦ rw large (
      value-show_onto fuel (n / 10) (String.◌∷◌ (digit_char (n % 10)) rest)
        (omega (arith, ge_of_ltb n 10 large))
      ∙ ap (λ k. value k rest) (omega (arith, code-digit_char (n % 10) (omega arith))))
]

-- Printing a number loses nothing.
show_injective : (a b : ℕ) → show a ≡ show b → a ≡ b
unfolding show value
show_injective a b e =
    sym (value-show_onto (suc a) a "" (omega arith))
    ∙ ap (value 0) e
    ∙ value-show_onto (suc b) b "" (omega arith)

node_address_injective : (a b : ℕ) → node_address a ≡ node_address b → a ≡ b
unfolding node_address
node_address_injective a b e = show_injective a b (
    append_cancel_right (show a) (show b) "/24" (
      append_cancel_left "10.200.200." (String.◌++◌ (show a) "/24") (String.◌++◌ (show b) "/24") e))

-- Tunnels created one after the other, and their addresses.
unfoldable pub create_many :
    List FreshTunnel → WireGuardTunnelManager → WireGuardTunnelManager × List String
create_many [] m = (m, [])
create_many (t ∷ ts) m =
    let (m', cfg) = create_tunnel t none m in
    let (m'', ips) = create_many ts m' in (m'', cfg.node_ip ∷ ips)

-- The addresses of the hosts `first`, `first + 1`, …, as many as `count`.
unfoldable pub host_range : ℕ → ℕ → List String
host_range first zero = []
host_range first (suc count) = node_address first ∷ host_range (first + 1) count

abbrev pub Distinct : List String → Type 0
Distinct [] = Unit
Distinct (x ∷ xs) = All (λ y. x ≢ y) xs × Distinct xs

not-in-host_range :
    (n first count : ℕ) → n < first → All (λ y. node_address n ≢ y) (host_range first count)
unfolding host_range
not-in-host_range n first zero h = tt
not-in-host_range n first (suc count) h = (
  λ e. omega (arith, node_address_injective n first e),
  not-in-host_range n (first + 1) count (omega arith),
)

host_range-Distinct : (first count : ℕ) → Distinct (host_range first count)
unfolding host_range
host_range-Distinct first zero = tt
host_range-Distinct first (suc count) =
    (not-in-host_range first (first + 1) count (omega arith), host_range-Distinct (first + 1) count)

create_many-eq-host_range :
    (ts : List FreshTunnel) (m : WireGuardTunnelManager)
    → ((create_many ts m).1 ≡ host_range m.ip_counter (length ts))
      × ((create_many ts m).0.ip_counter ≡ m.ip_counter + length ts)
unfolding create_many create_tunnel host_range
create_many-eq-host_range [] m = (refl, omega arith)
create_many-eq-host_range (t ∷ ts) m =
    let m' = (create_tunnel t none m).0 in
    let (same, counted) = create_many-eq-host_range ts m' in
    (ap (λ l. node_address m.ip_counter ∷ l) same, omega (arith, counted))

-- Tunnels created one after the other without an address of their own get the addresses of
-- consecutive hosts, from the counter on, and no two get the same.
pub create_many-Distinct :
    (ts : List FreshTunnel) (m : WireGuardTunnelManager)
    → let (m', ips) = create_many ts m in
      (ips ≡ host_range m.ip_counter (length ts))
      × Distinct ips
      × (m'.ip_counter ≡ m.ip_counter + length ts)
create_many-Distinct ts m =
    let (same, counted) = create_many-eq-host_range ts m in
    (same, rw same (host_range-Distinct m.ip_counter (length ts)), counted)
