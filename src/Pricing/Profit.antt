-- ===== src/Pricing/Profit.antt =====
-- When a route is profitable (src/pricing.py, `calculate_pricing`).
use swift_route.Prelude.{◌≡◌, true, arith}
use swift_route.Float.{Float, IsIeee, IsNum, ◌≼◌, ◌≺◌, nought}
use swift_route.Float.Order.{lt_of_not_le, lt_of_lt_of_le, not_le_of_lt, round_nonpos, round_nonneg}
use swift_route.Config.{Settings}
use swift_route.Pricing.{StateVector, calculate_fees, calculate_pricing}

-- The fee rate and the local cost are not negative.
pub record HasFees {W : Type 0} ⦃f : Float W⦄ (settings : Settings W) : Type 0 where
  pub rate_nonneg : nought ≼ settings.transaction_fee_rate
  pub local_nonneg : nought ≼ settings.local_compute_cost_usd

module _ {W : Type 0} ⦃f : Float W⦄ (laws : IsIeee W) where
  open laws use {
    num_of_lt, num_of_le, le_trans, sub_num, sub_mono, sub_nonpos, mul_nonneg, round_num,
    round_mono,
  }

  -- What is saved on a route, before and after the fee `e`.
  abbrev saved : W → W → W
  saved l r = f.round (f.sub l r) 2

  abbrev net : W → W → W → W
  net l r e = f.round (f.sub (saved l r) e) 2

  -- The parts of a rounded difference are numbers if it is one.
  net-IsNum :
      (l r e : W)
      → IsNum (net l r e)
      → IsNum (f.sub l r) × IsNum (f.sub (saved l r) e) × IsNum l × IsNum r × IsNum e
  net-IsNum l r e h =
      let outer = round_num (f.sub (saved l r) e) 2 h in
      let inner = round_num (f.sub l r) 2 (sub_num (saved l r) e outer).0 in
      (inner, outer, (sub_num l r inner).0, (sub_num l r inner).1, (sub_num (saved l r) e outer).1)

  net_nonpos : (l r e : W) → nought ≼ e → l ≼ r → IsNum (net l r e) → net l r e ≼ nought
  net_nonpos l r e he h n =
      let (inner, outer, _, _, _) = net-IsNum l r e n in
      let s = round_nonpos laws (f.sub l r) (sub_nonpos l r h inner) in
      round_nonpos laws (f.sub (saved l r) e)
        (sub_nonpos (saved l r) e (le_trans (saved l r) nought e s he) outer)

  net_antitone :
      (l r r' e : W) → r' ≼ r → IsNum (net l r e) → IsNum (net l r' e) → net l r e ≼ net l r' e
  net_antitone l r r' e h n n' =
      let (inner, outer, nl, _, ne) = net-IsNum l r e n in
      let (inner', outer', _, _, _) = net-IsNum l r' e n' in
      round_mono (f.sub (saved l r) e) (f.sub (saved l r') e) 2 (
        sub_mono (saved l r) (saved l r') e e
          (round_mono (f.sub l r) (f.sub l r') 2 (sub_mono l l r r' nl h inner inner')) ne outer
          outer')

  fee_nonneg :
      (settings : Settings W)
      → HasFees settings
      → IsNum (calculate_fees settings settings.local_compute_cost_usd).compute_cost_usd
      → nought ≼ (calculate_fees settings settings.local_compute_cost_usd).compute_cost_usd
  unfolding calculate_fees
  fee_nonneg settings h n =
      let product = f.mul settings.local_compute_cost_usd settings.transaction_fee_rate in
      round_nonneg laws product (
        mul_nonneg settings.local_compute_cost_usd settings.transaction_fee_rate h.local_nonneg
          h.rate_nonneg (round_num product 2 n))

  -- With a fee rate and a local cost that are not negative, a route that is found profitable costs
  -- strictly less than the local baseline.
  pub profitable_cheaper :
      (settings : Settings W) (remote : StateVector W)
      → HasFees settings
      → (calculate_pricing settings remote).is_profitable ≡ true
      → remote.compute_cost_usd ≺ settings.local_compute_cost_usd
  unfolding calculate_pricing
  profitable_cheaper settings remote h p =
      let l = settings.local_compute_cost_usd in
      let r = remote.compute_cost_usd in
      let e = (calculate_fees settings l).compute_cost_usd in
      let gain : nought ≺ net l r e = ground arith in
      let n = (num_of_lt nought (net l r e) gain).1 in
      let (_, _, nl, nr, ne) = net-IsNum l r e n in
      lt_of_not_le laws r l nr nl λ k.
        not_le_of_lt laws nought (net l r e) gain (net_nonpos l r e (fee_nonneg settings h ne) k n)

  -- A route that costs no more than a profitable one is profitable too, if its own net cost is a
  -- number.
  pub profitable_antitone :
      (settings : Settings W) (remote remote' : StateVector W)
      → remote'.compute_cost_usd ≼ remote.compute_cost_usd
      → IsNum (calculate_pricing settings remote').delta_net.compute_cost_usd
      → (calculate_pricing settings remote).is_profitable ≡ true
      → (calculate_pricing settings remote').is_profitable ≡ true
  unfolding calculate_pricing
  profitable_antitone settings remote remote' h n' p =
      let l = settings.local_compute_cost_usd in
      let e = (calculate_fees settings l).compute_cost_usd in
      let better = net l remote.compute_cost_usd e in
      let gain : nought ≺ better = ground arith in
      let n = (num_of_lt nought better gain).1 in
      let less = net_antitone l remote.compute_cost_usd remote'.compute_cost_usd e h n n' in
      ground (arith, lt_of_lt_of_le laws nought better (net l remote'.compute_cost_usd e) gain less)
