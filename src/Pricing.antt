-- ===== src/Pricing.antt =====
-- src/pricing.py: the state vector, the protocol fees and the net delta of a job.
pub mod Profit
use swift_route.Prelude.{Bool, ◌&&◌}
use swift_route.Float.{Float, nought}
use swift_route.Config.{Settings}

pub record StateVector (W : Type 0) : Type 0 where
  pub compute_cost_usd : W
  pub carbon_g : W
  pub tax_value_usd : W

pub record PricingResult (W : Type 0) : Type 0 where
  pub v_local : StateVector W
  pub v_remote : StateVector W
  pub v_fees : StateVector W
  pub delta_net : StateVector W
  pub creator_yield_usd : W
  pub client_net_value_usd : W
  pub is_profitable : Bool

module _ {W : Type 0} ⦃f : Float W⦄ where
  -- `StateVector.__sub__`
  unfoldable pub minus : StateVector W → StateVector W → StateVector W
  minus a b = record {
    compute_cost_usd = f.round (f.sub a.compute_cost_usd b.compute_cost_usd) 2;
    carbon_g = f.round (f.sub a.carbon_g b.carbon_g) 1;
    tax_value_usd = f.round (f.sub a.tax_value_usd b.tax_value_usd) 2;
  }

  unfoldable pub total_optimized_value : StateVector W → W
  total_optimized_value v = f.add v.compute_cost_usd v.tax_value_usd

  unfoldable pub calculate_fees : Settings W → W → StateVector W
  calculate_fees settings compute_cost =
      let transaction_fee = f.mul compute_cost settings.transaction_fee_rate in
      record {
        compute_cost_usd = f.round transaction_fee 2;
        carbon_g = nought;
        tax_value_usd = f.neg settings.signature_mint_fee_usd;
      }

  -- The baseline that `calculate_pricing` compares with.
  unfoldable pub local_state : Settings W → StateVector W
  local_state settings = record {
    compute_cost_usd = settings.local_compute_cost_usd;
    carbon_g = settings.local_carbon_g;
    tax_value_usd = settings.local_tax_value_usd;
  }

  unfoldable pub calculate_pricing : Settings W → StateVector W → PricingResult W
  unfolding minus total_optimized_value calculate_fees local_state
  calculate_pricing settings remote_state =
      let v_local = local_state settings in
      let v_fees = calculate_fees settings settings.local_compute_cost_usd in
      let delta_net = minus (minus v_local remote_state) v_fees in
      let creator_yield = f.round (f.add v_fees.compute_cost_usd (f.abs v_fees.tax_value_usd)) 2 in
      record {
        v_local = v_local;
        v_remote = remote_state;
        v_fees = v_fees;
        delta_net = delta_net;
        creator_yield_usd = creator_yield;
        client_net_value_usd = f.round (total_optimized_value delta_net) 2;
        is_profitable = f.lt nought delta_net.compute_cost_usd && f.lt nought creator_yield;
      }
