-- ===== src/Payments.antt =====
-- src/payments.py: the in-memory processor and the one for Stripe. Both keep the creator's balance and
-- the nodes' payout in memory and write them to the database, which is passed along. Calls of the
-- Stripe library, the fresh payment ids and the clock's readings are arguments.
pub mod Mock
pub mod Stripe
pub mod Processor
pub mod Balances
pub mod Credits
pub mod Refunds
use swift_route.Prelude.{
  String, Bool, true, false, Option, none, some, List, [], ◌||◌, not, ◌&&◌, str_eq, if◌then◌else◌,
}
use swift_route.Prelude.Int.{ℤ}
use swift_route.Prelude.Dict.{Dict, lookup, insert}
use swift_route.Float.{Float, nought, float_max}
use swift_route.Config.{Settings}
use swift_route.Persistence.{Db, get_balances, set_balances}

pub data PaymentStatus : Type 0 where
  authorized captured failed refunded : PaymentStatus

pub record PaymentResult (W : Type 0) : Type 0 where
  pub payment_id : String
  pub status : PaymentStatus
  pub amount_usd : W
  pub fee_usd : W
  pub net_usd : W

pub record MockPaymentProcessor (W : Type 0) : Type 0 where
  pub ledger : Dict (PaymentResult W)
  pub creator_balance : W
  pub node_payout_usd : W

pub record StripePaymentProcessor (W : Type 0) : Type 0 where
  pub secret_key : String
  pub creator_balance : W
  pub node_payout_usd : W

-- The calls of the Stripe library; `none`, or `false`, is an exception. An intent is returned as its
-- id and its status.
pub record StripeApi : Type 0 where
  pub create_intent : ℤ → String → Option String → Option (String × String)
  pub capture_intent : String → ℤ → Bool
  pub create_refund : String → ℤ → Bool

module _ {W : Type 0} ⦃f : Float W⦄ where
  -- The fee of `authorize`, `capture` and `refund`.
  unfoldable pub fee_of : Settings W → W → W
  fee_of settings amount_usd = f.round (f.mul amount_usd settings.transaction_fee_rate) 2

  unfoldable pub net_of : Settings W → W → W
  unfolding fee_of
  net_of settings amount_usd = f.round (f.sub amount_usd (fee_of settings amount_usd)) 2

  -- The result of a call that did nothing.
  abbrev pub failed_result : String → W → PaymentResult W
  failed_result payment_id amount_usd = record {
    payment_id = payment_id;
    status = failed;
    amount_usd = amount_usd;
    fee_usd = nought;
    net_usd = nought;
  }

  abbrev pub refunded_result : String → W → PaymentResult W
  refunded_result payment_id amount_usd = record {
    payment_id = payment_id;
    status = refunded;
    amount_usd = amount_usd;
    fee_usd = nought;
    net_usd = amount_usd;
  }

  unfoldable pub captured_result : Settings W → String → W → PaymentResult W
  unfolding net_of
  captured_result settings payment_id amount_usd = record {
    payment_id = payment_id;
    status = captured;
    amount_usd = amount_usd;
    fee_usd = fee_of settings amount_usd;
    net_usd = net_of settings amount_usd;
  }

  -- What a captured payment earns the creator.
  unfoldable pub earned_of : Settings W → W → W
  unfolding fee_of
  earned_of settings amount_usd = f.add (fee_of settings amount_usd) settings.signature_mint_fee_usd
