-- ===== src/Gateway/Payouts.antt =====
-- src/gateway.py: the creator's balance and its payouts, `creator_balance`, `connect_payout` and
-- `creator_payout`. The fresh id of a payout and the clock's readings are arguments.
pub mod Settled
use Prim.Native.String
use swift_route.Prelude.{String, Bool, true, false, not, Option, none, some, str_eq, if◌then◌else◌}
use swift_route.Prelude.Int.{ℤ}
use swift_route.Float.{Float, nought}
use swift_route.Config.{Settings}
use swift_route.Persistence.{Db}
use swift_route.Payments.Stripe.{to_cents}
use swift_route.Payments.Processor.{
  PaymentProcessor, mock, stripe, creator_balance, is_stripe, save_balances,
}
use swift_route.Gateway.{
  Answer, answer, refused, GatewayError, amount_not_positive, balance_too_low, stripe_missing,
  stripe_failed,
}

pub record ConnectPayoutRequest (W : Type 0) : Type 0 where
  pub stripe_account_id : String
  pub amount_usd : Option W

-- The parts of the answers; `destination` and `transfer_reversed` are in some of them only.
pub record Payout (W : Type 0) : Type 0 where
  pub payout_id : String
  pub amount_usd : W
  pub status : String
  pub method : String
  pub destination : Option String
  pub transfer_reversed : Option Bool

pub record BalanceAnswer (W : Type 0) : Type 0 where
  pub balance_usd : W
  pub payout_threshold_usd : W
  pub eligible_for_payout : Bool

-- stripe.Transfer.create with the cents and the destination: the transfer's id, or an exception.
pub record TransferApi : Type 0 where
  pub create_transfer : ℤ → String → Option String

module _ {W : Type 0} ⦃f : Float W⦄ where
  unfoldable pub balance_answer : Settings W → PaymentProcessor W → BalanceAnswer W
  unfolding creator_balance
  balance_answer settings p = record {
    balance_usd = creator_balance p;
    payout_threshold_usd = settings.payout_threshold_usd;
    eligible_for_payout = f.le settings.payout_threshold_usd (creator_balance p);
  }

  -- payment_proc._creator_balance -= amount
  abbrev pub debit : W → PaymentProcessor W → PaymentProcessor W
  debit amount (mock p) = mock (record p { creator_balance = f.sub p.creator_balance amount })
  debit amount (stripe p) = stripe (record p { creator_balance = f.sub p.creator_balance amount })

  abbrev pub mock_payout : String → W → String → Payout W
  mock_payout payout_id amount account = record {
    payout_id = payout_id;
    amount_usd = amount;
    status = "initiated";
    method = "mock_transfer";
    destination = some account;
    transfer_reversed = none;
  }

  abbrev pub stripe_payout : W → String → String → Payout W
  stripe_payout amount account transfer_id = record {
    payout_id = transfer_id;
    amount_usd = amount;
    status = "initiated";
    method = "stripe_connect_transfer";
    destination = some account;
    transfer_reversed = some false;
  }

  -- int(amount * 100), which may raise, and the transfer.
  unfoldable pub transfer : TransferApi → W → String → Option String
  unfolding to_cents
  transfer api amount account = elim (to_cents amount) [
    | none ↦ none
    | some cents ↦ api.create_transfer cents account
  ]

  -- The amount that is asked for, or else the whole balance.
  abbrev pub payout_amount : ConnectPayoutRequest W → W → W
  payout_amount req balance = elim req.amount_usd [ some amount ↦ amount | none ↦ balance ]

  -- `none` for the API is a Stripe library that is not installed.
  abbrev pub pay_by_stripe :
      Option TransferApi
      → String
      → W
      → String
      → PaymentProcessor W
      → Db W
      → PaymentProcessor W × Db W × Answer (Payout W)
  pay_by_stripe none now amount account p db = (p, db, refused stripe_missing)
  pay_by_stripe (some api) now amount account p db = elim (transfer api amount account) [
    | none ↦ (p, db, refused stripe_failed)
    | some id ↦ (p, save_balances now p db, answer (stripe_payout amount account id))
  ]

  unfoldable pub connect_payout :
      Settings W
      → Option TransferApi
      → String
      → String
      → ConnectPayoutRequest W
      → PaymentProcessor W
      → Db W
      → PaymentProcessor W × Db W × Answer (Payout W)
  unfolding creator_balance save_balances transfer
  connect_payout settings api now payout_id req p db =
      let balance = creator_balance p in
      let amount = payout_amount req balance in
      let p' = debit amount p in
      if f.le amount nought
      then (p, db, refused amount_not_positive)
      else if f.lt balance amount
      then (p, db, refused balance_too_low)
      else if not (is_stripe settings)
      then (
        p',
        save_balances now p' db,
        answer (mock_payout payout_id amount req.stripe_account_id),
      )
      else pay_by_stripe api now amount req.stripe_account_id p db

  unfoldable pub creator_payout :
      Settings W
      → String
      → String
      → PaymentProcessor W
      → Db W
      → PaymentProcessor W × Db W × Answer (Payout W)
  unfolding creator_balance save_balances
  creator_payout settings now payout_id p db =
      let balance = creator_balance p in
      let payout : Payout W = record {
        payout_id = payout_id;
        amount_usd = balance;
        status = "initiated";
        method =
            if str_eq settings.payment_mode "stripe" then "stripe_connect" else "mock_transfer";
        destination = none;
        transfer_reversed = none;
      } in
      if f.lt balance settings.payout_threshold_usd
      then (p, db, refused balance_too_low)
      else (p, save_balances now p db, answer payout)
