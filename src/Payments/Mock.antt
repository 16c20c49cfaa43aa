-- ===== src/Payments/Mock.antt =====
-- `MockPaymentProcessor` of src/payments.py. An operation returns the processor, the database and the
-- result.
use swift_route.Prelude.{String, none, some, []}
use swift_route.Prelude.Dict.{lookup, insert}
use swift_route.Float.{Float, nought, float_max}
use swift_route.Config.{Settings}
use swift_route.Persistence.{Db, get_balances, set_balances}
use swift_route.Payments.{
  PaymentResult, authorized, MockPaymentProcessor, fee_of, net_of, failed_result, refunded_result,
  captured_result, earned_of,
}

module _ {W : Type 0} ⦃f : Float W⦄ where
  -- __init__ and _load_balances
  unfoldable pub new_mock : Db W → MockPaymentProcessor W
  unfolding get_balances
  new_mock db =
      let (creator_balance, node_payout_usd) = get_balances db in
      record { ledger = []; creator_balance = creator_balance; node_payout_usd = node_payout_usd }

  -- _save_balances
  unfoldable pub mock_save : String → MockPaymentProcessor W → Db W → Db W
  unfolding set_balances
  mock_save now p db = set_balances p.creator_balance p.node_payout_usd now db

  -- `pid` is the fresh id, "mock_pay_…".
  unfoldable pub mock_authorize :
      Settings W → String → W → MockPaymentProcessor W → MockPaymentProcessor W × PaymentResult W
  unfolding net_of
  mock_authorize settings pid amount_usd p =
      let result : PaymentResult W = record {
        payment_id = pid;
        status = authorized;
        amount_usd = amount_usd;
        fee_usd = fee_of settings amount_usd;
        net_usd = net_of settings amount_usd;
      } in
      (record p { ledger = insert pid result p.ledger }, result)

  unfoldable pub mock_capture :
      Settings W
      → String
      → String
      → W
      → MockPaymentProcessor W
      → Db W
      → MockPaymentProcessor W × Db W × PaymentResult W
  unfolding captured_result earned_of net_of mock_save
  mock_capture settings now payment_id amount_usd p db =
      let taken = captured_result settings payment_id amount_usd in
      let p' = record p {
        ledger = insert payment_id taken p.ledger;
        creator_balance = f.add p.creator_balance (earned_of settings amount_usd);
        node_payout_usd = f.add p.node_payout_usd (net_of settings amount_usd);
      } in
      elim (lookup payment_id p.ledger) [
        | none ↦ (p, db, failed_result payment_id amount_usd)
        | some auth ↦ (p', mock_save now p' db, taken)
      ]

  unfoldable pub mock_refund :
      Settings W
      → String
      → String
      → W
      → MockPaymentProcessor W
      → Db W
      → MockPaymentProcessor W × Db W × PaymentResult W
  unfolding earned_of fee_of mock_save
  mock_refund settings now payment_id amount_usd p db =
      let result = refunded_result payment_id amount_usd in
      let paid_out = f.sub amount_usd (fee_of settings amount_usd) in
      let p' = record p {
        ledger = insert payment_id result p.ledger;
        creator_balance =
            float_max nought (f.sub p.creator_balance (earned_of settings amount_usd));
        node_payout_usd = float_max nought (f.sub p.node_payout_usd paid_out);
      } in
      elim (lookup payment_id p.ledger) [
        | none ↦ (p, db, failed_result payment_id amount_usd)
        | some auth ↦ (p', mock_save now p' db, result)
      ]
