-- ===== src/Payments/Refunds.antt =====
-- What a refund of the in-memory processor (src/payments.py) does to the creator's balance.
use swift_route.Prelude.{String, ◌≡◌, refl, none, some, arith}
use swift_route.Prelude.Dict.{lookup, lookup-insert_self}
use swift_route.Float.{Float, nought, float_max}
use swift_route.Config.{Settings}
use swift_route.Persistence.{Db}
use swift_route.Payments.{
  MockPaymentProcessor, refunded, PaymentResult, refunded_result, failed_result, earned_of,
}
use swift_route.Payments.Mock.{mock_authorize, mock_capture, mock_refund}

module _ {W : Type 0} ⦃f : Float W⦄ (settings : Settings W) (now id : String) (amount_usd : W) where
  -- A payment that is not in the ledger is neither captured nor refunded: both calls answer "failed"
  -- and leave the processor and the database alone.
  unknown_payment :
      (p : MockPaymentProcessor W) (db : Db W)
      → lookup id p.ledger ≡ none
      → (mock_capture settings now id amount_usd p db ≡ (p, db, failed_result id amount_usd))
        × (mock_refund settings now id amount_usd p db ≡ (p, db, failed_result id amount_usd))
  unfolding mock_capture mock_refund
  unknown_payment p db h = ground arith

  refund_known :
      (auth : PaymentResult W) (p : MockPaymentProcessor W) (db : Db W)
      → lookup id p.ledger ≡ some auth
      → let (p', _, r) = mock_refund settings now id amount_usd p db in
        (r.status ≡ refunded)
        × (p'.creator_balance
            ≡ float_max nought (f.sub p.creator_balance (earned_of settings amount_usd)))
        × (lookup id p'.ledger ≡ some (refunded_result id amount_usd))
  unfolding mock_refund
  refund_known auth p db h =
      ground (arith, lookup-insert_self id (refunded_result id amount_usd) p.ledger)

  -- A payment that was authorized and never captured earns nothing, and its refund still takes the
  -- fee and the mint fee from the creator's balance; a second refund takes them once more.
  pub refund_without_capture :
      (p : MockPaymentProcessor W) (db : Db W)
      → let (p₁, _) = mock_authorize settings id amount_usd p in
        let (p₂, db₂, r₂) = mock_refund settings now id amount_usd p₁ db in
        let (p₃, _, r₃) = mock_refund settings now id amount_usd p₂ db₂ in
        let earned = earned_of settings amount_usd in
        (p₁.creator_balance ≡ p.creator_balance)
        × (r₂.status ≡ refunded)
        × (p₂.creator_balance ≡ float_max nought (f.sub p.creator_balance earned))
        × (r₃.status ≡ refunded)
        × (p₃.creator_balance ≡ float_max nought (f.sub p₂.creator_balance earned))
  unfolding mock_authorize
  refund_without_capture p db =
      let (p₁, auth) = mock_authorize settings id amount_usd p in
      let (p₂, db₂, _) = mock_refund settings now id amount_usd p₁ db in
      let (first, paid, kept) = refund_known auth p₁ db (lookup-insert_self id auth p.ledger) in
      let (second, again, _) = refund_known (refunded_result id amount_usd) p₂ db₂ kept in
      (refl, first, paid, second, again)
