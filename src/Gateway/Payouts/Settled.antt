-- ===== src/Gateway/Payouts/Settled.antt =====
-- The creator's balance over a payout (src/gateway.py, `connect_payout`).
use swift_route.Prelude.{String, false, ◌≡◌, Option, none, some, arith}
use swift_route.Float.{Float, IsIeee, IsNum, IsFinite, ◌≼◌, nought}
use swift_route.Float.Order.{le_of_not_lt, nought-IsNum}
use swift_route.Config.{Settings}
use swift_route.Persistence.{Db, get_balances}
use swift_route.Payments.Processor.{
  PaymentProcessor, mock, stripe, held_balance, held_payout, creator_balance, is_stripe,
  save_balances,
}
use swift_route.Payments.Balances.{IsSettled}
use swift_route.Gateway.Payouts.{
  ConnectPayoutRequest, TransferApi, connect_payout, debit, payout_amount, pay_by_stripe,
}

module _ {W : Type 0} ⦃f : Float W⦄ (laws : IsIeee W) where
  open laws use {num_of_le, num_of_lt, le_total, sub_num, sub_nonneg, sub_finite, finite_between}

  -- A processor that is saved is settled, if its balances are not negative and there is a row.
  save-IsSettled :
      (now : String) (p q : PaymentProcessor W) (db : Db W)
      → IsSettled q db
      → nought ≼ held_balance p
      → nought ≼ held_payout p
      → IsSettled p (save_balances now p db)
  unfolding save_balances get_balances
  save-IsSettled now (mock p) q db h a b = ground arith
  save-IsSettled now (stripe p) q db h a b = ground arith

  le_of_not_le : (x y : W) → IsNum x → IsNum y → f.le y x ≡ false → x ≼ y
  le_of_not_le x y nx ny h = ground (arith, le_total x y nx ny)

  paid-IsSettled :
      (api : Option TransferApi) (now : String) (amount : W) (account : String)
      (p : PaymentProcessor W) (db : Db W)
      → IsSettled p db
      → let (p', db', _) = pay_by_stripe api now amount account p db in IsSettled p' db'
  paid-IsSettled none now amount account p db h = h
  paid-IsSettled (some api) now amount account p db h =
      ground (arith, save-IsSettled now p p db h h.balance_nonneg h.payout_nonneg)

  nan_tests :
      (amount balance : W)
      → f.le amount amount ≡ false
      → (f.le amount nought ≡ false) × (f.lt balance amount ≡ false)
  nan_tests amount balance nan = ground (arith, num_of_le amount nought, num_of_lt balance amount)

  nan_debit :
      (balance amount : W)
      → f.le amount amount ≡ false
      → f.le (f.sub balance amount) (f.sub balance amount) ≡ false
  nan_debit balance amount nan = ground (arith, sub_num balance amount)

  debited_nonneg :
      (amount balance : W)
      → IsFinite balance
      → IsNum amount
      → f.le amount nought ≡ false
      → f.lt balance amount ≡ false
      → nought ≼ f.sub balance amount
  debited_nonneg amount balance fin num pos enough =
      let above = le_of_not_le nought amount (nought-IsNum laws) num pos in
      let below = le_of_not_lt laws amount balance num (sub_num balance balance fin).0 enough in
      sub_nonneg balance amount below
        (sub_finite balance amount fin (finite_between amount balance above below fin))

  -- With a finite balance of whole cents and an amount that is a number, a payout, paid or refused, of
  -- either processor and whatever Stripe answers, keeps the balances from being negative and the row
  -- of the database equal to them.
  pub connect_payout-IsSettled :
      (settings : Settings W) (api : Option TransferApi) (now payout_id : String)
      (req : ConnectPayoutRequest W) (p : PaymentProcessor W) (db : Db W)
      → IsFinite (held_balance p)
      → f.round (held_balance p) 2 ≡ held_balance p
      → IsNum (payout_amount req (creator_balance p))
      → IsSettled p db
      → let (p', db', _) = connect_payout settings api now payout_id req p db in IsSettled p' db'
  unfolding connect_payout
  connect_payout-IsSettled settings api now payout_id req (mock p) db fin whole num h =
      let amount = payout_amount req (creator_balance (mock p)) in
      ground (
        arith,
        debited_nonneg amount p.creator_balance fin num,
        save-IsSettled now (debit amount (mock p)) (mock p) db h,
        paid-IsSettled api now amount req.stripe_account_id (mock p) db h,
      )
  connect_payout-IsSettled settings api now payout_id req (stripe p) db fin whole num h =
      let amount = payout_amount req (creator_balance (stripe p)) in
      ground (
        arith,
        debited_nonneg amount p.creator_balance fin num,
        save-IsSettled now (debit amount (stripe p)) (stripe p) db h,
        paid-IsSettled api now amount req.stripe_account_id (stripe p) db h,
      )

  -- An amount that is not a number, NaN, passes both tests of the amount: without Stripe it is debited,
  -- and the creator's balance in memory is NaN from then on.
  connect_payout_of_nan :
      (settings : Settings W) (api : Option TransferApi) (now payout_id account : String)
      (amount : W) (p : PaymentProcessor W) (db : Db W)
      → f.le amount amount ≡ false
      → is_stripe settings ≡ false
      → let req : ConnectPayoutRequest W = record {
        stripe_account_id = account;
        amount_usd = some amount;
      } in
        let (p', _, _) = connect_payout settings api now payout_id req p db in
        (held_balance p' ≡ f.sub (held_balance p) amount)
        × (f.le (held_balance p') (held_balance p') ≡ false)
  unfolding connect_payout
  connect_payout_of_nan settings api now payout_id account amount (mock p) db nan off = ground (
    arith,
    nan_tests amount (creator_balance (mock p)) nan,
    nan_debit p.creator_balance amount nan,
  )
  connect_payout_of_nan settings api now payout_id account amount (stripe p) db nan off = ground (
    arith,
    nan_tests amount (creator_balance (stripe p)) nan,
    nan_debit p.creator_balance amount nan,
  )
