-- ===== src/Payments/Credits.antt =====
-- What a capture of src/payments.py credits in all, in the exact decimals of `Fixed`.
use swift_route.Prelude.{ℕ, ◌+◌, String, ◌≡◌, ap, some, arith}
use swift_route.Prelude.Dict.{lookup}
use swift_route.Prelude.Int.{ℤ, pos, negsuc, pos_part, neg_part, sub_ℕ, ◌+ℤ◌, ◌-ℤ◌}
use swift_route.Fixed.{fixed_float}
use swift_route.Config.{Settings}
use swift_route.Persistence.{Db}
use swift_route.Payments.{MockPaymentProcessor, PaymentResult, fee_of, net_of, earned_of}
use swift_route.Payments.Mock.{mock_capture}

ℤ_ext : (x y : ℤ) → pos_part x + neg_part y ≡ pos_part y + neg_part x → x ≡ y
ℤ_ext (pos m) (pos n) h = ap pos (omega (arith, h))
ℤ_ext (pos m) (negsuc n) h = absurd (omega (arith, h))
ℤ_ext (negsuc m) (pos n) h = absurd (omega (arith, h))
ℤ_ext (negsuc m) (negsuc n) h = ap negsuc (omega (arith, h))

parts-sub_ℕ : (a b : ℕ) → pos_part (sub_ℕ a b) + b ≡ a + neg_part (sub_ℕ a b)
parts-sub_ℕ a b = ground arith

parts-add :
    (x y : ℤ)
    → pos_part (x +ℤ y) + (neg_part x + neg_part y) ≡ (pos_part x + pos_part y) + neg_part (x +ℤ y)
unfolding ◌+ℤ◌
parts-add x y = parts-sub_ℕ (pos_part x + pos_part y) (neg_part x + neg_part y)

parts-sub :
    (x y : ℤ)
    → pos_part (x -ℤ y) + (neg_part x + pos_part y) ≡ (pos_part x + neg_part y) + neg_part (x -ℤ y)
unfolding ◌-ℤ◌
parts-sub x y = parts-sub_ℕ (pos_part x + neg_part y) (neg_part x + pos_part y)

-- The fee cancels.
fee_cancels :
    (c n a fee mint : ℤ) → (c +ℤ (fee +ℤ mint)) +ℤ (n +ℤ (a -ℤ fee)) ≡ (c +ℤ n) +ℤ (a +ℤ mint)
fee_cancels c n a fee mint =
    ℤ_ext ((c +ℤ (fee +ℤ mint)) +ℤ (n +ℤ (a -ℤ fee))) ((c +ℤ n) +ℤ (a +ℤ mint)) (
      omega (
        arith,
        parts-add (c +ℤ (fee +ℤ mint)) (n +ℤ (a -ℤ fee)),
        parts-add c (fee +ℤ mint),
        parts-add fee mint,
        parts-add n (a -ℤ fee),
        parts-sub a fee,
        parts-add (c +ℤ n) (a +ℤ mint),
        parts-add c n,
        parts-add a mint,
      ))

-- In exact decimals, where the amount less its fee is of whole cents, the capture of a payment of the
-- ledger raises the two balances together by the amount and the mint fee: the mint fee is credited
-- beyond what was charged.
pub mock_capture-credits :
    (settings : Settings ℤ) (now payment_id : String) (amount_usd : ℤ) (p : MockPaymentProcessor ℤ)
    (db : Db ℤ) (auth : PaymentResult ℤ)
    → lookup payment_id p.ledger ≡ some auth
    → net_of settings amount_usd ≡ amount_usd -ℤ fee_of settings amount_usd
    → let (p', _, _) = mock_capture settings now payment_id amount_usd p db in
      p'.creator_balance +ℤ p'.node_payout_usd
      ≡ (p.creator_balance +ℤ p.node_payout_usd) +ℤ (amount_usd +ℤ settings.signature_mint_fee_usd)
unfolding mock_capture earned_of
mock_capture-credits settings now payment_id amount_usd p db auth known whole =
    rw (mock_capture, known, whole)
      (fee_cancels p.creator_balance p.node_payout_usd amount_usd (fee_of settings amount_usd)
        settings.signature_mint_fee_usd)
