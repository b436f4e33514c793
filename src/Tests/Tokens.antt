-- ===== src/Tests/Tokens.antt =====
-- Tokens bought, redeemed and given back.
use dogecade.Common.{arith, pos, refl, ◌+ℤ◌, ◌≡◌, ◌≤ℤ◌}
use dogecade.Store.{AllOrNothing, confirmed, ok}
use dogecade.Ledger.{balance_of}
use dogecade.Pool.{oldest}
use dogecade.Redemption.{redeem}
use dogecade.Redemption.Atomic.{Redeemed, redeem-Redeemed, redeem-owed, redeem_never_overdraws}
use dogecade.Purchase.{purchase_credit_hook, start_purchase}
use dogecade.Purchase.Start.{Started, start_purchase-Started, start_purchase-due}
use dogecade.Purchase.Credit.{PurchaseCredit, purchase_credit_hook-PurchaseCredit}
use dogecade.Tests.{arcade, arcade-IsWellFormed, day}

redeem-Redeemed_example : AllOrNothing day.db (Redeemed 1 1 50 day.db) (redeem 1 1 50 day)
redeem-Redeemed_example = redeem-Redeemed 1 1 50 day

redeem-owed_example : (redeem 1 1 50 day).0 ≡ ok 2
unfolding ◌+ℤ◌
redeem-owed_example = redeem-owed 1 1 50 (arcade confirmed) 0 refl

purchase_credit_hook-PurchaseCredit_example :
    AllOrNothing day.db (PurchaseCredit 1 day.db) (purchase_credit_hook 1 50 day)
purchase_credit_hook-PurchaseCredit_example = purchase_credit_hook-PurchaseCredit 1 50 day

start_purchase-Started_example : AllOrNothing day.db (Started 2) (start_purchase 2 50 day)
start_purchase-Started_example = start_purchase-Started 2 50 day (arcade-IsWellFormed confirmed)

start_purchase-due_example : (start_purchase 2 50 day).0 ≡ ok "DFreePlayer"
unfolding oldest
start_purchase-due_example =
    start_purchase-due 2 50 (arcade confirmed) 0 (arcade-IsWellFormed confirmed)

redeem_never_overdraws_example : pos 0 ≤ℤ balance_of 1 (redeem 1 1 50 day).1.db
unfolding ◌+ℤ◌
redeem_never_overdraws_example = redeem_never_overdraws 1 1 50 1 day (ground arith)
