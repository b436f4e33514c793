-- ===== src/Tests/Chain.antt =====
-- Deposits, addresses and settings.
use dogecade.Common.{arith, inl, pos, refl, some, true, update_if, ℕ, ◌≡◌, ◌≢◌}
use dogecade.Store.{AllOrNothing, calm, confirmed, credited, ok, seen, statements, token_deposit}
use dogecade.Settings.Decimal.{format_int}
use dogecade.Settings.{get_number, seed_from_env, set_string}
use dogecade.Settings.RoundTrip.{get_number-set_string}
use dogecade.Settings.Seed.{Keeps, seed_from_env-Keeps}
use dogecade.Pool.{assign}
use dogecade.Pool.Assign.{Assigned, assign-Assigned}
use dogecade.Purchase.{deposit_has, purchase_credit_hook}
use dogecade.Deposits.{
  claim_for_crediting, credit_confirmed, handle_event, handle_reorg, noop_credit_hook,
}
use dogecade.Deposits.Lifecycle.{Refreshed, handle_event-settled}
use dogecade.Deposits.Reorg.{Reorged, handle_reorg-Reorged}
use dogecade.Deposits.Crediting.{
  claim_for_crediting-exclusive, claim_in, credit_confirmed-settled, settled,
}
use dogecade.Deposits.Payout.{handed, handle_event_credits}
use dogecade.Tests.{
  arcade, arcade-IsWellFormed, day, deposit_in, environment, event, players_address, set_to_rotate,
}

handle_event-settled_example :
    AllOrNothing
      (arcade credited)
      (λ _. Refreshed event 1 (arcade credited))
      (handle_event purchase_credit_hook event 50 50 (calm (arcade credited) 0))
handle_event-settled_example =
    handle_event-settled purchase_credit_hook event 50 50 (deposit_in credited)
      (calm (arcade credited) 0) refl refl

claim_for_crediting-exclusive_example :
    (claim_for_crediting 1 60 170 (claim_for_crediting 1 50 50 day).1).0 ≢ ok true
unfolding claim_for_crediting statements
claim_for_crediting-exclusive_example =
    claim_for_crediting-exclusive 1 50 50 60 170 day (omega arith) refl (omega arith)

handle_reorg-Reorged_example :
    AllOrNothing day.db (Reorged "aa" 0 day.db) (handle_reorg "aa" 0 50 day)
handle_reorg-Reorged_example = handle_reorg-Reorged "aa" 0 50 day

assign-Assigned_example :
    AllOrNothing day.db (Assigned token_deposit 50 day.db) (assign token_deposit 50 day)
assign-Assigned_example = assign-Assigned token_deposit 50 day (arcade-IsWellFormed confirmed)

get_number-set_string_example :
    let d' = (set_string "min_confirmations" (format_int (pos 6)) day).1.db in
    ((get_number "min_confirmations" (pos 1) (calm d' 1)).0 ≡ ok (pos 6))
    × ((get_number "zero_conf_max_koinu" (pos 0) (calm d' 1)).0
        ≡ (get_number "zero_conf_max_koinu" (pos 0) (calm day.db 1)).0)
get_number-set_string_example =
    get_number-set_string "min_confirmations" "zero_conf_max_koinu" (pos 6) (pos 1) (pos 0)
      (arcade confirmed) 0 1 (omega arith) refl

seed_from_env-Keeps_example : Keeps set_to_rotate.db (seed_from_env environment set_to_rotate).1.db
seed_from_env-Keeps_example = seed_from_env-Keeps environment set_to_rotate

credit_confirmed-settled_example : credit_confirmed noop_credit_hook 50 50 (some 1) day ≡ (
  ok tt,
  calm (settled 1 50 (ok tt) (record day.db { deposits = claim_in 1 50 day.db.deposits })) 2,
)
unfolding noop_credit_hook
credit_confirmed-settled_example =
    credit_confirmed-settled noop_credit_hook 1 50 50 (deposit_in confirmed) (arcade confirmed)
      (record (arcade confirmed) { deposits = claim_in 1 50 day.db.deposits }) 0 1 (ok tt)
      (omega arith) refl refl tt refl

handle_event_credits_example :
    (m : ℕ) × (handle_event noop_credit_hook event 50 50 (calm (arcade seen) 0) ≡ (
      ok tt,
      calm
          (record (handed event 1 50 (arcade seen)) {
            deposits =
                update_if
                  (deposit_has 1)
                  (λ y. record y { state = credited; credited_at = some 50 })
                  (handed event 1 50 (arcade seen)).deposits;
          })
          m,
    ))
unfolding noop_credit_hook
handle_event_credits_example =
    handle_event_credits noop_credit_hook event 50 50 (pos 1) (pos 0) (deposit_in seen)
      players_address (arcade seen) (handed event 1 50 (arcade seen)) 0 refl refl refl (omega arith)
      refl tt refl refl (inl (omega arith)) (λ k. (k, refl))
