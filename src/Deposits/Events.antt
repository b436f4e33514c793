-- ===== src/Deposits/Events.antt =====
-- An event of the chain and a reorganisation, from the call to the end, however it ends.
use dogecade.Common.{
  Bool, Option, String, ap, false, find, ltb, none, refl, some, subst, sym, true, ℕ, ◌==◌, ◌∙◌, ◌≡◌,
}
use dogecade.Store.{
  Deposit, DepositState, Moves, Result, World, bind-Moves, bind_from, caught, confirmed, credited,
  deposit_reorged_after_credit, err, exec-Moves, if-Moves, modify, modify-Moves, modify_from, next,
  ok, orphaned, query-Moves, query_from, read-Moves, seen, then-Moves, whole-Moves,
}
use dogecade.Alerts.{insert_alert}
use dogecade.Settings.{get_min_confirmations, get_zero_conf_max_koinu}
use dogecade.Settings.RoundTrip.{get_min_confirmations-Reads, get_zero_conf_max_koinu-Reads}
use dogecade.Pool.{address_id_by_address}
use dogecade.Purchase.{deposit_has, update_deposit}
use dogecade.Deposits.{
  CreditHook, Event, claim_for_crediting, claimable, credit_claimed, credit_confirmed,
  finish_credit, handle_event, handle_reorg, insert_reorg_alert, is_output, mark_credited,
  set_claim, set_state, undo, undo_if_any, upsert_and_advance,
}
use dogecade.Deposits.Crediting.{claim_won}
use dogecade.Deposits.StateMachine.{Follows-refl, IsIn, distinct_ids, leads, leads_refl}
use dogecade.Deposits.Identity.{claimable-IsIn, found-IsIn}
use dogecade.Deposits.Lawful.{
  IsHarmless, IsIn-same, distinct_ids-same, harmless, harmless→lawful, lawful,
}
use dogecade.Deposits.Progress.{IsKnown, IsKnown-update, set_state-lawful, touch-lawful, tx-lawful}

claim_for_crediting-lawful : (id now clock : ℕ) → Moves lawful (claim_for_crediting id now clock)
unfolding claim_for_crediting
claim_for_crediting-lawful id now clock =
    bind-Moves lawful _ _
      (exec-Moves lawful _ (λ d.
        touch-lawful (claimable id clock) (set_claim (some now)) d
          (λ x. (refl, refl, refl, refl, refl, refl, leads_refl x.state))))
      (λ affected w. lawful.stays w.db)

-- Whoever has claimed the deposit has found it confirmed.
claimed-IsKnown :
    (id now clock : ℕ) (w : World)
    → (claim_for_crediting id now clock w).0 ≡ ok true
    → IsKnown confirmed id (claim_for_crediting id now clock w).1.db
claimed-IsKnown id now clock w h =
    let won = claim_won id now clock w h in
    subst (λ rows. distinct_ids rows ≡ true → IsIn confirmed id rows) (sym won.1)
      (IsKnown-update confirmed id (claimable id clock) (set_claim (some now)) w.db (λ _. refl)
        (λ _. refl) (λ k. claimable-IsIn id clock w.db.deposits won.0 k))

module _ (credit : CreditHook) (safe : IsHarmless credit) where
  finish_credit-lawful :
      (id now : ℕ) (answer : Result (Unit {0})) (w : World)
      → IsKnown confirmed id w.db
      → lawful.Allows w.db (finish_credit id now answer w).1.db
  finish_credit-lawful id now (ok a) w known = modify_from lawful _ w (
      set_state-lawful confirmed credited id (mark_credited now) w.db
        (λ x. Follows-refl (set_state credited x)) refl known)
  finish_credit-lawful id now (err e) w known =
      then-Moves lawful _ _
        (modify-Moves lawful _ (λ d.
          touch-lawful (deposit_has id) (set_claim none) d
            (λ x. (refl, refl, refl, refl, refl, refl, leads_refl x.state))))
        (λ w'. lawful.stays w'.db) w

  credit_claimed-lawful :
      (id now : ℕ) (claimed : Bool) (w : World)
      → (claimed ≡ true → IsKnown confirmed id w.db)
      → lawful.Allows w.db (credit_claimed credit id now claimed w).1.db
  unfolding caught
  credit_claimed-lawful id now false w known = lawful.stays w.db
  credit_claimed-lawful id now true w known =
      bind_from lawful (caught (credit id now)) (finish_credit id now) w
        (harmless→lawful w.db (credit id now w).1.db hook)
        (λ answer _. finish_credit-lawful id now answer (credit id now w).1 (λ k.
          IsIn-same confirmed id w.db.deposits (credit id now w).1.db.deposits hook.1
            (known refl (sym (distinct_ids-same w.db.deposits _ hook.1) ∙ k))))
    where
      hook : harmless.Allows w.db (credit id now w).1.db
      hook = safe id now w

  credit_confirmed-lawful :
      (now clock : ℕ) (due : Option ℕ) → Moves lawful (credit_confirmed credit now clock due)
  credit_confirmed-lawful now clock none w = lawful.stays w.db
  credit_confirmed-lawful now clock (some id) w =
      bind_from lawful (claim_for_crediting id now clock) _ w
        (claim_for_crediting-lawful id now clock w)
        (λ mine e.
          credit_claimed-lawful id now mine _
            (λ won. claimed-IsKnown id now clock w (e ∙ ap ok won)))

  upsert_and_advance-lawful :
      (e : Event) (address now clock : ℕ)
      → Moves lawful (upsert_and_advance credit e address now clock)
  unfolding upsert_and_advance
  upsert_and_advance-lawful e address now clock =
      bind-Moves lawful _ _
        (read-Moves lawful (λ _ _. Unit {0}) get_min_confirmations get_min_confirmations-Reads)
        (λ min_conf.
          bind-Moves lawful _ _
            (read-Moves lawful (λ _ _. Unit {0}) get_zero_conf_max_koinu
              get_zero_conf_max_koinu-Reads)
            (λ zero_conf_max.
              bind-Moves lawful _ _
                (λ w. whole-Moves lawful w.db _ (tx-lawful e min_conf zero_conf_max address now w))
                (credit_confirmed-lawful now clock)))

  -- For a hook that is harmless.
  pub handle_event-lawful :
      (e : Event) (now clock : ℕ) → Moves lawful (handle_event credit e now clock)
  unfolding handle_event address_id_by_address
  handle_event-lawful e now clock = bind-Moves lawful _ _ (query-Moves lawful _) (λ address.
      if-Moves lawful (address == 0) _ _ (λ w. lawful.stays w.db)
        (upsert_and_advance-lawful e address now clock))

insert_reorg_alert-lawful : (id now : ℕ) → Moves lawful (insert_reorg_alert id now)
unfolding insert_reorg_alert insert_alert
insert_reorg_alert-lawful id now = bind-Moves lawful _ _ (query-Moves lawful _) (λ existing.
    if-Moves lawful (ltb 0 existing) _ _ (λ w. lawful.stays w.db)
      (exec-Moves lawful (insert_alert deposit_reorged_after_credit (some id) now)
        (λ d. lawful.stays d)))

orphan-lawful :
    (s : DepositState) (txid : String) (vout : ℕ) (x : Deposit) (w : World)
    → x.state ≡ s
    → leads s orphaned ≡ true
    → find (is_output txid vout) w.db.deposits ≡ some x
    → lawful.Allows w.db (modify (update_deposit x.id (set_state orphaned)) w).1.db
orphan-lawful s txid vout x w is arrow found =
    modify_from lawful (update_deposit x.id (set_state orphaned)) w (
      set_state-lawful s orphaned x.id (set_state orphaned) w.db
        (λ y. Follows-refl (set_state orphaned y)) arrow
        (λ k. found-IsIn (is_output txid vout) w.db.deposits x s is found k))

undo-lawful :
    (txid : String) (vout now : ℕ) (x : Deposit) (s : DepositState) (w : World)
    → x.state ≡ s
    → find (is_output txid vout) w.db.deposits ≡ some x
    → lawful.Allows w.db (undo x.id s now w).1.db
undo-lawful txid vout now x seen w is found = orphan-lawful seen txid vout x w is refl found
undo-lawful txid vout now x confirmed w is found =
    orphan-lawful confirmed txid vout x w is refl found
undo-lawful txid vout now x credited w is found = insert_reorg_alert-lawful x.id now w
undo-lawful txid vout now x orphaned w is found = lawful.stays w.db

undo_if_any-lawful :
    (txid : String) (vout now : ℕ) (o : Option Deposit) (w : World)
    → find (is_output txid vout) w.db.deposits ≡ o
    → lawful.Allows w.db (undo_if_any now o w).1.db
undo_if_any-lawful txid vout now none w found = lawful.stays w.db
undo_if_any-lawful txid vout now (some x) w found = undo-lawful txid vout now x x.state w refl found

pub handle_reorg-lawful : (txid : String) (vout now : ℕ) → Moves lawful (handle_reorg txid vout now)
unfolding handle_reorg
handle_reorg-lawful txid vout now w =
    query_from lawful (λ d. find (is_output txid vout) d.deposits) (undo_if_any now) w
      (undo_if_any-lawful txid vout now (find (is_output txid vout) w.db.deposits) (next w) refl)
