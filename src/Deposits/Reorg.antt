-- ===== src/Deposits/Reorg.antt =====
-- A reorganisation of the chain: a deposit that is not credited is orphaned, and a credited one is
-- only reported.
use dogecade.Common.{
  Bool-cases, List, Option, String, [], arith, count_if, find, inl, inr, ltb, none, refl, some,
  true, update_if, ℕ, ◌∷◌, ◌≡◌,
}
use dogecade.Store.{
  Alert, AllOrNothing, Db, Deposit, DepositState, World, confirmed, credited,
  deposit_reorged_after_credit, exec_lem, modify, next, next_id, orphaned, query-AllOrNothing, seen,
}
use dogecade.Alerts.{alert_row, insert_alert}
use dogecade.Alerts.Dedup.{count-append}
use dogecade.Purchase.{deposit_has}
use dogecade.Deposits.{
  handle_reorg, insert_reorg_alert, is_output, is_reorg_alert, set_state, undo, undo_if_any,
}

-- What becomes of the deposit `x`, by its state: the tables before and after.
abbrev pub Undone : String → ℕ → Deposit → Db → Db → DepositState → Type 0
Undone txid vout x d d' credited =
    (ltb 0 (count_if (is_reorg_alert x.id) d'.alerts) ≡ true)
    × (d' ≡ record d { alerts = d'.alerts })
Undone txid vout x d d' orphaned = d' ≡ d
Undone txid vout x d d' _ =
    (find (is_output txid vout) d'.deposits ≡ some (set_state orphaned x))
    × (d' ≡ record d { deposits = d'.deposits })

abbrev pub UndoneIfAny : String → ℕ → Db → Db → Option Deposit → Type 0
UndoneIfAny txid vout d d' none = d' ≡ d
UndoneIfAny txid vout d d' (some x) = Undone txid vout x d d' x.state

abbrev pub Reorged : String → ℕ → Db → Unit {0} → Db → Type 0
Reorged txid vout d _ d' = UndoneIfAny txid vout d d' (find (is_output txid vout) d.deposits)

find-orphaned :
    (txid : String) (vout : ℕ) (x : Deposit) (rows : List Deposit)
    → find (is_output txid vout) rows ≡ some x
    → find (is_output txid vout) (update_if (deposit_has x.id) (set_state orphaned) rows)
      ≡ some (set_state orphaned x)
find-orphaned txid vout x [] h = cc
find-orphaned txid vout x (y ∷ rows) h = ground (arith, find-orphaned txid vout x rows)

open_alert :
    (id now : ℕ) (w : World)
    → AllOrNothing w.db
        (λ _ d'.
          (ltb 0 (count_if (is_reorg_alert id) d'.alerts) ≡ true)
          × (d' ≡ record w.db { alerts = d'.alerts }))
        (insert_reorg_alert id now w)
unfolding insert_reorg_alert insert_alert
open_alert id now w =
    query-AllOrNothing Q _ _ w
      (elim (Bool-cases (ltb 0 (count_if (is_reorg_alert id) w.db.alerts))) [
        | inl old ↦ rw old (old, refl)
        | inr new ↦
            rw new
              (exec_lem Q _ (next w) (count-append (is_reorg_alert id) w.db.alerts row named, refl))
      ])
  where
    Q : Unit {0} → Db → Type 0
    Q _ d' =
        (ltb 0 (count_if (is_reorg_alert id) d'.alerts) ≡ true)
        × (d' ≡ record w.db { alerts = d'.alerts })

    row : Alert
    row =
        alert_row deposit_reorged_after_credit (some id) now
          (next_id (λ (x : Alert). x.id) w.db.alerts)

    named : is_reorg_alert id row ≡ true
    named = ground arith

undo-Undone :
    (txid : String) (vout now : ℕ) (x : Deposit) (s : DepositState) (w : World)
    → find (is_output txid vout) w.db.deposits ≡ some x
    → AllOrNothing w.db (λ _ d'. Undone txid vout x w.db d' s) (undo x.id s now w)
unfolding modify
undo-Undone txid vout now x seen w found =
    exec_lem (λ _ d'. Undone txid vout x w.db d' seen) _ w
      (find-orphaned txid vout x w.db.deposits found, refl)
undo-Undone txid vout now x confirmed w found =
    exec_lem (λ _ d'. Undone txid vout x w.db d' confirmed) _ w
      (find-orphaned txid vout x w.db.deposits found, refl)
undo-Undone txid vout now x credited w found = open_alert x.id now w
undo-Undone txid vout now x orphaned w found = refl

undo_if_any-UndoneIfAny :
    (txid : String) (vout now : ℕ) (o : Option Deposit) (w : World)
    → find (is_output txid vout) w.db.deposits ≡ o
    → AllOrNothing w.db (λ _ d'. UndoneIfAny txid vout w.db d' o) (undo_if_any now o w)
undo_if_any-UndoneIfAny txid vout now none w found = refl
undo_if_any-UndoneIfAny txid vout now (some x) w found = undo-Undone txid vout now x x.state w found

-- Whatever statement fails, a reorganisation of an output either leaves the tables as they were or
-- treats the deposit of the output by its state: one seen or confirmed is orphaned and only the
-- deposits change; for a credited one an alert that names it is open and only the alerts change;
-- an orphaned or unknown one stays as it is.
pub handle_reorg-Reorged :
    (txid : String) (vout now : ℕ) (w : World)
    → AllOrNothing w.db (Reorged txid vout w.db) (handle_reorg txid vout now w)
unfolding handle_reorg
handle_reorg-Reorged txid vout now w =
    query-AllOrNothing (Reorged txid vout w.db) _ _ w (
      undo_if_any-UndoneIfAny txid vout now (find (is_output txid vout) w.db.deposits) (next w)
        refl)
