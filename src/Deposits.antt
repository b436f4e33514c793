-- ===== src/Deposits.antt =====
-- internal/services/deposit_pipeline.go: a deposit is seen, confirmed and credited, or orphaned by
-- a reorganisation of the chain. The credit hook is a parameter of the pipeline, as in the source.
pub mod Lifecycle
pub mod Reorg
pub mod Crediting
pub mod StateMachine
pub mod Identity
pub mod Lawful
pub mod Progress
pub mod Events
pub mod Hook
pub mod Payout
use dogecade.Common.{
  Bool, Option, String, [], any, count_if, false, find, holds, if◌then◌else◌, leb_ℤ, ltb, ltb_ℤ,
  none, not, pos, some, str_eq, true, update_if, ℕ, ℤ, ◌&&◌, ◌++◌, ◌+◌, ◌==◌, ◌||◌, ◌∷◌,
}
use dogecade.Store.{
  Action, Alert, Db, Deposit, DepositState, Result, atomically, caught, confirmed,
  constraint_failed, credited, deposit_reorged_after_credit, err, exec, modify, next_id, ok,
  orphaned, pure, query, raise, seen, ◌>>=◌, ◌>>◌,
}
use dogecade.Alerts.{insert_alert, is_open}
use dogecade.Settings.{get_min_confirmations, get_zero_conf_max_koinu}
use dogecade.Pool.{address_id_by_address, has_id}
use dogecade.Purchase.{update_deposit}

pub record Event : Type 0 where
  pub address : String
  pub txid : String
  pub vout : ℕ
  pub amount_koinu : ℤ
  pub confirmations : ℤ
  pub block_height : ℤ

abbrev pub CreditHook : Type 0
CreditHook = ℕ → ℕ → Action (Unit {0})

unfoldable pub noop_credit_hook : CreditHook
noop_credit_hook deposit now = pure tt

-- Seconds after which a claim counts as abandoned.
abbrev pub credit_claim_stale_after : ℕ
credit_claim_stale_after = 120

abbrev pub is_output : String → ℕ → Deposit → Bool
is_output txid vout x = str_eq x.txid txid && x.vout == vout

abbrev pub is_confirmed : DepositState → Bool
is_confirmed confirmed = true
is_confirmed _ = false

abbrev pub height : ℤ → Option ℤ
height h = if ltb_ℤ (pos 0) h then some h else none

abbrev pub seen_row : Event → ℕ → ℕ → ℕ → Deposit
seen_row e address now id = record {
  id = id;
  address_id = address;
  txid = e.txid;
  vout = e.vout;
  amount_koinu = e.amount_koinu;
  confirmations = e.confirmations;
  block_height = height e.block_height;
  state = seen;
  credited_at = none;
  crediting_claimed_at = none;
  created_at = now;
  remainder_koinu = none;
}

-- The INSERT into deposits, with UNIQUE (txid, vout) and its foreign key.
pub insert_deposit : Event → ℕ → ℕ → Db → Result ℕ × Db
insert_deposit e address now d =
    let id = next_id (λ (x : Deposit). x.id) d.deposits in
    if any (is_output e.txid e.vout) d.deposits || not (any (has_id address) d.addresses)
    then (err constraint_failed, d)
    else (ok id, record d { deposits = d.deposits ++ seen_row e address now id ∷ [] })

abbrev pub refresh : Event → Deposit → Deposit
refresh e x = record x {
  confirmations = e.confirmations;
  block_height = if ltb_ℤ (pos 0) e.block_height then some e.block_height else x.block_height;
}

-- The row's id and its state before the event advances it.
abbrev pub upsert_deposit : Event → ℕ → ℕ → Option Deposit → Action (ℕ × DepositState)
upsert_deposit e address now none = do id ← exec (insert_deposit e address now); pure (id, seen)
upsert_deposit e address now (some x) = do
  modify (update_deposit x.id (refresh e))
  pure (x.id, x.state)

-- The thresholds for a deposit that has been seen.
abbrev pub is_due : Event → ℤ → ℤ → Bool
is_due e min_conf zero_conf_max =
    leb_ℤ min_conf e.confirmations
    || (ltb_ℤ (pos 0) zero_conf_max && leb_ℤ e.amount_koinu zero_conf_max)

abbrev pub set_state : DepositState → Deposit → Deposit
set_state s x = record x { state = s }

-- The answer is the deposit to credit, if the event leaves it confirmed.
abbrev pub advance : Event → ℤ → ℤ → ℕ → DepositState → Action (Option ℕ)
advance e min_conf zero_conf_max id seen =
    if is_due e min_conf zero_conf_max
    then modify (update_deposit id (set_state confirmed)) >> pure (some id)
    else pure none
advance e min_conf zero_conf_max id confirmed = pure (some id)
advance e min_conf zero_conf_max id credited = pure none
advance e min_conf zero_conf_max id orphaned = pure none

-- No claim, or one taken before `clock - credit_claim_stale_after`.
abbrev pub is_stale : Option ℕ → ℕ → Bool
is_stale none clock = true
is_stale (some t) clock = ltb (t + credit_claim_stale_after) clock

abbrev pub claimable : ℕ → ℕ → Deposit → Bool
claimable id clock x = x.id == id && is_confirmed x.state && is_stale x.crediting_claimed_at clock

abbrev pub set_claim : Option ℕ → Deposit → Deposit
set_claim t x = record x { crediting_claimed_at = t }

-- `now` is the event's time, `clock` the time of the claim.
unfoldable pub claim_for_crediting : ℕ → ℕ → ℕ → Action Bool
claim_for_crediting id now clock = do
  affected ← exec λ d.
      let rows = update_if (claimable id clock) (set_claim (some now)) d.deposits in
      (ok (count_if (claimable id clock) d.deposits), record d { deposits = rows })
  pure (affected == 1)

abbrev pub mark_credited : ℕ → Deposit → Deposit
mark_credited now x = record x { state = credited; credited_at = some now }

-- A failed hook gives its claim back, so that a later event can credit the deposit.
abbrev pub finish_credit : ℕ → ℕ → Result (Unit {0}) → Action (Unit {0})
finish_credit id now (ok _) = modify (update_deposit id (mark_credited now))
finish_credit id now (err e) = do modify (update_deposit id (set_claim none)); raise e

module _ (credit : CreditHook) where
  abbrev pub credit_claimed : ℕ → ℕ → Bool → Action (Unit {0})
  credit_claimed id now false = pure tt
  credit_claimed id now true = do answer ← caught (credit id now); finish_credit id now answer

  abbrev pub credit_confirmed : ℕ → ℕ → Option ℕ → Action (Unit {0})
  credit_confirmed now clock none = pure tt
  credit_confirmed now clock (some id) = do
    claimed ← claim_for_crediting id now clock
    credit_claimed id now claimed

  pub upsert_and_advance : Event → ℕ → ℕ → ℕ → Action (Unit {0})
  upsert_and_advance e address now clock = do
    min_conf ← get_min_confirmations
    zero_conf_max ← get_zero_conf_max_koinu
    due ← atomically do
      existing ← query (λ d. find (is_output e.txid e.vout) d.deposits)
      (id, state) ← upsert_deposit e address now existing
      advance e min_conf zero_conf_max id state
    credit_confirmed now clock due

  pub handle_event : Event → ℕ → ℕ → Action (Unit {0})
  handle_event e now clock = do
    address ← address_id_by_address e.address
    if address == 0 then pure tt else upsert_and_advance e address now clock

abbrev pub is_reorg_alert : ℕ → Alert → Bool
is_reorg_alert id a = is_open deposit_reorged_after_credit a && holds a.about_deposit id

pub insert_reorg_alert : ℕ → ℕ → Action (Unit {0})
insert_reorg_alert id now = do
  existing ← query (λ d. count_if (is_reorg_alert id) d.alerts)
  if ltb 0 existing then pure tt else exec (insert_alert deposit_reorged_after_credit (some id) now)

abbrev pub undo : ℕ → DepositState → ℕ → Action (Unit {0})
undo id seen now = modify (update_deposit id (set_state orphaned))
undo id confirmed now = modify (update_deposit id (set_state orphaned))
undo id credited now = insert_reorg_alert id now
undo id orphaned now = pure tt

abbrev pub undo_if_any : ℕ → Option Deposit → Action (Unit {0})
undo_if_any now none = pure tt
undo_if_any now (some x) = undo x.id x.state now

pub handle_reorg : String → ℕ → ℕ → Action (Unit {0})
handle_reorg txid vout now = do
  existing ← query (λ d. find (is_output txid vout) d.deposits)
  undo_if_any now existing
