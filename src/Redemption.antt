-- ===== src/Redemption.antt =====
-- internal/services/redemption.go: one token for one pending pulse, or neither.
pub mod Atomic
use dogecade.Common.{[], find, if◌then◌else◌, none, not, some, ℕ, ◌&&◌, ◌++◌, ◌==◌, ◌∷◌}
use dogecade.Store.{
  Action, Db, Machine, Pulse, Result, User, atomically, constraint_failed, err, exec,
  machine_not_active, machine_not_found, next_id, ok, or_raise, pending, pure, query, raise_if,
  token_redemption, ◌>>=◌, ◌>>◌,
}
use dogecade.Ledger.{debit_redemption_tx, refers}

abbrev pub redeem_row : ℕ → ℕ → ℕ → ℕ → Pulse
redeem_row user machine now id = record {
  id = id;
  machine_id = machine;
  user_id = some user;
  source = token_redemption;
  state = pending;
  attempts = 0;
  last_error = none;
  created_at = now;
  sent_at = none;
  next_attempt_at = none;
}

-- The INSERT into credit_pulses with its two foreign keys; the answer is the new row's id.
unfoldable pub insert_pulse : (ℕ → Pulse) → Db → Result ℕ × Db
insert_pulse row d =
    let id = next_id (λ (p : Pulse). p.id) d.pulses in
    let p = row id in
    if refers (λ (m : Machine). m.id) d.machines (some p.machine_id)
      && refers (λ (u : User). u.id) d.users p.user_id
    then (ok id, record d { pulses = d.pulses ++ p ∷ [] })
    else (err constraint_failed, d)

pub redeem_tx : ℕ → ℕ → ℕ → Action ℕ
redeem_tx user machine now = do
  found ← query (λ d. find (λ (m : Machine). m.id == machine) d.machines)
  row ← or_raise found machine_not_found
  raise_if (not row.is_active) machine_not_active
  pulse ← exec (insert_pulse (redeem_row user machine now))
  debit_redemption_tx user pulse now
  pure pulse

pub redeem : ℕ → ℕ → ℕ → Action ℕ
redeem user machine now = atomically (redeem_tx user machine now)
