-- ===== src/Ledger.antt =====
-- internal/services/ledger.go: the append-only token ledger. A balance is the sum of a user's
-- rows; no operation updates or deletes one.
pub mod Balance
use dogecade.Common.{
  Bool, List, Option, String, [], any, if◌then◌else◌, leb_ℤ, limit, ltb_ℤ, negsuc, none, order_desc,
  pos, select, some, str_eq, true, ℕ, ℤ, ◌&&◌, ◌++◌, ◌+ℤ◌, ◌==◌, ◌∷◌,
}
use dogecade.Store.{
  refund as refund_kind, admin_adjust as adjust_kind, Action, Db, Entry, LedgerKind, Note, Result,
  atomically, bad_tokens, constraint_failed, err, exec, free_text, insufficient_balance, next_id,
  note_required, ok, purchase, query, raise_if, redemption, ◌>>=◌, ◌>>◌,
}

-- `SELECT COALESCE(SUM(delta), 0) FROM token_ledger WHERE user_id = ?`.
abbrev pub sum_deltas : ℕ → List Entry → ℤ
sum_deltas user [] = pos 0
sum_deltas user (e ∷ es) =
    let rest = sum_deltas user es in if e.user_id == user then e.delta +ℤ rest else rest

abbrev pub balance_of : ℕ → Db → ℤ
balance_of user d = sum_deltas user d.entries

-- A nullable reference is to a row that exists.
abbrev pub refers : {A : Type 0} → (A → ℕ) → List A → Option ℕ → Bool
refers id rows none = true
refers id rows (some i) = any (λ r. id r == i) rows

-- The INSERT into token_ledger, with its three foreign keys.
unfoldable pub insert_entry : (ℕ → Entry) → Db → Result (Unit {0}) × Db
insert_entry row d =
    let e = row (next_id (λ x. x.id) d.entries) in
    if refers (λ x. x.id) d.users (some e.user_id)
      && refers (λ x. x.id) d.deposits e.deposit_id
      && refers (λ x. x.id) d.pulses e.pulse_id
    then (ok tt, record d { entries = d.entries ++ e ∷ [] })
    else (err constraint_failed, d)

abbrev pub purchase_row : ℕ → ℕ → ℤ → ℕ → ℕ → Entry
purchase_row user deposit tokens now id = record {
  id = id;
  user_id = user;
  delta = tokens;
  kind = purchase;
  deposit_id = some deposit;
  pulse_id = none;
  note = none;
  created_at = now;
}

abbrev pub pulse_row : LedgerKind → ℤ → Option Note → ℕ → ℕ → ℕ → ℕ → Entry
pulse_row kind delta note user pulse now id = record {
  id = id;
  user_id = user;
  delta = delta;
  kind = kind;
  deposit_id = none;
  pulse_id = some pulse;
  note = note;
  created_at = now;
}

unfoldable pub balance_tx : ℕ → Action ℤ
balance_tx user = query (balance_of user)

unfoldable pub balance : ℕ → Action ℤ
balance user = balance_tx user

unfoldable pub credit_purchase_tx : ℕ → ℕ → ℤ → ℕ → Action (Unit {0})
credit_purchase_tx user deposit tokens now =
    exec (insert_entry (purchase_row user deposit tokens now))

pub credit_purchase : ℕ → ℕ → ℤ → ℕ → Action (Unit {0})
credit_purchase user deposit tokens now = do
  raise_if (leb_ℤ tokens (pos 0)) bad_tokens
  atomically (credit_purchase_tx user deposit tokens now)

unfoldable pub debit_redemption_tx : ℕ → ℕ → ℕ → Action (Unit {0})
debit_redemption_tx user pulse now = do
  funds ← balance_tx user
  raise_if (ltb_ℤ funds (pos 1)) insufficient_balance
  exec (insert_entry (pulse_row redemption (negsuc 0) none user pulse now))

pub debit_redemption : ℕ → ℕ → ℕ → Action (Unit {0})
debit_redemption user pulse now = atomically (debit_redemption_tx user pulse now)

unfoldable pub refund : ℕ → ℕ → Note → ℕ → Action (Unit {0})
refund user pulse note now =
    exec (insert_entry (pulse_row refund_kind (pos 1) (some note) user pulse now))

abbrev pub adjust_row : ℕ → ℤ → String → ℕ → ℕ → Entry
adjust_row user delta note now id = record {
  id = id;
  user_id = user;
  delta = delta;
  kind = adjust_kind;
  deposit_id = none;
  pulse_id = none;
  note = some (free_text note);
  created_at = now;
}

pub admin_adjust : ℕ → ℤ → String → ℕ → Action (Unit {0})
admin_adjust user delta note now = do
  raise_if (str_eq note "") note_required
  exec (insert_entry (adjust_row user delta note now))

-- A user's rows, the most recent first.
unfoldable pub history : ℕ → ℤ → Action (List Entry)
history user n =
    query
      (λ d. limit n (order_desc (λ (e : Entry). e.id) (select (λ e. e.user_id == user) d.entries)))
