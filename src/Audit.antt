-- ===== src/Audit.antt =====
-- internal/services/admin_audit.go: the trail of what admins did.
use dogecade.Common.{
  List, Option, String, [], if◌then◌else◌, limit, order_desc, some, ℕ, ℤ, ◌++◌, ◌∷◌,
}
use dogecade.Store.{Action, Audit, Db, Result, constraint_failed, err, exec, next_id, ok, query}
use dogecade.Ledger.{refers}

abbrev pub audit_row : ℕ → String → Option (String × ℤ) → ℕ → ℕ → Audit
audit_row user action target now id = record {
  id = id;
  user_id = user;
  action = action;
  target = target;
  created_at = now;
}

-- The INSERT into admin_audit, with its foreign key.
unfoldable pub insert_audit : (ℕ → Audit) → Db → Result (Unit {0}) × Db
insert_audit row d =
    let a = row (next_id (λ x. x.id) d.audits) in
    if refers (λ x. x.id) d.users (some a.user_id)
    then (ok tt, record d { audits = d.audits ++ a ∷ [] })
    else (err constraint_failed, d)

unfoldable pub log : ℕ → String → Option (String × ℤ) → ℕ → Action (Unit {0})
log user action target now = exec (insert_audit (audit_row user action target now))

-- The most recent first.
pub list : ℤ → Action (List Audit)
list n = query (λ d. limit n (order_desc (λ (a : Audit). a.id) d.audits))
