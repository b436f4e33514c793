-- ===== src/Ledger/Balance.antt =====
-- What each operation of ledger.go does to every balance.
use dogecade.Common.{
  List, String, [], any, arith, if◌then◌else◌, inl, inr, int_laws, ltb_ℤ, negsuc, none, pos, refl,
  some, true, ℕ, ℤ, ◌++◌, ◌+ℤ◌, ◌==◌, ◌∷◌, ◌≡◌, ◌≤ℤ◌, ◌⊎◌,
}
use dogecade.Store.{
  AllOrNothing, Db, Entry, LedgerKind, Note, Pulse, User, World, atomically_lem, calm,
  constraint_failed, err, exec_lem, insufficient_balance, map_AllOrNothing, next, next_id, ok,
  query-AllOrNothing, raise_if-AllOrNothing, redemption, statements, weaken, written,
}
use dogecade.Ledger.{
  adjust_row, admin_adjust, balance_of, balance_tx, credit_purchase, credit_purchase_tx,
  debit_redemption, debit_redemption_tx, insert_entry, pulse_row, purchase_row, refund, sum_deltas,
}

pub sum_deltas-append :
    (user : ℕ) (xs ys : List Entry)
    → sum_deltas user (xs ++ ys) ≡ sum_deltas user xs +ℤ sum_deltas user ys
sum_deltas-append user [] ys = omega int_laws
sum_deltas-append user (e ∷ xs) ys = grind (int_laws, sum_deltas-append user xs ys)

-- The balances after a row of `delta` for `user`: that user's moves by `delta`, the others stay.
abbrev pub Posts : ℕ → ℤ → Db → Db → Type 0
Posts user delta d d' =
    (u : ℕ) → balance_of u d' ≡ balance_of u d +ℤ (if user == u then delta else pos 0)

abbrev pub with_entry : Db → Entry → Db
with_entry d e = record d { entries = d.entries ++ e ∷ [] }

with_entry-Posts : (d : Db) (e : Entry) → Posts e.user_id e.delta d (with_entry d e)
with_entry-Posts d e u = rw (sum_deltas-append u d.entries (e ∷ [])) (grind int_laws)

pub insert_entry_cases :
    (row : ℕ → Entry) (d : Db)
    → (insert_entry row d ≡ (err constraint_failed, d))
      ⊎ (insert_entry row d ≡ (ok tt, with_entry d (row (next_id (λ x. x.id) d.entries))))
unfolding insert_entry
insert_entry_cases row d = ground arith

-- A success adds one row, behind all earlier ones, and leaves the other tables alone; the row
-- posts `delta` to `user`.
abbrev pub Posted : (ℕ → Entry) → ℕ → ℤ → Db → Unit {0} → Db → Type 0
Posted row user delta d _ d' =
    (d' ≡ with_entry d (row (next_id (λ e. e.id) d.entries))) × Posts user delta d d'

pub insert_entry-Posted :
    (row : ℕ → Entry) (user : ℕ) (delta : ℤ) (d : Db) (w : World)
    → ((i : ℕ) → (row i).user_id ≡ user)
    → ((i : ℕ) → (row i).delta ≡ delta)
    → AllOrNothing d (Posted row user delta d) (written w (insert_entry row d))
insert_entry-Posted row user delta d w hu hd = elim (insert_entry_cases row d) [
  | inl e ↦ rw e refl
  | inr e ↦ rw e (refl, λ u. rw (← hu i, ← hd i) (with_entry-Posts d (row i) u))
]
  where
    i : ℕ
    i = next_id (λ (x : Entry). x.id) d.entries

-- Crediting a purchase posts its tokens to the user in one new row, or fails and changes nothing.
pub credit_purchase-Posted :
    (user deposit : ℕ) (tokens : ℤ) (now : ℕ) (w : World)
    → AllOrNothing w.db
        (Posted (purchase_row user deposit tokens now) user tokens w.db)
        (credit_purchase user deposit tokens now w)
unfolding credit_purchase credit_purchase_tx
credit_purchase-Posted user deposit tokens now w = raise_if-AllOrNothing Q _ _ _ w λ _.
    atomically_lem Q _ w (
      weaken Q _ _ (
        exec_lem Q _ (next w)
          (insert_entry-Posted _ user tokens w.db (next (next w)) (λ i. refl) (λ i. refl))))
  where
    Q : Unit {0} → Db → Type 0
    Q = Posted (purchase_row user deposit tokens now) user tokens w.db

abbrev pub debit_row : ℕ → ℕ → ℕ → ℕ → Entry
debit_row user pulse now = pulse_row redemption (negsuc 0) none user pulse now

-- A debit takes one token in one new row, and only from a balance that has one.
abbrev pub Debited : ℕ → ℕ → ℕ → Db → Unit {0} → Db → Type 0
Debited user pulse now d _ d' =
    (pos 1 ≤ℤ balance_of user d)
    × (d' ≡ with_entry d (debit_row user pulse now (next_id (λ e. e.id) d.entries)))
    × Posts user (negsuc 0) d d'

pub debit_redemption_tx-Debited :
    (user pulse now : ℕ) (w : World)
    → AllOrNothing w.db (Debited user pulse now w.db) (debit_redemption_tx user pulse now w)
unfolding debit_redemption_tx balance_tx
debit_redemption_tx-Debited user pulse now w = query-AllOrNothing Q _ _ w (
    raise_if-AllOrNothing Q _ _ _ (next w) λ enough. exec_lem Q _ (next w) (
      map_AllOrNothing (Posted (debit_row user pulse now) user (negsuc 0) w.db) Q w.db _
        (λ _ d' h. (ground arith, h.0, h.1))
        (insert_entry-Posted _ user (negsuc 0) w.db (next (next w)) (λ i. refl) (λ i. refl))))
  where
    Q : Unit {0} → Db → Type 0
    Q = Debited user pulse now w.db

-- Whatever statement fails, a redemption's debit takes one token, in one new row, from a balance
-- of one or more, or changes nothing.
pub debit_redemption-Debited :
    (user pulse now : ℕ) (w : World)
    → AllOrNothing w.db (Debited user pulse now w.db) (debit_redemption user pulse now w)
unfolding debit_redemption
debit_redemption-Debited user pulse now w =
    atomically_lem (Debited user pulse now w.db) _ w (
      weaken (Debited user pulse now w.db) _ _
        (debit_redemption_tx-Debited user pulse now (next w)))

-- A refund posts one token to the user in one new row, or fails and changes nothing.
pub refund-Posted :
    (user pulse : ℕ) (note : Note) (now : ℕ) (w : World)
    → AllOrNothing w.db
        (Posted (pulse_row LedgerKind.refund (pos 1) (some note) user pulse now) user (pos 1) w.db)
        (refund user pulse note now w)
unfolding refund
refund-Posted user pulse note now w =
    exec_lem
      (Posted (pulse_row LedgerKind.refund (pos 1) (some note) user pulse now) user (pos 1) w.db) _
      w (insert_entry-Posted _ user (pos 1) w.db (next w) (λ i. refl) (λ i. refl))

-- An adjustment posts its amount, of either sign, in one new row, or fails and changes nothing.
pub admin_adjust-Posted :
    (user : ℕ) (delta : ℤ) (note : String) (now : ℕ) (w : World)
    → AllOrNothing w.db
        (Posted (adjust_row user delta note now) user delta w.db)
        (admin_adjust user delta note now w)
unfolding admin_adjust
admin_adjust-Posted user delta note now w =
    raise_if-AllOrNothing (Posted (adjust_row user delta note now) user delta w.db) _ _ _ w λ _.
      exec_lem (Posted (adjust_row user delta note now) user delta w.db) _ w
        (insert_entry-Posted _ user delta w.db (next w) (λ i. refl) (λ i. refl))

-- Nobody is overdrawn: a balance that was not negative is not negative.
abbrev pub OverdrawsNobody : Db → Db → Type 0
OverdrawsNobody d d' = (u : ℕ) → (pos 0 ≤ℤ balance_of u d) → pos 0 ≤ℤ balance_of u d'

-- Where a balance had a token, taking one overdraws nobody.
pub debit-OverdrawsNobody :
    (user : ℕ) (d d' : Db)
    → pos 1 ≤ℤ balance_of user d
    → Posts user (negsuc 0) d d'
    → OverdrawsNobody d d'
debit-OverdrawsNobody user d d' enough posts u before = grind (int_laws, enough, posts u, before)

-- When no statement fails and the user and the pulse exist, a debit goes through exactly if the
-- balance has a token, and is refused as an insufficient balance if it has none.
pub debit_redemption_answer :
    (user pulse now : ℕ) (d : Db) (n : ℕ)
    → any (λ (u : User). u.id == user) d.users ≡ true
    → any (λ (p : Pulse). p.id == pulse) d.pulses ≡ true
    → (debit_redemption user pulse now (calm d n)).0
      ≡ (if ltb_ℤ (balance_of user d) (pos 1) then err insufficient_balance else ok tt)
unfolding debit_redemption debit_redemption_tx balance_tx insert_entry statements
debit_redemption_answer user pulse now d n hu hp = ground arith
