-- ===== src/Redemption/Atomic.antt =====
-- A redemption queues one pulse and debits one token, or does neither.
use dogecade.Common.{
  Bool, Bool-cases, List, Option-cases, [], any, arith, false, find, if◌then◌else◌, inl, inr, ltb_ℤ,
  negsuc, none, not, pos, some, subst, sym, true, ℕ, ◌++◌, ◌==◌, ◌∷◌, ◌≡◌, ◌≤ℤ◌,
}
use dogecade.Store.{
  AllOrNothing, Db, Ensures, Machine, Pulse, Result, User, World, atomically_lem, bind_Ensures,
  calm, err, exec-Ensures, insufficient_balance, machine_not_active, machine_not_found, next,
  next_id, ok, or_raise-Ensures, query-Ensures, raise_if-Ensures, statements, then_Ensures, weaken,
  written,
}
use dogecade.Ledger.{balance_of, balance_tx, debit_redemption_tx, insert_entry}
use dogecade.Ledger.Balance.{
  Debited, Posts, debit-OverdrawsNobody, debit_redemption_tx-Debited, debit_row, with_entry,
}
use dogecade.Redemption.{insert_pulse, redeem, redeem_row, redeem_tx}

abbrev pub with_pulse : Db → Pulse → Db
with_pulse d p = record d { pulses = d.pulses ++ p ∷ [] }

-- What a redemption does: the machine is active and the balance holds a token; one pending pulse
-- is queued and one token is debited in a row that names the pulse; nothing else changes.
abbrev pub Redeemed : ℕ → ℕ → ℕ → Db → ℕ → Db → Type 0
Redeemed user machine now d pulse d' =
    ((m : Machine) × (find (λ (x : Machine). x.id == machine) d.machines ≡ some m)
      × (m.is_active ≡ true))
    × (pulse ≡ next_id (λ p. p.id) d.pulses)
    × (pos 1 ≤ℤ balance_of user d)
    × (d'
        ≡ with_entry (with_pulse d (redeem_row user machine now pulse))
            (debit_row user pulse now (next_id (λ e. e.id) d.entries)))
    × Posts user (negsuc 0) d d'

pub insert_pulse_lem :
    (row : ℕ → Pulse) (d : Db) (w : World)
    → Ensures
        (λ id d'. (id ≡ next_id (λ p. p.id) d.pulses) × (d' ≡ with_pulse d (row id)))
        (written w (insert_pulse row d))
unfolding insert_pulse
insert_pulse_lem row d w = ground arith

-- Whatever statement fails, a redemption either queues one pulse on an active machine and takes
-- one token from a balance that holds one, with no other change, or leaves the tables as they
-- were.
pub redeem-Redeemed :
    (user machine now : ℕ) (w : World)
    → AllOrNothing w.db (Redeemed user machine now w.db) (redeem user machine now w)
unfolding redeem redeem_tx
redeem-Redeemed user machine now w = atomically_lem Q _ w (
    query-Ensures Q _ _ (next w) (
      or_raise-Ensures Q _ _ _ (next (next w)) λ m found.
        raise_if-Ensures Q _ _ _ (next (next w)) λ active.
          bind_Ensures Q Inserted _ _ (next (next w))
            (exec-Ensures Inserted _ (next (next w))
              (insert_pulse_lem (redeem_row user machine now) w.db (next (next (next w)))))
            λ pulse w' p.
              then_Ensures Q (Debited user pulse now w'.db tt) _ _ w'
                (weaken (Debited user pulse now w'.db) _ _
                  (debit_redemption_tx-Debited user pulse now w'))
                λ w'' h. finish m pulse w'.db w''.db found active p h))
  where
    Q : ℕ → Db → Type 0
    Q = Redeemed user machine now w.db

    Inserted : ℕ → Db → Type 0
    Inserted id d' =
        (id ≡ next_id (λ p. p.id) w.db.pulses)
        × (d' ≡ with_pulse w.db (redeem_row user machine now id))

    finish :
        (m : Machine) (pulse : ℕ) (d' d'' : Db)
        → find (λ (x : Machine). x.id == machine) w.db.machines ≡ some m
        → not m.is_active ≡ false
        → Inserted pulse d'
        → Debited user pulse now d' tt d''
        → Q pulse d''
    finish m pulse d' d'' found active p h =
        let g : Debited user pulse now (with_pulse w.db (redeem_row user machine now pulse)) tt
            d'' =
          rw p.1 at h in
        ((m, found, ground arith), p.0, g.0, g.1, g.2)

-- The answer that a redemption owes: the new pulse's number, or the first reason against it.
abbrev pub owed : ℕ → ℕ → Db → Result ℕ
owed user machine d = elim (find (λ (x : Machine). x.id == machine) d.machines) [
  | none ↦ err machine_not_found
  | some m ↦
      if not m.is_active
      then err machine_not_active
      else if ltb_ℤ (balance_of user d) (pos 1)
      then err insufficient_balance
      else ok (next_id (λ (p : Pulse). p.id) d.pulses)
]

any-append_last :
    {A : Type 0} (p : A → Bool) (xs : List A) (x : A) → p x ≡ true → any p (xs ++ x ∷ []) ≡ true
any-append_last p [] x h = rw h
any-append_last p (y ∷ xs) x h = elim (Bool-cases (p y)) [
  | inl e ↦ rw e
  | inr e ↦ rw e (any-append_last p xs x h)
]

found-any :
    (machine : ℕ) (ms : List Machine) (m : Machine)
    → find (λ (x : Machine). x.id == machine) ms ≡ some m
    → any (λ (x : Machine). x.id == machine) ms ≡ true
found-any machine [] m h = cc
found-any machine (x ∷ ms) m h = ground (arith, found-any machine ms m)

-- When no statement fails and the user is known, a redemption answers what is owed: the new
-- pulse's number, or the first of an unknown machine, one switched off, and a balance below one
-- token.
pub redeem-owed :
    (user machine now : ℕ) (d : Db) (n : ℕ)
    → any (λ (u : User). u.id == user) d.users ≡ true
    → (redeem user machine now (calm d n)).0 ≡ owed user machine d
unfolding redeem redeem_tx debit_redemption_tx balance_tx insert_pulse insert_entry statements
redeem-owed user machine now d n known =
    elim (Option-cases (find (λ (x : Machine). x.id == machine) d.machines)) [
      | inl e ↦ ground arith
      | inr (m, e) ↦ ground (
        arith,
        found-any machine d.machines m e,
        any-append_last (λ (p : Pulse). p.id == id) d.pulses (redeem_row user machine now id),
      )
    ]
  where
    id : ℕ
    id = next_id (λ (p : Pulse). p.id) d.pulses

always :
    {A : Type 0} (Q : A → Db → Type 0) (P : Db → Type 0) (d : Db) (r : Result A × World)
    → P d
    → ((a : A) (d' : Db) → Q a d' → P d')
    → AllOrNothing d Q r
    → P r.1.db
always Q P d (ok a, w) p f h = f a w.db h
always Q P d (err e, w) p f h = subst P (sym h) p

-- A redemption overdraws nobody: a balance that is not negative before it is not negative after it,
-- whatever the others are, and whether it succeeds or any statement fails.
pub redeem_never_overdraws :
    (user machine now u : ℕ) (w : World)
    → pos 0 ≤ℤ balance_of u w.db
    → pos 0 ≤ℤ balance_of u (redeem user machine now w).1.db
redeem_never_overdraws user machine now u w before =
    always (Redeemed user machine now w.db) (λ d. pos 0 ≤ℤ balance_of u d) w.db
      (redeem user machine now w) before
      (λ pulse d' h. debit-OverdrawsNobody user w.db d' h.2 h.4 u before)
      (redeem-Redeemed user machine now w)
