-- ===== src/Users/Merge.antt =====
-- What a merge of two users does to their rows and balances, and what it takes.
use dogecade.Common.{
  List, [], any, arith, false, int_laws, not, pos, refl, select, some, true, update_if, ℕ, ◌+ℤ◌,
  ◌∷◌, ◌≡◌, ◌≢◌,
}
use dogecade.Store.{
  AllOrNothing, Db, Ensures, Entry, World, atomically_lem, bind_Ensures, exec, exec-Ensures,
  map_Ensures, next, raise_if-AllOrNothing, then_Ensures, ◌>>=◌, ◌>>◌,
}
use dogecade.Ledger.{balance_of, sum_deltas}
use dogecade.Pool.{no_clash, update_addresses}
use dogecade.Users.{
  address_of, audit_of, delete_user, entry_of, has_user_id, merge, pulse_of, reassign_addresses,
  reassign_entries, reassign_pulses,
}

abbrev moved : ℕ → ℕ → List Entry → List Entry
moved from to = update_if (entry_of from) (λ e. record e { user_id = to })

moved-from :
    (from to : ℕ) (es : List Entry) → from ≢ to → sum_deltas from (moved from to es) ≡ pos 0
moved-from from to [] h = refl
moved-from from to (e ∷ es) h = ground (arith, moved-from from to es h)

moved-to :
    (from to : ℕ) (es : List Entry)
    → from ≢ to
    → sum_deltas to (moved from to es) ≡ sum_deltas to es +ℤ sum_deltas from es
moved-to from to [] h = omega int_laws
moved-to from to (e ∷ es) h = grind (int_laws, moved-to from to es h)

moved-other :
    (from to u : ℕ) (es : List Entry)
    → u ≢ from
    → u ≢ to
    → sum_deltas u (moved from to es) ≡ sum_deltas u es
moved-other from to u [] h k = refl
moved-other from to u (e ∷ es) h k = ground (arith, moved-other from to u es h k)

-- The tables after a merge: the rows of one user belong to the other, and the user is gone.
abbrev pub merged : ℕ → ℕ → Db → Db
merged from to d = record d {
  entries = update_if (entry_of from) (λ e. record e { user_id = to }) d.entries;
  addresses = update_if (address_of from) (λ a. record a { user_id = some to }) d.addresses;
  pulses = update_if (pulse_of from) (λ p. record p { user_id = some to }) d.pulses;
  users = select (λ u. not (has_user_id from u)) d.users;
}

-- One user's balance is nothing, the other's is the sum of both, and the others' stay.
abbrev pub MovesBalance : ℕ → ℕ → Db → Db → Type 0
MovesBalance from to d d' =
    (balance_of from d' ≡ pos 0)
    × (balance_of to d' ≡ balance_of to d +ℤ balance_of from d)
    × ((u : ℕ) → u ≢ from → u ≢ to → balance_of u d' ≡ balance_of u d)

-- What a merge that succeeds has found: two users, one who is gone after it and has done nothing
-- as an admin, and addresses that the indexes allow together.
abbrev pub Merged : ℕ → ℕ → Db → Unit {0} → Db → Type 0
Merged from to d _ d' =
    (d' ≡ merged from to d)
    × MovesBalance from to d d'
    × (no_clash d'.addresses ≡ true)
    × (any (has_user_id from) d.users ≡ true → any (audit_of from) d.audits ≡ false)

module _ (from to : ℕ) where
  -- The tables after one, two and three of the statements.
  abbrev reassigned_entries : Db → Db
  reassigned_entries d = record d {
    entries = update_if (entry_of from) (λ e. record e { user_id = to }) d.entries;
  }

  abbrev reassigned_addresses : Db → Db
  reassigned_addresses d = record (reassigned_entries d) {
    addresses = update_if (address_of from) (λ a. record a { user_id = some to }) d.addresses;
  }

  abbrev reassigned_pulses : Db → Db
  reassigned_pulses d = record (reassigned_addresses d) {
    pulses = update_if (pulse_of from) (λ p. record p { user_id = some to }) d.pulses;
  }

  entries-Ensures :
      (d : Db) (w : World)
      → w.db ≡ d
      → Ensures (λ _ d'. d' ≡ reassigned_entries d) (exec (reassign_entries from to) w)
  unfolding reassign_entries
  entries-Ensures d w e = exec-Ensures (λ _ d'. d' ≡ reassigned_entries d) _ w (rw e (ground arith))

  addresses-Ensures :
      (d : Db) (w : World)
      → w.db ≡ reassigned_entries d
      → Ensures
          (λ _ d'.
            (d' ≡ reassigned_addresses d) × (no_clash (reassigned_addresses d).addresses ≡ true))
          (exec (reassign_addresses from to) w)
  unfolding reassign_addresses update_addresses
  addresses-Ensures d w e =
      exec-Ensures
        (λ _ d'.
          (d' ≡ reassigned_addresses d) × (no_clash (reassigned_addresses d).addresses ≡ true))
        _ w (rw e (ground arith))

  pulses-Ensures :
      (d : Db) (w : World)
      → w.db ≡ reassigned_addresses d
      → Ensures (λ _ d'. d' ≡ reassigned_pulses d) (exec (reassign_pulses from to) w)
  unfolding reassign_pulses
  pulses-Ensures d w e = exec-Ensures (λ _ d'. d' ≡ reassigned_pulses d) _ w (rw e (ground arith))

  abbrev Left : Db → Type 0
  Left d = any (has_user_id from) d.users ≡ true → any (audit_of from) d.audits ≡ false

  last-Ensures :
      (d : Db) (w : World)
      → w.db ≡ reassigned_pulses d
      → Ensures (λ _ d'. (d' ≡ merged from to d) × Left d) (exec (delete_user from) w)
  unfolding delete_user
  last-Ensures d w e =
      exec-Ensures (λ _ d'. (d' ≡ merged from to d) × Left d) _ w (rw e (ground arith))

  MovesBalance-merged : (d : Db) → from ≢ to → MovesBalance from to d (merged from to d)
  MovesBalance-merged d h = (
    moved-from from to d.entries h,
    moved-to from to d.entries h,
    λ u other away. moved-other from to u d.entries other away,
  )

  statements-Merged :
      (d : Db) (w : World)
      → w.db ≡ d
      → from ≢ to
      → Ensures (Merged from to d) (
          (do
            exec (reassign_entries from to)
            _ ← exec (reassign_addresses from to)
            exec (reassign_pulses from to)
            exec (delete_user from))
            w)
  statements-Merged d w e h =
      then_Ensures Q (λ d'. d' ≡ reassigned_entries d) _ _ w (entries-Ensures d w e)
        λ w1 e1.
          bind_Ensures Q
            (λ _ d'.
              (d' ≡ reassigned_addresses d) × (no_clash (reassigned_addresses d).addresses ≡ true))
            _ _ w1 (addresses-Ensures d w1 e1)
            λ _ w2 (e2, apart).
              then_Ensures Q (λ d'. d' ≡ reassigned_pulses d) _ _ w2 (pulses-Ensures d w2 e2)
                λ w3 e3.
                  map_Ensures Q (λ _ d'. (d' ≡ merged from to d) × Left d) _
                    (λ _ d' (same, left). rw same (refl, MovesBalance-merged d h, apart, left))
                    (last-Ensures d w3 e3)
    where
      Q : Unit {0} → Db → Type 0
      Q = Merged from to d

-- A merge moves every row and the balance of one user to the other and removes that user, or it
-- fails and changes nothing; it succeeds only where the user has done nothing as an admin.
pub merge-Merged :
    (from to : ℕ) (w : World) → AllOrNothing w.db (Merged from to w.db) (merge from to w)
unfolding merge
merge-Merged from to w = raise_if-AllOrNothing (Merged from to w.db) _ _ _ w λ distinct.
    atomically_lem (Merged from to w.db) _ w
      (statements-Merged from to w.db (next w) refl (λ e. ground arith))
