-- ===== src/Pool/Assign.antt =====
-- The assignment of an address takes the oldest free row, and no other row changes.
use dogecade.Common.{String, count_if, refl, some, update_if, ℕ, ◌≡◌}
use dogecade.Store.{
  Address, AllOrNothing, Db, Purpose, World, assigned, atomically_lem, bind_Ensures, exec-Ensures,
  next, or_raise-Ensures, query-Ensures, raise_if-Ensures, weaken,
}
use dogecade.Pool.{assign, is_free, oldest, still_pooled}
use dogecade.Pool.WellFormed.{IsWellFormed, update_addresses-IsWellFormed}

-- What an assignment does: the row is the oldest free one, and it alone is assigned.
abbrev pub Assigned : Purpose → ℕ → Db → String × ℕ → Db → Type 0
Assigned purpose now d answer d' =
    (row : Address) × (oldest (is_free purpose) d.addresses ≡ some row)
    × (answer ≡ (row.address, row.id))
    × (d' ≡ record d {
      addresses =
          update_if (still_pooled row.id)
            (λ a. record a { state = assigned; assigned_at = some now }) d.addresses;
    })
    × IsWellFormed d'.addresses

-- Whatever statement fails, an assignment from a table that is in order marks the oldest free row
-- of its purpose assigned and answers it, with the table still in order, or leaves the tables as
-- they were.
pub assign-Assigned :
    (purpose : Purpose) (now : ℕ) (w : World)
    → IsWellFormed w.db.addresses
    → AllOrNothing w.db (Assigned purpose now w.db) (assign purpose now w)
unfolding assign
assign-Assigned purpose now w v = atomically_lem Q _ w (
    query-Ensures Q _ _ (next w) (
      or_raise-Ensures Q _ _ _ (next (next w)) λ row found.
        bind_Ensures Q (P row) _ _ (next (next w))
          (exec-Ensures (P row) _ (next (next w)) (
            weaken (P row) w.db _ (
              update_addresses-IsWellFormed (still_pooled row.id) mark w.db (next (next (next w)))
                (λ a. refl) (λ a h. cc) v)))
          λ n w' p. raise_if-Ensures Q _ _ _ w' λ _. (row, found, refl, p.0, p.2)))
  where
    mark : Address → Address
    mark a = record a { state = assigned; assigned_at = some now }

    Q : String × ℕ → Db → Type 0
    Q = Assigned purpose now w.db

    P : Address → ℕ → Db → Type 0
    P row n d' =
        (d' ≡ record w.db { addresses = update_if (still_pooled row.id) mark w.db.addresses })
        × (n ≡ count_if (still_pooled row.id) w.db.addresses)
        × IsWellFormed d'.addresses
