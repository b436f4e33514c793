-- ===== src/Boards/Bindings.antt =====
-- A machine has at most one active binding, as the index of machine_relays asks.
use dogecade.Common.{
  List, [], any, arith, count_if, count_if-append, false, pos_part, refl, update_if, ℕ, ℤ, ◌++◌,
  ◌∷◌, ◌≡◌, ◌≤◌,
}
use dogecade.Store.{Db, Relay, World, exec_keeps, modify, next_id}
use dogecade.Boards.{bind, binds, has_binding_id, insert_relay, relay_row, unbind}

abbrev pub HasOneBinding : Db → Type 0
HasOneBinding d = (machine : ℕ) → count_if (binds machine) d.relays ≤ 1

count-none :
    (machine : ℕ) (rs : List Relay)
    → any (binds machine) rs ≡ false
    → count_if (binds machine) rs ≡ 0
count-none machine [] h = refl
count-none machine (r ∷ rs) h = ground (arith, count-none machine rs)

one_more :
    (machine m : ℕ) (r : Relay) (rs : List Relay)
    → r.machine_id ≡ machine
    → any (binds machine) rs ≡ false
    → count_if (binds m) rs ≤ 1
    → count_if (binds m) (rs ++ r ∷ []) ≤ 1
one_more machine m r rs e free h =
    rw (count_if-append (binds m) rs (r ∷ [])) (ground (arith, count-none machine rs free))

count-unbound :
    (id m : ℕ) (rs : List Relay)
    → count_if (binds m) (update_if (has_binding_id id) (λ r. record r { is_active = false }) rs)
      ≤ count_if (binds m) rs
count-unbound id m [] = omega arith
count-unbound id m (r ∷ rs) = ground (arith, count-unbound id m rs)

insert_relay-HasOneBinding :
    (machine board : ℕ) (number : ℤ) (d : Db)
    → HasOneBinding d
    → HasOneBinding (insert_relay machine board number d).1
unfolding insert_relay
insert_relay-HasOneBinding machine board number d h m = ground (
  arith,
  one_more machine m
      (relay_row machine board (pos_part number) (next_id (λ (r : Relay). r.id) d.relays)) d.relays
      refl,
  h m,
)

-- However the two calls end, a machine has at most one active binding after them if it had at most
-- one before.
pub bindings-HasOneBinding :
    (machine board id : ℕ) (number : ℤ) (w : World)
    → HasOneBinding w.db
    → HasOneBinding (bind machine board number w).1.db × HasOneBinding (unbind id w).1.db
unfolding bind unbind modify
bindings-HasOneBinding machine board id number w h = (
  exec_keeps HasOneBinding (insert_relay machine board number) w h
      (insert_relay-HasOneBinding machine board number w.db h),
  exec_keeps HasOneBinding _ w h (λ m. omega (arith, count-unbound id m w.db.relays, h m)),
)
