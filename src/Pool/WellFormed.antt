-- ===== src/Pool/WellFormed.antt =====
-- The invariant of the address table, and that each operation of pool.go keeps it.
use dogecade.Common.{
  All, Bool, Bool-cases, List, [], any, arith, count_if, inl, inr, none, refl, subst, true,
  update_if, ℕ, ◌∷◌, ◌≡◌,
}
use dogecade.Store.{Address, AllOrNothing, Db, World, is_pool, written}
use dogecade.Pool.{has_id, no_clash, update_addresses}
use dogecade.Pool.Keys.{In, IsKeyed}

-- A pooled row is bound to nobody.
abbrev pub IsUnbound : Address → Type 0
IsUnbound a = is_pool a.state ≡ true → (a.user_id ≡ none) × (a.machine_id ≡ none)

-- Ids are distinct, the UNIQUE indexes hold, and pooled rows are unbound.
pub record IsWellFormed (rows : List Address) : Type 0 where
  pub keyed : IsKeyed rows
  pub indexed : no_clash rows ≡ true
  pub unbound : All IsUnbound rows

module _ (q : Address → Bool) (f : Address → Address) where
  any-update :
      (n : ℕ) (rows : List Address)
      → ((a : Address) → (f a).id ≡ a.id)
      → any (has_id n) (update_if q f rows) ≡ any (has_id n) rows
  any-update n [] h = refl
  any-update n (x ∷ rows) h = ground (arith, h x, any-update n rows h)

  pub update-IsKeyed :
      (rows : List Address)
      → ((a : Address) → (f a).id ≡ a.id)
      → IsKeyed rows
      → IsKeyed (update_if q f rows)
  update-IsKeyed [] h k = tt
  update-IsKeyed (x ∷ rows) h k =
      ground (arith, h x, any-update x.id rows h, update-IsKeyed rows h k.1)

  pub update-IsUnbound :
      (rows : List Address)
      → ((a : Address) → IsUnbound (f a))
      → All IsUnbound rows
      → All IsUnbound (update_if q f rows)
  update-IsUnbound [] h u = tt
  update-IsUnbound (x ∷ rows) h u = elim (Bool-cases (q x)) [
    | inl e ↦ rw e (h x, update-IsUnbound rows h u.1)
    | inr e ↦ rw e (u.0, update-IsUnbound rows h u.1)
  ]

  -- An UPDATE that keeps ids and binds no pooled row keeps the invariant.
  pub update_addresses-IsWellFormed :
      (d : Db) (w : World)
      → ((a : Address) → (f a).id ≡ a.id)
      → ((a : Address) → IsUnbound (f a))
      → IsWellFormed d.addresses
      → AllOrNothing d
          (λ n d'.
            (d' ≡ record d { addresses = update_if q f d.addresses })
            × (n ≡ count_if q d.addresses)
            × IsWellFormed d'.addresses)
          (written w (update_addresses q f d))
  unfolding update_addresses
  update_addresses-IsWellFormed d w hi hu v =
      elim (Bool-cases (no_clash (update_if q f d.addresses))) [
        | inl e ↦ rw e (
          refl,
          refl,
          record {
            keyed = update-IsKeyed d.addresses hi v.keyed;
            indexed = e;
            unbound = update-IsUnbound d.addresses hu v.unbound;
          },
        )
        | inr e ↦ rw e refl
      ]

All-In : (P : Address → Type 0) (a : Address) (rows : List Address) → In a rows → All P rows → P a
All-In P a [] i h = absurd i
All-In P a (x ∷ rows) (inl e) h = subst P e h.0
All-In P a (x ∷ rows) (inr i) h = All-In P a rows i h.1

-- A row that stands in a table of unbound pooled rows.
pub In-IsUnbound :
    (a : Address) (rows : List Address) → In a rows → All IsUnbound rows → IsUnbound a
In-IsUnbound a rows i h = All-In IsUnbound a rows i h
