-- ===== src/AddressBatch/Registered.antt =====
-- The registration of a batch with the node, which cannot fail and changes nothing else.
-- An address as it is before the node has taken it.
use dogecade.Common.{
  Bool, Bool-cases, List, Option, String, [], ap, inl, inr, map, none, refl, some, update_if, ℕ,
  ◌∙◌, ◌∷◌, ◌≡◌,
}
use dogecade.Store.{Action, Address, Db, World, next, ok, statements}
use dogecade.AddressBatch.{in_batch, mark_registered, register_all, register_with, registered_at}

abbrev pub unregistered : Address → Address
unregistered a = record a { node_registered_at = none }

-- The tables but for the addresses' registration.
abbrev pub SameButRegistration : Db → Db → Type 0
SameButRegistration d d' =
    (map unregistered d'.addresses ≡ map unregistered d.addresses)
    × (d' ≡ record d { addresses = d'.addresses })

unregistered_marked :
    (p : Address → Bool) (now : ℕ) (rows : List Address)
    → map unregistered (update_if p (registered_at now) rows) ≡ map unregistered rows
unregistered_marked p now [] = refl
unregistered_marked p now (a ∷ rows) = elim (Bool-cases (p a)) [
  | inl e ↦ rw (e, unregistered_marked p now rows) refl
  | inr e ↦ rw (e, unregistered_marked p now rows) refl
]

-- Registration does not fail, and changes nothing else.
abbrev pub Registers : Action (Unit {0}) → Type 0
Registers m =
    (d : Db) (w : World)
    → SameButRegistration d w.db
    → ((m w).0 ≡ ok tt) × SameButRegistration d (m w).1.db

same_marked :
    (s : String) (batch now : ℕ) (d d' : Db)
    → SameButRegistration d d'
    → SameButRegistration d (mark_registered s batch now d')
same_marked s batch now d d' (rows, tables) =
    (unregistered_marked (in_batch s batch) now d'.addresses ∙ rows, ap with_marks tables)
  where
    with_marks : Db → Db
    with_marks t = record t {
      addresses = update_if (in_batch s batch) (registered_at now) d'.addresses;
    }

register_all-Registers :
    (takes : String → Bool) (batch now : ℕ) (order : List String)
    → Registers (register_all takes batch now order)
unfolding register_all statements
register_all-Registers takes batch now [] d w h = (refl, h)
register_all-Registers takes batch now (s ∷ rest) d w h = elim (Bool-cases (takes s)) [
  | inr untaken ↦ rw untaken (register_all-Registers takes batch now rest d w h)
  | inl taken ↦ elim (Bool-cases (w.fails w.count)) [
    | inl down ↦ rw (taken, down) (register_all-Registers takes batch now rest d (next w) h)
    | inr up ↦
        rw (taken, up)
          (register_all-Registers takes batch now rest d
            (record (next w) { db = mark_registered s batch now w.db })
            (same_marked s batch now d w.db h))
  ]
]

pub register_with-Registers :
    (importer : Option (String → Bool)) (batch now : ℕ) (order : List String)
    → Registers (register_with importer batch now order)
register_with-Registers none batch now order d w h = (refl, h)
register_with-Registers (some takes) batch now order d w h =
    register_all-Registers takes batch now order d w h
