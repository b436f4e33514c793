-- ===== src/Store/Changes.antt =====
-- What a call may do to the tables however it ends: a relation between the tables before and after
-- it, which holds where nothing is done and passes from one statement to the next.
use dogecade.Common.{
  Bool, Bool-cases, Option, false, if◌then◌else◌, inl, inr, none, refl, some, true, ◌∙◌, ◌≡◌,
}
use dogecade.Store.Rows.{Db, Error}
use dogecade.Store.Statements.{
  Action, AllOrNothing, Result, World, atomically, bound, caught, close, err, exec, modify, next,
  ok, or_raise, query, raise_if, ◌>>=◌, ◌>>◌,
}

-- The interface: a relation on the tables that is reflexive and transitive.
pub record Change : Type 1 where
  pub Allows : Db → Db → Type 0
  pub stays : (d : Db) → Allows d d
  pub joins : (a b c : Db) → Allows a b → Allows b c → Allows a c

module _ (c : Change) where
  abbrev pub Moves : {A : Type 0} → Action A → Type 0
  Moves m = (w : World) → c.Allows w.db (m w).1.db

  pub or_raise-Moves : {A : Type 0} (o : Option A) (e : Error) → Moves (or_raise o e)
  unfolding or_raise
  or_raise-Moves none e w = c.stays w.db
  or_raise-Moves (some a) e w = c.stays w.db

  pub raise_if-Moves : (b : Bool) (e : Error) → Moves (raise_if b e)
  unfolding raise_if
  raise_if-Moves b e w = c.stays w.db

  pub if-Moves :
      {A : Type 0} (b : Bool) (m k : Action A) → Moves m → Moves k → Moves (if b then m else k)
  if-Moves true m k h g = h
  if-Moves false m k h g = g

  -- A statement, by what it does to the tables when it does not fail.
  pub exec-Moves :
      {A : Type 0} (f : Db → Result A × Db) → ((d : Db) → c.Allows d (f d).1) → Moves (exec f)
  unfolding exec
  exec-Moves f h w = elim (Bool-cases (w.fails w.count)) [
    | inl down ↦ rw down (c.stays w.db)
    | inr up ↦ rw up (h w.db)
  ]

  pub query-Moves : {A : Type 0} (f : Db → A) → Moves (query f)
  unfolding query
  query-Moves f = exec-Moves _ c.stays

  pub modify-Moves : (f : Db → Db) → ((d : Db) → c.Allows d (f d)) → Moves (modify f)
  unfolding modify
  modify-Moves f h = exec-Moves _ h

  -- A write from one world on.
  pub modify_from :
      (f : Db → Db) (w : World) → c.Allows w.db (f w.db) → c.Allows w.db (modify f w).1.db
  unfolding modify exec
  modify_from f w h = elim (Bool-cases (w.fails w.count)) [
    | inl down ↦ rw down (c.stays w.db)
    | inr up ↦ rw up h
  ]

  pub caught-Moves : {A : Type 0} (m : Action A) → Moves m → Moves (caught m)
  unfolding caught
  caught-Moves m h = h

  -- A sequence from one world on, where the rest may use what the answer was.
  pub bind_from :
      {A B : Type 0} (m : Action A) (k : A → Action B) (w : World)
      → c.Allows w.db (m w).1.db
      → ((a : A) → (m w).0 ≡ ok a → c.Allows (m w).1.db (k a (m w).1).1.db)
      → c.Allows w.db ((m >>= k) w).1.db
  unfolding ◌>>=◌
  bind_from {A = A} {B = B} m k w h rest = go (m w) h rest
    where
      go :
          (r : Result A × World)
          → c.Allows w.db r.1.db
          → ((a : A) → r.0 ≡ ok a → c.Allows r.1.db (k a r.1).1.db)
          → c.Allows w.db (bound k r).1.db
      go (ok a, w') h rest = c.joins w.db w'.db _ h (rest a refl)
      go (err e, w') h rest = h

  pub bind-Moves :
      {A B : Type 0} (m : Action A) (k : A → Action B)
      → Moves m
      → ((a : A) → Moves (k a))
      → Moves (m >>= k)
  bind-Moves m k h rest w = bind_from m k w (h w) (λ a _. rest a (m w).1)

  pub then-Moves :
      {B : Type 0} (m : Action (Unit {0})) (k : Action B) → Moves m → Moves k → Moves (m >> k)
  unfolding ◌>>◌
  then-Moves m k h rest = bind-Moves m (λ _. k) h (λ _. rest)

  -- A transaction from one world on.
  pub atomically_from :
      {A : Type 0} (m : Action A) (w : World)
      → c.Allows w.db (m (next w)).1.db
      → c.Allows w.db (atomically m w).1.db
  unfolding atomically
  atomically_from {A = A} m w h = elim (Bool-cases (w.fails w.count)) [
    | inl down ↦ rw down (c.stays w.db)
    | inr up ↦ rw up (closed (m (next w)) h)
  ]
    where
      closed : (r : Result A × World) → c.Allows w.db r.1.db → c.Allows w.db (close w r).1.db
      closed (err e, w') h = c.stays w.db
      closed (ok a, w') h = elim (Bool-cases (w'.fails w'.count)) [
        | inl down ↦ rw down (c.stays w.db)
        | inr up ↦ rw up h
      ]

  pub atomically-Moves : {A : Type 0} (m : Action A) → Moves m → Moves (atomically m)
  atomically-Moves m h w = atomically_from m w (h (next w))

  -- The rest runs on what the query found.
  pub query_from :
      {A B : Type 0} (f : Db → A) (k : A → Action B) (w : World)
      → c.Allows w.db (k (f w.db) (next w)).1.db
      → c.Allows w.db ((query f >>= k) w).1.db
  unfolding query exec ◌>>=◌
  query_from f k w h = elim (Bool-cases (w.fails w.count)) [
    | inl down ↦ rw down (c.stays w.db)
    | inr up ↦ rw up h
  ]

  -- A call that only reads.
  pub read-Moves :
      {A : Type 0} (P : World → A → Type 0) (m : Action A)
      → ((w : World) → AllOrNothing w.db (λ a d'. (d' ≡ w.db) × P w a) (m w))
      → Moves m
  read-Moves {A = A} P m h w = go (m w) (h w)
    where
      go :
          (r : Result A × World)
          → AllOrNothing w.db (λ a d'. (d' ≡ w.db) × P w a) r
          → c.Allows w.db r.1.db
      go (ok a, w') h = rw h.0 (c.stays w.db)
      go (err e, w') h = rw h (c.stays w.db)

  -- A call that is all or nothing.
  pub whole-Moves :
      {A : Type 0} (d : Db) (r : Result A × World)
      → AllOrNothing d (λ _. c.Allows d) r
      → c.Allows d r.1.db
  whole-Moves d (ok a, w) h = h
  whole-Moves d (err e, w) h = rw h (c.stays d)

-- A call that changes no table.
abbrev pub no_change : Change
no_change = record { Allows = λ d d'. d' ≡ d; stays = λ d. refl; joins = λ a b c h g. g ∙ h }

abbrev pub IsReadOnly : {A : Type 0} → Action A → Type 0
IsReadOnly = Moves no_change
