-- ===== src/Store/Statements.antt =====
-- How a service runs statements on its store (internal/store/store.go opens SQLite with one
-- connection, so the statements of a transaction run with no others between them).
-- Any statement may fail: `fails` says which, by their number since the start.
use dogecade.Common.{Bool, Option, false, if◌then◌else◌, none, some, suc, ℕ, ◌≡◌}
use dogecade.Store.Rows.{Db, Error, db_failure}

pub data Result (A : Type 0) : Type 0 where
  ok : A → Result A
  err : Error → Result A

pub record World : Type 0 where
  pub db : Db
  pub fails : ℕ → Bool
  pub count : ℕ

abbrev pub Action : Type 0 → Type 0
Action A = World → Result A × World

abbrev pub next : World → World
next w = record w { count = suc w.count }

abbrev pub written : {A : Type 0} → World → Result A × Db → Result A × World
written w (r, d) = (r, record w { db = d })

module _ {A : Type 0} where
  abbrev pub pure : A → Action A
  pure a w = (ok a, w)

  abbrev pub raise : Error → Action A
  raise e w = (err e, w)

  -- One statement: it fails and changes nothing, or does its work on the tables.
  unfoldable pub exec : (Db → Result A × Db) → Action A
  exec f w = if w.fails w.count then (err db_failure, next w) else written (next w) (f w.db)

  unfoldable pub or_raise : Option A → Error → Action A
  or_raise none e = raise e
  or_raise (some a) _ = pure a

  -- A query.
  unfoldable pub query : (Db → A) → Action A
  query f = exec (λ d. (ok (f d), d))

  -- A call whose error is taken as a value.
  unfoldable pub caught : Action A → Action (Result A)
  caught m w = (ok (m w).0, (m w).1)

  abbrev pub close : World → Result A × World → Result A × World
  close w (ok a, w') =
      if w'.fails w'.count
      then (err db_failure, record (next w') { db = w.db })
      else (ok a, next w')
  close w (err e, w') = (err e, record w' { db = w.db })

  -- BEGIN, the body, COMMIT; on any error the deferred ROLLBACK brings the tables back.
  unfoldable pub atomically : Action A → Action A
  atomically m w = if w.fails w.count then (err db_failure, next w) else close w (m (next w))

abbrev pub bound : {A B : Type 0} → (A → Action B) → Result A × World → Result B × World
bound f (ok a, w) = f a w
bound f (err e, w) = (err e, w)

infixl 5 ◌>>=◌ ◌>>◌
unfoldable pub ◌>>=◌ : {A B : Type 0} → Action A → (A → Action B) → Action B
◌>>=◌ m f w = bound f (m w)

unfoldable pub ◌>>◌ : {B : Type 0} → Action (Unit {0}) → Action B → Action B
m >> k = m >>= λ _. k

unfoldable pub raise_if : Bool → Error → Action (Unit {0})
raise_if c e w = (if c then err e else ok tt, w)

-- A write that cannot break a constraint.
unfoldable pub modify : (Db → Db) → Action (Unit {0})
modify f = exec (λ d. (ok tt, f d))

-- A world in which no statement fails.
abbrev pub calm : Db → ℕ → World
calm d n = record { db = d; fails = λ _. false; count = n }

-- What a call ensures of the tables when it succeeds.
abbrev pub Ensures : {A : Type 0} → (A → Db → Type 0) → Result A × World → Type 0
Ensures Q (ok a, w) = Q a w.db
Ensures Q (err _, w) = Unit

-- A call that fails leaves the tables as they were, `d`.
abbrev pub AllOrNothing : {A : Type 0} → Db → (A → Db → Type 0) → Result A × World → Type 0
AllOrNothing d Q (ok a, w) = Q a w.db
AllOrNothing d Q (err _, w) = w.db ≡ d

-- All that a service is written with, to be unfolded together.
unfoldable pub statements : Unit {0}
unfolding exec query modify atomically raise_if or_raise caught ◌>>=◌ ◌>>◌
statements = tt
