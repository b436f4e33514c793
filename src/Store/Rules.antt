-- ===== src/Store/Rules.antt =====
-- Rules for the statements in sequence: what a service ensures, one statement at a time.
use dogecade.Common.{Bool, Bool-cases, Option, false, inl, inr, none, refl, some, true, ◌∙◌, ◌≡◌}
use dogecade.Store.Rows.{Db, Error}
use dogecade.Store.Statements.{
  Action, AllOrNothing, Ensures, Result, World, atomically, bound, caught, close, err, exec, modify,
  next, ok, or_raise, query, raise_if, written, ◌>>=◌, ◌>>◌,
}

module _ {A : Type 0} (Q : A → Db → Type 0) where
  -- A transaction is all or nothing, whatever its body does before it fails.
  pub atomically_lem :
      (m : Action A) (w : World) → Ensures Q (m (next w)) → AllOrNothing w.db Q (atomically m w)
  unfolding atomically
  atomically_lem m w h = elim (Bool-cases (w.fails w.count)) [
    | inl down ↦ rw down refl
    | inr up ↦ rw up (closed (m (next w)) h)
  ]
    where
      closed : (r : Result A × World) → Ensures Q r → AllOrNothing w.db Q (close w r)
      closed (err e, w') h = refl
      closed (ok a, w') h = elim (Bool-cases (w'.fails w'.count)) [
        | inl down ↦ rw down refl
        | inr up ↦ rw up h
      ]

  -- A statement that fails changes nothing.
  pub exec_lem :
      (f : Db → Result A × Db) (w : World)
      → AllOrNothing w.db Q (written (next w) (f w.db))
      → AllOrNothing w.db Q (exec f w)
  unfolding exec
  exec_lem f w h = elim (Bool-cases (w.fails w.count)) [
    | inl down ↦ rw down refl
    | inr up ↦ rw up h
  ]

  pub exec-Ensures :
      (f : Db → Result A × Db) (w : World)
      → Ensures Q (written (next w) (f w.db))
      → Ensures Q (exec f w)
  unfolding exec
  exec-Ensures f w h = elim (Bool-cases (w.fails w.count)) [
    | inl down ↦ rw down tt
    | inr up ↦ rw up h
  ]

  pub map_Ensures :
      (P : A → Db → Type 0) (r : Result A × World)
      → ((a : A) (d : Db) → P a d → Q a d)
      → Ensures P r
      → Ensures Q r
  map_Ensures P (ok a, w) f h = f a w.db h
  map_Ensures P (err e, w) f h = tt

  pub weaken : (d : Db) (r : Result A × World) → AllOrNothing d Q r → Ensures Q r
  weaken d (ok a, w) h = h
  weaken d (err e, w) h = tt

pub map_AllOrNothing :
    {A : Type 0} (P Q : A → Db → Type 0) (d : Db) (r : Result A × World)
    → ((a : A) (d' : Db) → P a d' → Q a d')
    → AllOrNothing d P r
    → AllOrNothing d Q r
map_AllOrNothing P Q d (ok a, w) f h = f a w.db h
map_AllOrNothing P Q d (err e, w) f h = h

module _ {A B : Type 0} (Q : B → Db → Type 0) where
  pub query-Ensures :
      (f : Db → A) (k : A → Action B) (w : World)
      → Ensures Q (k (f w.db) (next w))
      → Ensures Q ((query f >>= k) w)
  unfolding ◌>>=◌ query exec
  query-Ensures f k w h = elim (Bool-cases (w.fails w.count)) [
    | inl down ↦ rw down tt
    | inr up ↦ rw up h
  ]

  pub query-AllOrNothing :
      (f : Db → A) (k : A → Action B) (w : World)
      → AllOrNothing w.db Q (k (f w.db) (next w))
      → AllOrNothing w.db Q ((query f >>= k) w)
  unfolding ◌>>=◌ query exec
  query-AllOrNothing f k w h = elim (Bool-cases (w.fails w.count)) [
    | inl down ↦ rw down refl
    | inr up ↦ rw up h
  ]

  -- After a call that only reads.
  pub read_AllOrNothing :
      (P : A → Type 0) (m : Action A) (k : A → Action B) (w : World)
      → AllOrNothing w.db (λ a d'. (d' ≡ w.db) × P a) (m w)
      → ((a : A) (w' : World) → w'.db ≡ w.db → P a → AllOrNothing w.db Q (k a w'))
      → AllOrNothing w.db Q ((m >>= k) w)
  unfolding ◌>>=◌
  read_AllOrNothing P m k w h rest = go (m w) h
    where
      go :
          (r : Result A × World)
          → AllOrNothing w.db (λ a d'. (d' ≡ w.db) × P a) r
          → AllOrNothing w.db Q (bound k r)
      go (ok a, w') (same, p) = rest a w' same p
      go (err e, w') same = same

  -- After a call the rest runs on what the call ensured.
  pub bind_Ensures :
      (P : A → Db → Type 0) (m : Action A) (k : A → Action B) (w : World)
      → Ensures P (m w)
      → ((a : A) (w' : World) → P a w'.db → Ensures Q (k a w'))
      → Ensures Q ((m >>= k) w)
  unfolding ◌>>=◌
  bind_Ensures P m k w h rest = go (m w) h
    where
      go : (r : Result A × World) → Ensures P r → Ensures Q (bound k r)
      go (ok a, w') p = rest a w' p
      go (err e, w') p = tt

  -- The same, for the tables `d` that the world holds.
  pub read_from :
      (P : A → Type 0) (m : Action A) (k : A → Action B) (d : Db) (w : World)
      → w.db ≡ d
      → AllOrNothing w.db (λ a d'. (d' ≡ w.db) × P a) (m w)
      → ((a : A) (w' : World) → w'.db ≡ d → P a → AllOrNothing d Q (k a w'))
      → AllOrNothing d Q ((m >>= k) w)
  unfolding ◌>>=◌
  read_from P m k d w eq h rest = go (m w) h
    where
      go :
          (r : Result A × World)
          → AllOrNothing w.db (λ a d'. (d' ≡ w.db) × P a) r
          → AllOrNothing d Q (bound k r)
      go (ok a, w') (same, p) = rest a w' (same ∙ eq) p
      go (err e, w') same = same ∙ eq

  -- The calls after it keep a failure all or nothing, as long as what it ensured leaves nothing to
  -- take back.
  pub bind_AllOrNothing :
      (P : A → Db → Type 0) (d : Db) (m : Action A) (k : A → Action B) (w : World)
      → AllOrNothing d P (m w)
      → ((a : A) (w' : World) → P a w'.db → AllOrNothing d Q (k a w'))
      → AllOrNothing d Q ((m >>= k) w)
  unfolding ◌>>=◌
  bind_AllOrNothing P d m k w h rest = go (m w) h
    where
      go : (r : Result A × World) → AllOrNothing d P r → AllOrNothing d Q (bound k r)
      go (ok a, w') p = rest a w' p
      go (err e, w') p = p

  pub or_raise-Ensures :
      (o : Option A) (e : Error) (k : A → Action B) (w : World)
      → ((a : A) → o ≡ some a → Ensures Q (k a w))
      → Ensures Q ((or_raise o e >>= k) w)
  unfolding ◌>>=◌ or_raise
  or_raise-Ensures none e k w h = tt
  or_raise-Ensures (some a) e k w h = h a refl

  pub or_raise-AllOrNothing :
      (o : Option A) (e : Error) (k : A → Action B) (w : World)
      → ((a : A) → o ≡ some a → AllOrNothing w.db Q (k a w))
      → AllOrNothing w.db Q ((or_raise o e >>= k) w)
  unfolding ◌>>=◌ or_raise
  or_raise-AllOrNothing none e k w h = refl
  or_raise-AllOrNothing (some a) e k w h = h a refl

module _ {B : Type 0} (Q : B → Db → Type 0) where
  pub then_Ensures :
      (P : Db → Type 0) (m : Action (Unit {0})) (k : Action B) (w : World)
      → Ensures (λ _. P) (m w)
      → ((w' : World) → P w'.db → Ensures Q (k w'))
      → Ensures Q ((m >> k) w)
  unfolding ◌>>◌
  then_Ensures P m k w h rest = bind_Ensures Q (λ _. P) m (λ _. k) w h (λ _. rest)

  pub raise_if-Ensures :
      (c : Bool) (e : Error) (k : Action B) (w : World)
      → (c ≡ false → Ensures Q (k w))
      → Ensures Q ((raise_if c e >> k) w)
  unfolding ◌>>◌ ◌>>=◌ raise_if
  raise_if-Ensures true e k w h = tt
  raise_if-Ensures false e k w h = h refl

  pub raise_if-AllOrNothing :
      (c : Bool) (e : Error) (k : Action B) (w : World)
      → (c ≡ false → AllOrNothing w.db Q (k w))
      → AllOrNothing w.db Q ((raise_if c e >> k) w)
  unfolding ◌>>◌ ◌>>=◌ raise_if
  raise_if-AllOrNothing true e k w h = refl
  raise_if-AllOrNothing false e k w h = h refl

pub modify-Ensures :
    (P : Db → Type 0) (f : Db → Db) (w : World) → P (f w.db) → Ensures (λ _. P) (modify f w)
unfolding modify
modify-Ensures P f w h = exec-Ensures (λ _. P) _ w h

-- What is known of an answer that may be an error.
abbrev pub Answers : {A : Type 0} → (A → Type 0) → Result A → Type 0
Answers P (ok a) = P a
Answers P (err e) = Unit

-- After a call that only reads, its error taken as a value.
pub caught_read :
    {A B : Type 0} (Q : B → Db → Type 0) (P : A → Type 0) (m : Action A) (k : Result A → Action B)
    (w : World)
    → AllOrNothing w.db (λ a d'. (d' ≡ w.db) × P a) (m w)
    → ((r : Result A) (w' : World) → w'.db ≡ w.db → Answers P r → Ensures Q (k r w'))
    → Ensures Q ((caught m >>= k) w)
unfolding caught ◌>>=◌
caught_read {A} {B} Q P m k w h rest = go (m w) h
  where
    go :
        (r : Result A × World)
        → AllOrNothing w.db (λ a d'. (d' ≡ w.db) × P a) r
        → Ensures Q (k r.0 r.1)
    go (ok a, w') (same, p) = rest (ok a) w' same p
    go (err e, w') same = rest (err e) w' same tt

pub exec_keeps :
    {A : Type 0} (P : Db → Type 0) (f : Db → Result A × Db) (w : World)
    → P w.db
    → P (f w.db).1
    → P (exec f w).1.db
unfolding exec
exec_keeps P f w h g = elim (Bool-cases (w.fails w.count)) [
  | inl down ↦ rw down h
  | inr up ↦ rw up g
]
