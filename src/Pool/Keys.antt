-- ===== src/Pool/Keys.antt =====
-- The primary key of the address table, and the claim of one row by it.
use dogecade.Common.{
  All, Bool, Bool-cases, List, Option-cases, [], any, arith, false, inl, inr, ltb, none, some,
  subst, true, ℕ, ◌&&◌, ◌∷◌, ◌≡◌, ◌≢◌, ◌≤◌, ◌⊎◌,
}
use dogecade.Store.{Address}
use dogecade.Pool.{has_id, oldest}

-- The row stands in the table.
abbrev pub In : Address → List Address → Type 0
In a [] = ⊥
In a (x ∷ rows) = (x ≡ a) ⊎ In a rows

-- No two rows share an id.
abbrev pub IsKeyed : List Address → Type 0
IsKeyed [] = Unit
IsKeyed (x ∷ rows) = (any (has_id x.id) rows ≡ false) × IsKeyed rows

-- `a` is a row that passes the test, and no row that passes it has a smaller id.
abbrev pub IsOldest : (Address → Bool) → Address → List Address → Type 0
IsOldest p a rows = In a rows × (p a ≡ true) × All (λ b. p b ≡ true → a.id ≤ b.id) rows

pub oldest-none :
    (p : Address → Bool) (rows : List Address) → oldest p rows ≡ none → All (λ b. p b ≡ false) rows
unfolding oldest
oldest-none p [] h = tt
oldest-none p (x ∷ rows) h = ground (arith, oldest-none p rows)

All-le :
    (p : Address → Bool) (n m : ℕ) (rows : List Address)
    → n ≤ m
    → All (λ b. p b ≡ true → m ≤ b.id) rows
    → All (λ b. p b ≡ true → n ≤ b.id) rows
All-le p n m [] h a = tt
All-le p n m (x ∷ rows) h a = (λ t. omega (arith, a.0 t), All-le p n m rows h a.1)

All-vacuous :
    (p : Address → Bool) (n : ℕ) (rows : List Address)
    → All (λ b. p b ≡ false) rows
    → All (λ b. p b ≡ true → n ≤ b.id) rows
All-vacuous p n [] a = tt
All-vacuous p n (x ∷ rows) a = (λ t. cc, All-vacuous p n rows a.1)

-- The row that the query for the oldest one answers is a row of the table that passes the test,
-- and no row that passes it has a smaller number.
pub oldest-IsOldest :
    (p : Address → Bool) (rows : List Address) (a : Address)
    → oldest p rows ≡ some a
    → IsOldest p a rows
unfolding oldest
oldest-IsOldest p [] a h = cc
oldest-IsOldest p (x ∷ rows) a h = elim (Option-cases (oldest p rows)) [
  | inl e ↦ elim (Bool-cases (p x)) [
    | inl t ↦
        let same : x ≡ a = ground arith in
        (
          inl same,
          ground arith,
          (λ _. ground arith, All-vacuous p a.id rows (oldest-none p rows e)),
        )
    | inr f ↦ absurd (ground arith)
  ]
  | inr (b, e) ↦
      let (i, t, least) = oldest-IsOldest p rows b e in
      elim (Bool-cases (p x && ltb x.id b.id)) [
        | inl first ↦
            let same : x ≡ a = ground arith in
            (
              inl same,
              ground arith,
              (λ _. ground arith, All-le p a.id b.id rows (ground arith) least),
            )
        | inr later ↦
            let same : b ≡ a = ground arith in
            (
              inr (subst (λ c. In c rows) same i),
              ground arith,
              (λ px. ground arith, All-le p a.id b.id rows (ground arith) least),
            )
      ]
]

pub In-any :
    (a : Address) (n : ℕ) (rows : List Address) → In a rows → any (has_id n) rows ≡ false → a.id ≢ n
In-any a n [] i h = absurd i
In-any a n (x ∷ rows) (inl e) h = ground arith
In-any a n (x ∷ rows) (inr i) h = In-any a n rows i (ground arith)
