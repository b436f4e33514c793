-- ===== src/Deposits/Identity.antt =====
-- The number of a deposit names one row of the table, when the numbers are distinct.
use dogecade.Common.{
  All, Bool, Bool-cases, List, [], any, ap, arith, count_if, false, find, inl, inr, refl, some,
  true, ℕ, ◌++◌, ◌==◌, ◌||◌, ◌∙◌, ◌∷◌, ◌≡◌, ◌≤◌,
}
use dogecade.Store.{Deposit, DepositState, confirmed, credited, next_id, orphaned, seen}
use dogecade.Purchase.{deposit_has}
use dogecade.Deposits.{claimable, is_confirmed}
use dogecade.Deposits.StateMachine.{IsIn, distinct_ids}

-- Every number in the table is below the next one.
bounded :
    (rows : List Deposit) (i : ℕ)
    → next_id (λ (x : Deposit). x.id) rows ≤ i
    → any (deposit_has i) rows ≡ false
bounded [] i h = refl
bounded (x ∷ rows) i h = ground (arith, bounded rows i)

any-append :
    (p : Deposit → Bool) (xs : List Deposit) (y : Deposit) → any p (xs ++ y ∷ []) ≡ any p xs || p y
any-append p [] y = ground arith
any-append p (x ∷ xs) y = ground (arith, any-append p xs y)

pub distinct_ids-append :
    (rows : List Deposit) (y : Deposit)
    → any (deposit_has y.id) rows ≡ false
    → distinct_ids rows ≡ true
    → distinct_ids (rows ++ y ∷ []) ≡ true
distinct_ids-append [] y h d = refl
distinct_ids-append (x ∷ rows) y h d =
    ground (arith, any-append (deposit_has x.id) rows y, distinct_ids-append rows y)

pub next_id-fresh :
    (rows : List Deposit) → any (deposit_has (next_id (λ (x : Deposit). x.id) rows)) rows ≡ false
next_id-fresh rows = bounded rows (next_id (λ (x : Deposit). x.id) rows) (omega arith)

module _ (P : Deposit → Type 0) where
  -- Nothing is said of rows that are not there.
  absent :
      (i : ℕ) (rows : List Deposit)
      → any (deposit_has i) rows ≡ false
      → All (λ x. (x.id == i) ≡ true → P x) rows
  absent i [] h = tt
  absent i (x ∷ rows) h = elim (Bool-cases (x.id == i)) [
    | inl e ↦ let wrong : true ≡ false = ground arith in cc
    | inr e ↦ (λ k. let wrong : true ≡ false = ground arith in cc, absent i rows (ground arith))
  ]

  -- What holds of a new row holds of all with its number.
  pub appended :
      (rows : List Deposit) (y : Deposit)
      → any (deposit_has y.id) rows ≡ false
      → P y
      → All (λ x. (x.id == y.id) ≡ true → P x) (rows ++ y ∷ [])
  appended [] y h py = (λ _. py, tt)
  appended (x ∷ rows) y h py =
      (λ k. let wrong : true ≡ false = ground arith in cc, appended rows y (ground arith) py)

found_elsewhere :
    (p : Deposit → Bool) (i : ℕ) (rows : List Deposit) (x : Deposit)
    → find p rows ≡ some x
    → any (deposit_has i) rows ≡ false
    → (x.id == i) ≡ false
found_elsewhere p i [] x h g = cc
found_elsewhere p i (y ∷ rows) x h g = ground (arith, found_elsewhere p i rows x)

-- The row that is found is the only one with its number.
pub find-only :
    (p : Deposit → Bool) (rows : List Deposit) (x : Deposit)
    → find p rows ≡ some x
    → distinct_ids rows ≡ true
    → All (λ y. (y.id == x.id) ≡ true → y ≡ x) rows
find-only p [] x h d = tt
find-only p (y ∷ rows) x h d = elim (Bool-cases (p y)) [
  | inl e ↦
      let same : y ≡ x = ground arith in (λ _. same, absent (λ z. z ≡ x) x.id rows (ground arith))
  | inr e ↦
      let later : find p rows ≡ some x = ground arith in
      let other : (x.id == y.id) ≡ false = found_elsewhere p y.id rows x later (ground arith) in
      (λ k. let wrong : true ≡ false = ground arith in cc, find-only p rows x later (ground arith))
]

-- So all rows with the number are in its state.
pub found-IsIn :
    (p : Deposit → Bool) (rows : List Deposit) (x : Deposit) (s : DepositState)
    → x.state ≡ s
    → find p rows ≡ some x
    → distinct_ids rows ≡ true
    → IsIn s x.id rows
found-IsIn p rows x s is found k = only rows (find-only p rows x found k)
  where
    only : (ys : List Deposit) → All (λ y. (y.id == x.id) ≡ true → y ≡ x) ys → IsIn s x.id ys
    only [] h = tt
    only (y ∷ ys) h = (λ e. ap (λ z. z.state) (h.0 e) ∙ is, only ys h.1)

confirmed_lem : (s : DepositState) → is_confirmed s ≡ true → s ≡ confirmed
confirmed_lem seen h = cc
confirmed_lem confirmed h = refl
confirmed_lem credited h = cc
confirmed_lem orphaned h = cc

not_there :
    (id clock : ℕ) (rows : List Deposit)
    → any (deposit_has id) rows ≡ false
    → count_if (claimable id clock) rows ≡ 0
not_there id clock [] h = refl
not_there id clock (x ∷ rows) h = ground (arith, not_there id clock rows)

-- The one row that can be claimed is confirmed, and no other row has its number.
pub claimable-IsIn :
    (id clock : ℕ) (rows : List Deposit)
    → count_if (claimable id clock) rows ≡ 1
    → distinct_ids rows ≡ true
    → IsIn confirmed id rows
claimable-IsIn id clock [] h d = tt
claimable-IsIn id clock (y ∷ rows) h d = elim (Bool-cases (y.id == id)) [
  | inl e ↦
      let alone : any (deposit_has id) rows ≡ false = ground arith in
      let state : is_confirmed y.state ≡ true = ground (arith, not_there id clock rows alone) in
      (λ _. confirmed_lem y.state state, absent (λ z. z.state ≡ confirmed) id rows alone)
  | inr e ↦ (
    λ k. let wrong : true ≡ false = ground arith in cc,
    claimable-IsIn id clock rows (ground arith) (ground arith),
  )
]
