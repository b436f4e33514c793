-- ===== src/Web/Newest.antt =====
-- What stands first in an ordered selection (`ORDER BY ... DESC LIMIT 1`), told without the order.
use dogecade.Common.{
  All, Bool, Bool-cases, List, [], any, arith, false, inl, inr, insert_desc, leb, order_desc, refl,
  select, true, ℕ, ◌∷◌, ◌≡◌, ◌≤◌, ◌⊎◌,
}

module _ {A : Type 0} where
  -- Some element has the property.
  abbrev pub Some : (A → Type 0) → List A → Type 0
  Some P [] = ⊥
  Some P (x ∷ xs) = P x ⊎ Some P xs

  pub any-Some :
      (p : A → Bool) (P : A → Type 0) (xs : List A)
      → ((x : A) → p x ≡ true → P x)
      → any p xs ≡ true
      → Some P xs
  any-Some p P [] f h = cc
  any-Some p P (x ∷ xs) f h = elim (Bool-cases (p x)) [
    | inl e ↦ inl (f x e)
    | inr e ↦ inr (any-Some p P xs f (ground arith))
  ]

  pub Some-any :
      (p : A → Bool) (P : A → Type 0) (xs : List A)
      → ((x : A) → P x → p x ≡ true)
      → Some P xs
      → any p xs ≡ true
  Some-any p P [] f h = elim h [ ]
  Some-any p P (x ∷ xs) f (inl h) = rw (f x h) refl
  Some-any p P (x ∷ xs) f (inr h) = let later = Some-any p P xs f h in ground arith

  -- `x` stands in the list and has the property, and none that has it has a greater key.
  abbrev pub IsNewest : (A → ℕ) → (A → Type 0) → A → List A → Type 0
  IsNewest key P x xs = Some (λ y. y ≡ x) xs × P x × All (λ y. P y → key y ≤ key x) xs

  -- What the first of the ordered selection is.
  abbrev pub IsFirst : (A → ℕ) → (A → Bool) → List A → List A → Type 0
  IsFirst key p xs [] = All (λ y. p y ≡ false) xs
  IsFirst key p xs (x ∷ rest) =
      Some (λ y. y ≡ x) xs × (p x ≡ true) × All (λ y. p y ≡ true → key y ≤ key x) xs

  All-below :
      (key : A → ℕ) (p : A → Bool) (n m : ℕ) (xs : List A)
      → n ≤ m
      → All (λ y. p y ≡ true → key y ≤ n) xs
      → All (λ y. p y ≡ true → key y ≤ m) xs
  All-below key p n m [] h a = tt
  All-below key p n m (x ∷ xs) h a = (λ t. omega (arith, a.0 t), All-below key p n m xs h a.1)

  All-nothing :
      (key : A → ℕ) (p : A → Bool) (n : ℕ) (xs : List A)
      → All (λ y. p y ≡ false) xs
      → All (λ y. p y ≡ true → key y ≤ n) xs
  All-nothing key p n [] a = tt
  All-nothing key p n (x ∷ xs) a = (λ t. cc, All-nothing key p n xs a.1)

  insert-IsFirst :
      (key : A → ℕ) (p : A → Bool) (x : A) (xs l : List A)
      → p x ≡ true
      → IsFirst key p xs l
      → IsFirst key p (x ∷ xs) (insert_desc key x l)
  insert-IsFirst key p x xs [] t h =
      (inl refl, t, (λ _. omega arith, All-nothing key p (key x) xs h))
  insert-IsFirst key p x xs (y ∷ l) t h = elim (Bool-cases (leb (key y) (key x))) [
    | inl e ↦
        rw e
          (inl refl, t, (λ _. omega arith, All-below key p (key y) (key x) xs (ground arith) h.2))
    | inr e ↦ rw e (inr h.0, h.1, (λ _. ground arith, h.2))
  ]

  skip-IsFirst :
      (key : A → ℕ) (p : A → Bool) (x : A) (xs l : List A)
      → p x ≡ false
      → IsFirst key p xs l
      → IsFirst key p (x ∷ xs) l
  skip-IsFirst key p x xs [] f h = (f, h)
  skip-IsFirst key p x xs (y ∷ l) f h = (inr h.0, h.1, (λ t. cc, h.2))

  pub order_desc-IsFirst :
      (key : A → ℕ) (p : A → Bool) (xs : List A) → IsFirst key p xs (order_desc key (select p xs))
  order_desc-IsFirst key p [] = tt
  order_desc-IsFirst key p (x ∷ xs) = elim (Bool-cases (p x)) [
    | inl e ↦
        rw e
          (insert-IsFirst key p x xs (order_desc key (select p xs)) e (order_desc-IsFirst key p xs))
    | inr e ↦
        rw e
          (skip-IsFirst key p x xs (order_desc key (select p xs)) e (order_desc-IsFirst key p xs))
  ]

  pub All-map : (P Q : A → Type 0) (xs : List A) → ((x : A) → P x → Q x) → All P xs → All Q xs
  All-map P Q [] f h = tt
  All-map P Q (x ∷ xs) f h = (f x h.0, All-map P Q xs f h.1)
