-- ===== src/Pool/Claim.antt =====
-- Claiming one pooled row: it is the only row that changes, and the UNIQUE indexes hold after it if
-- no assigned row stood against it.
use dogecade.Common.{
  All, Bool, List, [], any, arith, count_if, false, find, inl, inr, none, refl, some, true,
  update_if, ℕ, ◌∷◌, ◌≡◌,
}
use dogecade.Store.{Address, is_pool}
use dogecade.Pool.{clash, has_id, no_clash, still_pooled}
use dogecade.Pool.Keys.{In, In-any, IsKeyed}

find-none :
    (p : Address → Bool) (rows : List Address) → find p rows ≡ none → All (λ b. p b ≡ false) rows
find-none p [] h = tt
find-none p (x ∷ rows) h = ground (arith, find-none p rows)

pub find-none-All :
    (p : Address → Bool) (rows : List Address) → find p rows ≡ none → All (λ b. p b ≡ false) rows
find-none-All p rows h = find-none p rows h

module _ (id : ℕ) (f : Address → Address) where
  unclaimed :
      (rows : List Address)
      → any (has_id id) rows ≡ false
      → update_if (still_pooled id) f rows ≡ rows
  unclaimed [] h = refl
  unclaimed (x ∷ rows) h = ground (arith, unclaimed rows)

  uncounted :
      (rows : List Address) → any (has_id id) rows ≡ false → count_if (still_pooled id) rows ≡ 0
  uncounted [] h = refl
  uncounted (x ∷ rows) h = ground (arith, uncounted rows)

-- A row clashes with none of the table.
abbrev pub Stands : Address → List Address → Type 0
Stands c rows = All (λ b. (clash c b ≡ false) × (clash b c ≡ false)) rows

module _ (row : Address) (pooled : is_pool row.state ≡ true) where
  -- The claim finds its row, once.
  pub claim_count :
      (rows : List Address) → IsKeyed rows → In row rows → count_if (still_pooled row.id) rows ≡ 1
  claim_count [] k i = absurd i
  claim_count (x ∷ rows) k (inl e) = ground (arith, uncounted row.id (λ a. a) rows)
  claim_count (x ∷ rows) k (inr i) =
      ground (arith, In-any row x.id rows i k.0, claim_count rows k.1 i)

  module _ (f : Address → Address) where
    -- What a test finds after the claim, where it found nothing before, is the claimed row.
    pub find-claim :
        (p : Address → Bool) (rows : List Address)
        → p (f row) ≡ true
        → IsKeyed rows
        → In row rows
        → find p rows ≡ none
        → find p (update_if (still_pooled row.id) f rows) ≡ some (f row)
    find-claim p [] t k i e = absurd i
    find-claim p (x ∷ rows) t k (inl same) e = ground arith
    find-claim p (x ∷ rows) t k (inr i) e =
        ground (arith, In-any row x.id rows i k.0, find-claim p rows t k.1 i)

    Stands-any : (rows : List Address) → Stands (f row) rows → any (clash (f row)) rows ≡ false
    Stands-any [] s = refl
    Stands-any (x ∷ rows) s = ground (arith, Stands-any rows s.1)

    any-claim :
        (x : Address) (rows : List Address)
        → IsKeyed rows
        → In row rows
        → clash x (f row) ≡ false
        → any (clash x) rows ≡ false
        → any (clash x) (update_if (still_pooled row.id) f rows) ≡ false
    any-claim x [] k i c h = absurd i
    any-claim x (y ∷ rows) k (inl same) c h = grind (arith, unclaimed row.id f rows)
    any-claim x (y ∷ rows) k (inr i) c h =
        grind (arith, In-any row y.id rows i k.0, any-claim x rows k.1 i)

    pub no_clash-claim :
        (rows : List Address)
        → IsKeyed rows
        → In row rows
        → Stands (f row) rows
        → no_clash rows ≡ true
        → no_clash (update_if (still_pooled row.id) f rows) ≡ true
    no_clash-claim [] k i s h = absurd i
    no_clash-claim (x ∷ rows) k (inl same) s h =
        grind (arith, unclaimed row.id f rows, Stands-any rows)
    no_clash-claim (x ∷ rows) k (inr i) s h =
        grind (arith, In-any row x.id rows i k.0, any-claim x rows k.1 i, no_clash-claim rows k.1 i)
