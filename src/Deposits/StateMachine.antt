-- ===== src/Deposits/StateMachine.antt =====
-- The states of a deposit as a machine: which state may follow which, and what else of a row stays.
use dogecade.Common.{
  All, Bool, List, [], any, arith, false, if◌then◌else◌, not, refl, true, update_if, ℕ, ◌&&◌, ◌++◌,
  ◌==◌, ◌∙◌, ◌∷◌, ◌≡◌,
}
use dogecade.Store.{Deposit, DepositState, confirmed, credited, orphaned, seen}
use dogecade.Purchase.{deposit_has}

-- The arrows, and their compositions.
abbrev pub leads : DepositState → DepositState → Bool
leads seen _ = true
leads confirmed seen = false
leads confirmed _ = true
leads credited credited = true
leads credited _ = false
leads orphaned orphaned = true
leads orphaned _ = false

-- The row `y` is what became of the row `x`.
abbrev pub Follows : Deposit → Deposit → Type 0
Follows x y =
    (y.id ≡ x.id)
    × (y.address_id ≡ x.address_id)
    × (y.txid ≡ x.txid)
    × (y.vout ≡ x.vout)
    × (y.amount_koinu ≡ x.amount_koinu)
    × (y.created_at ≡ x.created_at)
    × (leads x.state y.state ≡ true)

-- Each row is followed by one in its place, and new rows stand behind them.
abbrev pub Evolves : List Deposit → List Deposit → Type 0
Evolves [] ys = Unit
Evolves (x ∷ xs) [] = true ≡ false
Evolves (x ∷ xs) (y ∷ ys) = Follows x y × Evolves xs ys

abbrev pub distinct_ids : List Deposit → Bool
distinct_ids [] = true
distinct_ids (x ∷ rows) = not (any (deposit_has x.id) rows) && distinct_ids rows

-- Every row with the number is in the state.
abbrev pub IsIn : DepositState → ℕ → List Deposit → Type 0
IsIn s id = All (λ x. (x.id == id) ≡ true → x.state ≡ s)

pub leads_refl : (s : DepositState) → leads s s ≡ true
leads_refl seen = refl
leads_refl confirmed = refl
leads_refl credited = refl
leads_refl orphaned = refl

leads_trans : (a b c : DepositState) → leads a b ≡ true → leads b c ≡ true → leads a c ≡ true
leads_trans seen b c h g = refl
leads_trans confirmed seen c h g = cc
leads_trans confirmed confirmed c h g = g
leads_trans confirmed credited c h g = ground (arith, stuck c g)
  where
    stuck : (c : DepositState) → leads credited c ≡ true → c ≡ credited
    stuck credited g = refl
    stuck seen g = cc
    stuck confirmed g = cc
    stuck orphaned g = cc
leads_trans confirmed orphaned c h g = ground arith
leads_trans credited b c h g = ground arith
leads_trans orphaned b c h g = ground arith

pub Follows-refl : (x : Deposit) → Follows x x
Follows-refl x = (refl, refl, refl, refl, refl, refl, leads_refl x.state)

pub Follows-trans : (x y z : Deposit) → Follows x y → Follows y z → Follows x z
Follows-trans x y z h g = (
  g.0 ∙ h.0,
  g.1 ∙ h.1,
  g.2 ∙ h.2,
  g.3 ∙ h.3,
  g.4 ∙ h.4,
  g.5 ∙ h.5,
  leads_trans x.state y.state z.state h.6 g.6,
)

pub Evolves-refl : (xs : List Deposit) → Evolves xs xs
Evolves-refl [] = tt
Evolves-refl (x ∷ xs) = (Follows-refl x, Evolves-refl xs)

pub Evolves-trans : (xs ys zs : List Deposit) → Evolves xs ys → Evolves ys zs → Evolves xs zs
Evolves-trans [] ys zs h g = tt
Evolves-trans (x ∷ xs) [] zs h g = cc
Evolves-trans (x ∷ xs) (y ∷ ys) [] h g = g
Evolves-trans (x ∷ xs) (y ∷ ys) (z ∷ zs) h g =
    (Follows-trans x y z h.0 g.0, Evolves-trans xs ys zs h.1 g.1)

pub Evolves-append : (xs ys : List Deposit) → Evolves xs (xs ++ ys)
Evolves-append [] ys = tt
Evolves-append (x ∷ xs) ys = (Follows-refl x, Evolves-append xs ys)

-- An UPDATE, by what it does to the rows that it is for.
pub update-Evolves :
    (p : Deposit → Bool) (f : Deposit → Deposit) (xs : List Deposit)
    → All (λ x. p x ≡ true → Follows x (f x)) xs
    → Evolves xs (update_if p f xs)
update-Evolves p f [] h = tt
update-Evolves p f (x ∷ xs) h = (head (p x) h.0, update-Evolves p f xs h.1)
  where
    head : (b : Bool) → (b ≡ true → Follows x (f x)) → Follows x (if b then f x else x)
    head true k = k refl
    head false k = Follows-refl x

pub any-update :
    (i : ℕ) (p : Deposit → Bool) (f : Deposit → Deposit) (xs : List Deposit)
    → ((x : Deposit) → (f x).id ≡ x.id)
    → any (deposit_has i) (update_if p f xs) ≡ any (deposit_has i) xs
any-update i p f [] h = refl
any-update i p f (x ∷ xs) h = ground (arith, h x, any-update i p f xs h)

pub distinct_ids-update :
    (p : Deposit → Bool) (f : Deposit → Deposit) (xs : List Deposit)
    → ((x : Deposit) → (f x).id ≡ x.id)
    → distinct_ids (update_if p f xs) ≡ distinct_ids xs
distinct_ids-update p f [] h = refl
distinct_ids-update p f (x ∷ xs) h =
    ground (arith, kept, any-update x.id p f xs h, distinct_ids-update p f xs h)
  where
    kept : (if p x then f x else x).id ≡ x.id
    kept = ground (arith, h x)
