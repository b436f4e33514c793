-- ===== src/Deposits/Lawful.antt =====
-- The pipeline moves deposits along their states only, and no setting.
use dogecade.Common.{
  All, Bool, List, [], any, ap, arith, none, refl, subst, sym, true, update_if, ℕ, ◌==◌, ◌∙◌, ◌∷◌,
  ◌≡◌,
}
use dogecade.Store.{Change, Db, Deposit, DepositState, Moves}
use dogecade.Purchase.{deposit_has}
use dogecade.Deposits.{CreditHook}
use dogecade.Deposits.StateMachine.{
  Evolves, Evolves-refl, Evolves-trans, Follows, IsIn, distinct_ids, distinct_ids-update, leads,
  leads_refl, update-Evolves,
}

-- The texts of the settings stay; distinct numbers stay distinct, and each deposit is followed.
abbrev pub lawful : Change
lawful = record {
  Allows = λ d d'.
      (d'.settings ≡ d.settings)
      × (distinct_ids d.deposits ≡ true
          → (distinct_ids d'.deposits ≡ true) × Evolves d.deposits d'.deposits);
  stays = λ d. (refl, λ h. (h, Evolves-refl d.deposits));
  joins = λ a b c h g. (
    g.0 ∙ h.0,
    λ k.
        let first = h.1 k in
        let second = g.1 first.0 in
        (second.0, Evolves-trans a.deposits b.deposits c.deposits first.1 second.1),
  );
}

-- The deposits without the column that a hook may write.
abbrev pub without_remainders : List Deposit → List Deposit
without_remainders [] = []
without_remainders (x ∷ rows) = record x { remainder_koinu = none } ∷ without_remainders rows

-- What a credit hook may do: it leaves the settings alone, and the deposits but for that column.
abbrev pub harmless : Change
harmless = record {
  Allows = λ d d'.
      (d'.settings ≡ d.settings) × (without_remainders d'.deposits ≡ without_remainders d.deposits);
  stays = λ d. (refl, refl);
  joins = λ a b c h g. (g.0 ∙ h.0, g.1 ∙ h.1);
}

abbrev pub IsHarmless : CreditHook → Type 0
IsHarmless credit = (id now : ℕ) → Moves harmless (credit id now)

-- A row without the column is a row for every purpose but that one.
Follows-same :
    (x y : Deposit)
    → record y { remainder_koinu = none } ≡ record x { remainder_koinu = none }
    → Follows x y
Follows-same x y e = (
  ap (λ z. z.id) e,
  ap (λ z. z.address_id) e,
  ap (λ z. z.txid) e,
  ap (λ z. z.vout) e,
  ap (λ z. z.amount_koinu) e,
  ap (λ z. z.created_at) e,
  subst (λ t. leads x.state t ≡ true) (sym (ap (λ z. z.state) e)) (leads_refl x.state),
)

pub Evolves-same :
    (xs ys : List Deposit) → without_remainders ys ≡ without_remainders xs → Evolves xs ys
Evolves-same [] ys h = tt
Evolves-same (x ∷ xs) [] h = cc
Evolves-same (x ∷ xs) (y ∷ ys) h = (Follows-same x y cc, Evolves-same xs ys cc)

any-same :
    (i : ℕ) (xs ys : List Deposit)
    → without_remainders ys ≡ without_remainders xs
    → any (deposit_has i) ys ≡ any (deposit_has i) xs
any-same i [] [] h = refl
any-same i [] (y ∷ ys) h = cc
any-same i (x ∷ xs) [] h = cc
any-same i (x ∷ xs) (y ∷ ys) h =
    let id : y.id ≡ x.id = (Follows-same x y cc).0 in ground (arith, id, any-same i xs ys cc)

pub distinct_ids-same :
    (xs ys : List Deposit)
    → without_remainders ys ≡ without_remainders xs
    → distinct_ids ys ≡ distinct_ids xs
distinct_ids-same [] [] h = refl
distinct_ids-same [] (y ∷ ys) h = cc
distinct_ids-same (x ∷ xs) [] h = cc
distinct_ids-same (x ∷ xs) (y ∷ ys) h =
    let id : y.id ≡ x.id = (Follows-same x y cc).0 in
    let rest : without_remainders ys ≡ without_remainders xs = cc in
    let others : any (deposit_has y.id) ys ≡ any (deposit_has x.id) xs =
      ap (λ i. any (deposit_has i) ys) id ∙ any-same x.id xs ys rest in
    rw (others, distinct_ids-same xs ys rest) refl

pub IsIn-same :
    (s : DepositState) (id : ℕ) (xs ys : List Deposit)
    → without_remainders ys ≡ without_remainders xs
    → IsIn s id xs
    → IsIn s id ys
IsIn-same s id [] [] h k = tt
IsIn-same s id [] (y ∷ ys) h k = cc
IsIn-same s id (x ∷ xs) [] h k = tt
IsIn-same s id (x ∷ xs) (y ∷ ys) h k =
    let same : record y { remainder_koinu = none } ≡ record x { remainder_koinu = none } = cc in
    (
      λ e. ap (λ z. z.state) same ∙ k.0 (subst (λ i. (i == id) ≡ true) (ap (λ z. z.id) same) e),
      IsIn-same s id xs ys (cc) k.1,
    )

-- What a hook may do is lawful.
pub harmless→lawful : (d d' : Db) → harmless.Allows d d' → lawful.Allows d d'
harmless→lawful d d' h = (
  h.0,
  λ k. (distinct_ids-same d.deposits d'.deposits h.1 ∙ k, Evolves-same d.deposits d'.deposits h.1),
)

-- An UPDATE is lawful where every row that it is for may go where it goes.
pub update-lawful :
    (p : Deposit → Bool) (f : Deposit → Deposit) (d : Db)
    → ((x : Deposit) → (f x).id ≡ x.id)
    → (distinct_ids d.deposits ≡ true → All (λ x. p x ≡ true → Follows x (f x)) d.deposits)
    → lawful.Allows d (record d { deposits = update_if p f d.deposits })
update-lawful p f d ids h =
    (refl, λ k. (distinct_ids-update p f d.deposits ids ∙ k, update-Evolves p f d.deposits (h k)))
