-- ===== src/Purchase/Credit.antt =====
-- What the hook of NewPurchaseCreditHook posts for a deposit.
use dogecade.Common.{
  Bool-cases, Option, arith, false, find, holds, if◌then◌else◌, inl, inr, int_laws, leb_ℤ, ltb_ℤ,
  none, pos, pos_part, quot, quot-rem, refl, rem, some, subst, true, update_if, ℕ, ℤ, ◌&&◌, ◌*ℤ◌,
  ◌+ℤ◌, ◌==◌, ◌≡◌, ◌≤ℤ◌,
}
use dogecade.Store.{
  Action, Address, AllOrNothing, Db, Deposit, Ensures, World, atomically, atomically_lem, bad_price,
  exec-Ensures, map_AllOrNothing, map_Ensures, modify, modify-Ensures, next, ok,
  or_raise-AllOrNothing, query-AllOrNothing, raise_if, raise_if-AllOrNothing, read_AllOrNothing,
  then_Ensures, weaken, ◌>>◌,
}
use dogecade.Settings.{get_token_price_koinu, key_token_price_koinu}
use dogecade.Settings.RoundTrip.{get_number_lem, number_in}
use dogecade.Ledger.{balance_of, credit_purchase_tx, purchase_row}
use dogecade.Ledger.Balance.{Posted, insert_entry-Posted}
use dogecade.Pool.{has_id}
use dogecade.Purchase.{
  credit_user, deposit_has, purchase_credit_hook, set_remainder, update_deposit,
}

-- The tokens that a user is given: those of the owner of the address, if it has one and they are
-- more than none.
abbrev pub granted : Option ℕ → ℤ → ℕ → ℤ
granted owner tokens u = if holds owner u && ltb_ℤ (pos 0) tokens then tokens else pos 0

-- The amount of the deposit `x` to the address `a` has been divided by the price: its remainder is
-- recorded, the owner of the address has been given the whole tokens, and nobody else any. Without an
-- owner nobody has been. Only the deposit's row and the ledger have changed.
pub record Credited (deposit : ℕ) (x : Deposit) (a : Address) (price : ℤ) (d d' : Db) : Type 0 where
  pub tokens : ℤ
  pub remainder : ℤ
  pub price_positive : pos 1 ≤ℤ price
  pub worth : tokens *ℤ price +ℤ remainder ≡ x.amount_koinu
  pub whole : tokens ≡ quot x.amount_koinu (pos_part price)
  pub recorded : d'.deposits ≡ update_if (deposit_has deposit) (set_remainder remainder) d.deposits
  pub posted : (u : ℕ) → balance_of u d' ≡ balance_of u d +ℤ granted a.user_id tokens u
  pub rest : d' ≡ record d { deposits = d'.deposits; entries = d'.entries }

pub PurchaseCredit : ℕ → Db → Unit {0} → Db → Type 0
PurchaseCredit deposit d _ d' =
    (x : Deposit) × (a : Address) × (price : ℤ) × (find (deposit_has deposit) d.deposits ≡ some x)
    × (find (has_id x.address_id) d.addresses ≡ some a)
    × (number_in key_token_price_koinu (pos 100_000_000) d ≡ ok price)
    × Credited deposit x a price d d'

-- The owner's credit, on its own.
abbrev Granted : Option ℕ → ℤ → Db → Unit {0} → Db → Type 0
Granted owner tokens d _ d' =
    ((u : ℕ) → balance_of u d' ≡ balance_of u d +ℤ granted owner tokens u)
    × (d' ≡ record d { entries = d'.entries })

granted-none :
    (owner : Option ℕ) (tokens : ℤ) (u : ℕ)
    → ltb_ℤ (pos 0) tokens ≡ false
    → granted owner tokens u ≡ pos 0
granted-none none tokens u h = refl
granted-none (some user) tokens u h = ground arith

granted-some :
    (user : ℕ) (tokens : ℤ) (u : ℕ)
    → ltb_ℤ (pos 0) tokens ≡ true
    → granted (some user) tokens u ≡ (if user == u then tokens else pos 0)
granted-some user tokens u h = ground arith

credit_user-Granted :
    (owner : Option ℕ) (deposit : ℕ) (tokens : ℤ) (now : ℕ) (w : World)
    → Ensures (Granted owner tokens w.db) (credit_user owner deposit tokens now w)
unfolding credit_purchase_tx
credit_user-Granted none deposit tokens now w = (λ u. omega int_laws, refl)
credit_user-Granted (some user) deposit tokens now w = elim (Bool-cases (ltb_ℤ (pos 0) tokens)) [
  | inr nothing ↦
      rw nothing (λ u. rw (granted-none (some user) tokens u nothing) (omega int_laws), refl)
  | inl some_tokens ↦ rw some_tokens (
      exec-Ensures Q _ w (
        weaken Q w.db _ (
          map_AllOrNothing P Q w.db _
            (λ _ d' h. (λ u. rw (granted-some user tokens u some_tokens) (h.1 u), rw h.0))
            (insert_entry-Posted _ user tokens w.db (next w) (λ i. refl) (λ i. refl)))))
]
  where
    P : Unit {0} → Db → Type 0
    P = Posted (purchase_row user deposit tokens now) user tokens w.db

    Q : Unit {0} → Db → Type 0
    Q = Granted (some user) tokens w.db

settle : ℕ → ℕ → Deposit → Address → ℤ → Action (Unit {0})
settle deposit now x a price = do
  modify (update_deposit deposit (set_remainder (rem x.amount_koinu (pos_part price))))
  credit_user a.user_id deposit (quot x.amount_koinu (pos_part price)) now

settle-Credited :
    (deposit now : ℕ) (x : Deposit) (a : Address) (price : ℤ) (w : World)
    → leb_ℤ price (pos 0) ≡ false
    → Ensures (λ _. Credited deposit x a price w.db) (settle deposit now x a price w)
unfolding settle
settle-Credited deposit now x a price w positive =
    then_Ensures Q (λ d'. d' ≡ noted) _ _ w (modify-Ensures (λ d'. d' ≡ noted) _ w refl)
      λ w' same.
        map_Ensures Q (Granted a.user_id tokens w'.db) _ (λ _ d' h. finish d' (rw same at h))
          (credit_user-Granted a.user_id deposit tokens now w')
  where
    Q : Unit {0} → Db → Type 0
    Q _ d' = Credited deposit x a price w.db d'

    tokens : ℤ
    tokens = quot x.amount_koinu (pos_part price)

    noted : Db
    noted = update_deposit deposit (set_remainder (rem x.amount_koinu (pos_part price))) w.db

    finish : (d' : Db) → Granted a.user_id tokens noted tt d' → Credited deposit x a price w.db d'
    finish d' h = record {
      tokens = tokens;
      remainder = rem x.amount_koinu (pos_part price);
      whole = refl;
      price_positive = ground arith;
      recorded = rw h.1;
      posted = h.0;
      worth =
          subst
            (λ p.
              quot x.amount_koinu (pos_part price) *ℤ p +ℤ rem x.amount_koinu (pos_part price)
              ≡ x.amount_koinu)
            same_price (quot-rem x.amount_koinu (pos_part price));
      rest = ground arith;
    }
      where
        same_price : pos (pos_part price) ≡ price
        same_price = ground arith

-- Crediting a deposit to a purchase divides its amount by the price in force and records the
-- remainder; the owner of the address, if it has one, is given the whole tokens, if there are any,
-- and nobody else is given any. Or it fails and changes nothing. Where the address has no owner it
-- succeeds without giving the tokens to anyone.
pub purchase_credit_hook-PurchaseCredit :
    (deposit now : ℕ) (w : World)
    → AllOrNothing w.db (PurchaseCredit deposit w.db) (purchase_credit_hook deposit now w)
unfolding settle purchase_credit_hook get_token_price_koinu PurchaseCredit
purchase_credit_hook-PurchaseCredit deposit now w = query-AllOrNothing Q _ _ w (
    or_raise-AllOrNothing Q _ _ _ (next w) λ x found. query-AllOrNothing Q _ _ (next w) (
      or_raise-AllOrNothing Q _ _ _ (next (next w)) λ a located.
        read_AllOrNothing Q (λ z. number_in key_token_price_koinu (pos 100_000_000) w.db ≡ ok z) _ _
          (next (next w)) (get_number_lem key_token_price_koinu (pos 100_000_000) (next (next w)))
          λ price w' same read.
            subst (λ d. AllOrNothing d Q (priced x a price w')) same
              (raise_if-AllOrNothing Q _ _ _ w' λ positive. atomically_lem Q _ w' (
                map_Ensures Q (λ _. Credited deposit x a price w'.db) _
                  (λ _ d' c. (x, a, price, found, located, read, rw same at c))
                  (settle-Credited deposit now x a price (next w') positive)))))
  where
    Q : Unit {0} → Db → Type 0
    Q = PurchaseCredit deposit w.db

    priced : Deposit → Address → ℤ → Action (Unit {0})
    priced x a price = do
      raise_if (leb_ℤ price (pos 0)) bad_price
      atomically (settle deposit now x a price)
