-- ===== src/Deposits/Payout.antt =====
-- From an event that brings a deposit to its threshold to the credit of the deposit.
use dogecade.Common.{
  Bool, Bool-cases, List, [], ap, arith, count_if, false, find, if◌then◌else◌, inl, inr, ltb_ℤ, pos,
  refl, some, str_eq, subst, suc, sym, true, update_if, ℕ, ℤ, ◌==◌, ◌∙◌, ◌∷◌, ◌≡◌, ◌≤ℤ◌, ◌≤◌, ◌⊎◌,
}
use dogecade.Store.{Address, Db, Deposit, calm, confirmed, credited, ok, seen}
use dogecade.Settings.{key_min_confirmations, key_zero_conf_max_koinu}
use dogecade.Settings.RoundTrip.{number_in}
use dogecade.Purchase.{deposit_has}
use dogecade.Deposits.{CreditHook, Event, handle_event, is_due, is_output, refresh, set_state}
use dogecade.Deposits.Crediting.{
  IsFree, IsSingle, claim_in, confirmed_by, credit_confirmed-settled, handle_event-credit_confirmed,
}

-- The event has enough confirmations, or its amount is small enough to need none, where amounts
-- without confirmations are taken.
abbrev pub IsThreshold : Event → ℤ → ℤ → Type 0
IsThreshold e min_conf zero_conf_max =
    (min_conf ≤ℤ e.confirmations) ⊎ ((pos 1 ≤ℤ zero_conf_max) × (e.amount_koinu ≤ℤ zero_conf_max))

IsThreshold-is_due :
    (e : Event) (min_conf zero_conf_max : ℤ)
    → IsThreshold e min_conf zero_conf_max
    → is_due e min_conf zero_conf_max ≡ true
IsThreshold-is_due e min_conf zero_conf_max (inl h) = ground arith
IsThreshold-is_due e min_conf zero_conf_max (inr h) = ground arith

-- The tables that the hook is run on: the deposit has the event's confirmations and height, is
-- confirmed, and is claimed.
abbrev pub handed : Event → ℕ → ℕ → Db → Db
handed e id now d = record d {
  deposits =
      update_if (deposit_has id)
        (λ x. record x {
          confirmations = e.confirmations;
          block_height =
              if ltb_ℤ (pos 0) e.block_height then some e.block_height else x.block_height;
          state = confirmed;
          crediting_claimed_at = some now;
        })
        d.deposits;
}

counted :
    (p : Deposit → Bool) (rows : List Deposit) (x : Deposit)
    → find p rows ≡ some x
    → 1 ≤ count_if (deposit_has x.id) rows
counted p [] x h = cc
counted p (y ∷ rows) x h = ground (arith, counted p rows x)

found_by_number :
    (p : Deposit → Bool) (rows : List Deposit) (x : Deposit)
    → find p rows ≡ some x
    → IsSingle x.id rows
    → find (deposit_has x.id) rows ≡ some x
found_by_number p [] x h single = cc
found_by_number p (y ∷ rows) x h single = elim (Bool-cases (p y)) [
  | inl e ↦ ground arith
  | inr e ↦ ground (arith, counted p rows x, found_by_number p rows x)
]

module _ (id : ℕ) (f : Deposit → Deposit) (keyed : (y : Deposit) → (f y).id ≡ y.id) where
  count_if-updated :
      (rows : List Deposit)
      → count_if (deposit_has id) (update_if (deposit_has id) f rows)
        ≡ count_if (deposit_has id) rows
  count_if-updated [] = refl
  count_if-updated (y ∷ rows) = ground (arith, keyed y, count_if-updated rows)

  find-updated :
      (rows : List Deposit) (x : Deposit)
      → find (deposit_has id) rows ≡ some x
      → find (deposit_has id) (update_if (deposit_has id) f rows) ≡ some (f x)
  find-updated [] x h = cc
  find-updated (y ∷ rows) x h = ground (arith, keyed y, find-updated rows x)

  updated-updated :
      (g : Deposit → Deposit) (rows : List Deposit)
      → update_if (deposit_has id) g (update_if (deposit_has id) f rows)
        ≡ update_if (deposit_has id) (λ y. g (f y)) rows
  updated-updated g [] = refl
  updated-updated g (y ∷ rows) = ground (arith, keyed y, updated-updated g rows)

-- When no statement fails, an event that brings a deposit that has been seen to its threshold
-- confirms it, claims it and hands it to the hook once, and where the hook succeeds the deposit is
-- credited in the end. The event's address is known and its number is not 0, the thresholds can be
-- read, no claim on the deposit is live, and its number is no other row's.
pub handle_event_credits :
    (credit : CreditHook) (e : Event) (now clock : ℕ) (min_conf zero_conf_max : ℤ) (x : Deposit)
    (a : Address) (d d' : Db) (n : ℕ)
    → find (λ (b : Address). str_eq b.address e.address) d.addresses ≡ some a
    → (a.id == 0) ≡ false
    → find (is_output e.txid e.vout) d.deposits ≡ some x
    → IsSingle x.id d.deposits
    → x.state ≡ seen
    → IsFree x.crediting_claimed_at clock
    → number_in key_min_confirmations (pos 1) d ≡ ok min_conf
    → number_in key_zero_conf_max_koinu (pos 0) d ≡ ok zero_conf_max
    → IsThreshold e min_conf zero_conf_max
    → ((k : ℕ) → (m : ℕ) × (credit x.id now (calm (handed e x.id now d) k) ≡ (ok tt, calm d' m)))
    → (m : ℕ) × (handle_event credit e now clock (calm d n) ≡ (
      ok tt,
      calm
          (record d' {
            deposits =
                update_if
                  (deposit_has x.id)
                  (λ y. record y { state = credited; credited_at = some now })
                  d'.deposits;
          })
          m,
    ))
handle_event_credits credit e now clock min_conf zero_conf_max x a d d' n known keyed found single s
      free mc zc reached hook =
    let advanced =
      handle_event-credit_confirmed credit e now clock min_conf zero_conf_max x a d n known keyed
        found mc zc (rw s (IsThreshold-is_due e min_conf zero_conf_max reached)) in
    let paid = hook (suc advanced.0) in
    let done =
      credit_confirmed-settled credit x.id now clock ready dc d' advanced.0 paid.0 (ok tt)
        single_after found_after refl free
        (subst (λ t. credit x.id now (calm t (suc advanced.0)) ≡ (ok tt, calm d' paid.0)) (sym same)
          paid.1) in
    (suc paid.0, advanced.1 ∙ rw s done)
  where
    step : Deposit → Deposit
    step y = set_state confirmed (refresh e y)

    ready : Deposit
    ready = step x

    dc : Db
    dc = confirmed_by e x seen d

    fused : dc.deposits ≡ update_if (deposit_has x.id) step d.deposits
    fused = updated-updated x.id (refresh e) (λ y. refl) (set_state confirmed) d.deposits

    single_after : IsSingle x.id dc.deposits
    single_after = rw (fused, count_if-updated x.id step (λ y. refl) d.deposits) single

    found_after : find (deposit_has x.id) dc.deposits ≡ some ready
    found_after = rw fused (
        find-updated x.id step (λ y. refl) d.deposits x
          (found_by_number (is_output e.txid e.vout) d.deposits x found single))

    same : record dc { deposits = claim_in x.id now dc.deposits } ≡ handed e x.id now d
    same =
        ap (λ rows. record d { deposits = rows })
          (ap (claim_in x.id now) fused
            ∙ updated-updated x.id step (λ y. refl)
                (λ y. record y { crediting_claimed_at = some now }) d.deposits)
