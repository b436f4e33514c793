-- ===== src/Deposits/Crediting.antt =====
-- The claim on a deposit: while it is live no other event credits the deposit.
use dogecade.Common.{
  Bool, Bool-cases, List, Option, [], arith, count_if, false, find, inl, inr, none, pos, refl, some,
  str_eq, suc, true, update_if, ℕ, ℤ, ◌+◌, ◌<◌, ◌==◌, ◌∷◌, ◌≡◌, ◌≢◌, ◌≤◌,
}
use dogecade.Store.{
  Address, Db, Deposit, DepositState, Result, World, calm, confirmed, credited, err, ok, orphaned,
  seen, statements,
}
use dogecade.Settings.{key_min_confirmations, key_zero_conf_max_koinu}
use dogecade.Settings.RoundTrip.{
  get_min_confirmations-calm, get_zero_conf_max_koinu-calm, number_in,
}
use dogecade.Pool.{address_id_by_address}
use dogecade.Purchase.{deposit_has, update_deposit}
use dogecade.Deposits.{
  CreditHook, Event, claim_for_crediting, claimable, credit_claim_stale_after, credit_claimed,
  credit_confirmed, handle_event, is_confirmed, is_due, is_output, is_stale, refresh, set_claim,
  set_state, upsert_and_advance,
}

-- The primary key: no other row has the number.
abbrev pub IsSingle : ℕ → List Deposit → Type 0
IsSingle id rows = count_if (deposit_has id) rows ≤ 1

claimable-deposit_has :
    (id clock : ℕ) (rows : List Deposit)
    → count_if (claimable id clock) rows ≤ count_if (deposit_has id) rows
claimable-deposit_has id clock [] = ground arith
claimable-deposit_has id clock (x ∷ rows) = ground (arith, claimable-deposit_has id clock rows)

none_claimable :
    (id clock clock' now : ℕ) (rows : List Deposit)
    → count_if (deposit_has id) rows ≡ 0
    → count_if (claimable id clock') (update_if (claimable id clock) (set_claim (some now)) rows)
      ≡ 0
none_claimable id clock clock' now [] h = refl
none_claimable id clock clock' now (x ∷ rows) h =
    ground (arith, none_claimable id clock clock' now rows)

none_left :
    (id clock clock' now : ℕ) (rows : List Deposit)
    → IsSingle id rows
    → count_if (claimable id clock) rows ≡ 1
    → clock' ≤ now + credit_claim_stale_after
    → count_if (claimable id clock') (update_if (claimable id clock) (set_claim (some now)) rows)
      ≡ 0
none_left id clock clock' now [] single one live = ground arith
none_left id clock clock' now (x ∷ rows) single one live = elim (Bool-cases (x.id == id)) [
  | inl e ↦
      ground (arith, claimable-deposit_has id clock rows, none_claimable id clock clock' now rows)
  | inr e ↦ ground (arith, none_left id clock clock' now rows)
]

-- A claim that succeeds has marked the one row that could be claimed.
pub claim_won :
    (id now clock : ℕ) (w : World)
    → (claim_for_crediting id now clock w).0 ≡ ok true
    → (count_if (claimable id clock) w.db.deposits ≡ 1)
      × ((claim_for_crediting id now clock w).1.db.deposits
          ≡ update_if (claimable id clock) (set_claim (some now)) w.db.deposits)
unfolding claim_for_crediting statements
claim_won id now clock w h = elim (Bool-cases (w.fails w.count)) [
  | inl down ↦ ground arith
  | inr up ↦ ground arith
]

-- Where no two deposits have the number claimed, a claim that follows a successful one does not
-- succeed while the first is live, that is until two minutes after the time that the first one
-- wrote. So only one of the two runs the credit hook.
pub claim_for_crediting-exclusive :
    (id now clock now' clock' : ℕ) (w : World)
    → IsSingle id w.db.deposits
    → (claim_for_crediting id now clock w).0 ≡ ok true
    → clock' ≤ now + credit_claim_stale_after
    → (claim_for_crediting id now' clock' (claim_for_crediting id now clock w).1).0 ≢ ok true
claim_for_crediting-exclusive id now clock now' clock' w single first live second =
    let won = claim_won id now clock w first in
    let again = claim_won id now' clock' (claim_for_crediting id now clock w).1 second in
    let left = none_left id clock clock' now w.db.deposits single won.0 live in
    ground (arith, won.1, again.0)

-- No claim is live: there is none, or it is older than two minutes.
abbrev pub IsFree : Option ℕ → ℕ → Type 0
IsFree none clock = Unit {0}
IsFree (some t) clock = t + 120 < clock

-- The rows with the deposit claimed at `now`.
abbrev pub claim_in : ℕ → ℕ → List Deposit → List Deposit
claim_in id now = update_if (deposit_has id) (λ x. record x { crediting_claimed_at = some now })

-- What becomes of the claimed deposit, by the hook's answer: it is credited at `now`, or its claim
-- is taken back.
abbrev pub settled : ℕ → ℕ → Result (Unit {0}) → Db → Db
settled id now (ok _) d = record d {
  deposits =
      update_if (deposit_has id) (λ x. record x { state = credited; credited_at = some now })
        d.deposits;
}
settled id now (err e) d = record d {
  deposits = update_if (deposit_has id) (λ x. record x { crediting_claimed_at = none }) d.deposits;
}

none_of :
    (id clock now : ℕ) (rows : List Deposit)
    → count_if (deposit_has id) rows ≡ 0
    → (count_if (claimable id clock) rows ≡ 0)
      × (update_if (claimable id clock) (set_claim (some now)) rows ≡ claim_in id now rows)
none_of id clock now [] h = (refl, refl)
none_of id clock now (x ∷ rows) h = ground (arith, none_of id clock now rows)

IsFree-is_stale : (t : Option ℕ) (clock : ℕ) → IsFree t clock → is_stale t clock ≡ true
IsFree-is_stale none clock h = refl
IsFree-is_stale (some t) clock h = ground arith

one_of :
    (id clock now : ℕ) (rows : List Deposit) (x : Deposit)
    → IsSingle id rows
    → find (deposit_has id) rows ≡ some x
    → is_confirmed x.state ≡ true
    → is_stale x.crediting_claimed_at clock ≡ true
    → (count_if (claimable id clock) rows ≡ 1)
      × (update_if (claimable id clock) (set_claim (some now)) rows ≡ claim_in id now rows)
one_of id clock now [] x single found s t = cc
one_of id clock now (y ∷ rows) x single found s t = elim (Bool-cases (y.id == id)) [
  | inl e ↦ ground (arith, none_of id clock now rows)
  | inr e ↦ ground (arith, one_of id clock now rows x)
]

-- When no statement of the pipeline fails, a confirmed deposit without a live claim is claimed and
-- handed to the hook once; the answer is the hook's, and on the tables that the hook leaves the
-- deposit is credited when the hook succeeds, and without a claim when it fails. The deposit's
-- number is no other row's.
pub credit_confirmed-settled :
    (credit : CreditHook) (id now clock : ℕ) (x : Deposit) (d d' : Db) (n m : ℕ)
    (answer : Result (Unit {0}))
    → IsSingle id d.deposits
    → find (deposit_has id) d.deposits ≡ some x
    → x.state ≡ confirmed
    → IsFree x.crediting_claimed_at clock
    → credit id now (calm (record d { deposits = claim_in id now d.deposits }) (suc n))
      ≡ (answer, calm d' m)
    → credit_confirmed credit now clock (some id) (calm d n)
      ≡ (answer, calm (settled id now answer d') (suc m))
unfolding claim_for_crediting statements
credit_confirmed-settled credit id now clock x d d' n m answer single found s free hook =
    rw (won.0, won.1) (by_answer answer hook)
  where
    won :
        (count_if (claimable id clock) d.deposits ≡ 1)
        × (update_if (claimable id clock) (set_claim (some now)) d.deposits
            ≡ claim_in id now d.deposits)
    won =
        one_of id clock now d.deposits x single found (rw s refl)
          (IsFree-is_stale x.crediting_claimed_at clock free)

    by_answer :
        (answer : Result (Unit {0}))
        → credit id now (calm (record d { deposits = claim_in id now d.deposits }) (suc n))
          ≡ (answer, calm d' m)
        → credit_claimed credit id now true
            (calm (record d { deposits = claim_in id now d.deposits }) (suc n))
          ≡ (answer, calm (settled id now answer d') (suc m))
    by_answer (ok a) hook = rw hook refl
    by_answer (err e) hook = rw hook refl

unclaimed :
    (id now clock : ℕ) (rows : List Deposit)
    → count_if (claimable id clock) rows ≡ 0
    → update_if (claimable id clock) (set_claim (some now)) rows ≡ rows
unclaimed id now clock [] h = refl
unclaimed id now clock (x ∷ rows) h = ground (arith, unclaimed id now clock rows)

-- When no statement fails, crediting a deposit that is claimed, or not confirmed, changes nothing
-- and does not run the hook.
pub credit_confirmed_claimed :
    (credit : CreditHook) (id now clock : ℕ) (d : Db) (n : ℕ)
    → count_if (claimable id clock) d.deposits ≡ 0
    → credit_confirmed credit now clock (some id) (calm d n) ≡ (ok tt, calm d (suc n))
unfolding claim_for_crediting statements
credit_confirmed_claimed credit id now clock d n taken =
    rw (taken, unclaimed id now clock d.deposits taken) refl

-- The event leaves a deposit in the state `s` confirmed.
abbrev pub confirms : Event → ℤ → ℤ → DepositState → Bool
confirms e min_conf zero_conf_max seen = is_due e min_conf zero_conf_max
confirms e min_conf zero_conf_max confirmed = true
confirms e min_conf zero_conf_max _ = false

-- The tables with the deposit refreshed and confirmed.
abbrev pub confirmed_by : Event → Deposit → DepositState → Db → Db
confirmed_by e x seen d =
    update_deposit x.id (set_state confirmed) (update_deposit x.id (refresh e) d)
confirmed_by e x _ d = update_deposit x.id (refresh e) d

-- When no statement fails, the event's address has a number that is not 0, the two thresholds can
-- be read, and the event leaves the known deposit confirmed, then handling it goes on to credit
-- that deposit on the refreshed tables.
pub handle_event-credit_confirmed :
    (credit : CreditHook) (e : Event) (now clock : ℕ) (min_conf zero_conf_max : ℤ) (x : Deposit)
    (a : Address) (d : Db) (n : ℕ)
    → find (λ (b : Address). str_eq b.address e.address) d.addresses ≡ some a
    → (a.id == 0) ≡ false
    → find (is_output e.txid e.vout) d.deposits ≡ some x
    → number_in key_min_confirmations (pos 1) d ≡ ok min_conf
    → number_in key_zero_conf_max_koinu (pos 0) d ≡ ok zero_conf_max
    → confirms e min_conf zero_conf_max x.state ≡ true
    → (m : ℕ) × (handle_event credit e now clock (calm d n)
        ≡ credit_confirmed credit now clock (some x.id) (calm (confirmed_by e x x.state d) m))
unfolding handle_event upsert_and_advance address_id_by_address statements
handle_event-credit_confirmed credit e now clock min_conf zero_conf_max x a d n known keyed found mc
      zc confirming =
    by_state x.state refl
  where
    by_state :
        (s : DepositState)
        → x.state ≡ s
        → (m : ℕ) × (handle_event credit e now clock (calm d n)
            ≡ credit_confirmed credit now clock (some x.id) (calm (confirmed_by e x x.state d) m))
    by_state seen h =
        let crossed : is_due e min_conf zero_conf_max ≡ true = rw h at confirming in
        (
          suc (suc (suc (suc (suc (suc (suc (suc n))))))),
          rw (known, keyed)
              (rw (get_min_confirmations-calm min_conf d _ mc) (
                rw (get_zero_conf_max_koinu-calm zero_conf_max d _ zc)
                  (rw found (rw h (rw crossed refl))))),
        )
    by_state confirmed h = (
      suc (suc (suc (suc (suc (suc (suc n)))))),
      rw (known, keyed)
          (rw (get_min_confirmations-calm min_conf d _ mc)
            (rw (get_zero_conf_max_koinu-calm zero_conf_max d _ zc) (rw found (rw h refl)))),
    )
    by_state credited h = let no : false ≡ true = rw h at confirming in cc
    by_state orphaned h = let no : false ≡ true = rw h at confirming in cc
