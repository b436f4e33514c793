-- ===== src/Deposits/Lifecycle.antt =====
-- The states of a deposit: what an event of the chain does to a deposit that is settled, and what a
-- reorganisation does.
use dogecade.Common.{
  Bool, Bool-cases, Option, ap, false, find, inl, inr, none, refl, some, str_eq, subst, true, ℕ, ℤ,
  ◌==◌, ◌∙◌, ◌≡◌, ◌⊎◌,
}
use dogecade.Store.{
  Action, Address, AllOrNothing, Db, Deposit, DepositState, Ensures, World, atomically,
  atomically_lem, bind_AllOrNothing, bind_Ensures, confirmed, credited, map_Ensures, modify,
  modify-Ensures, next, orphaned, pure, query, query-AllOrNothing, query-Ensures, read_from, seen,
  then_Ensures, ◌>>=◌, ◌>>◌,
}
use dogecade.Settings.RoundTrip.{get_min_confirmations-Reads, get_zero_conf_max_koinu-Reads}
use dogecade.Pool.{address_id_by_address, id_of}
use dogecade.Purchase.{update_deposit}
use dogecade.Deposits.{
  CreditHook, Event, advance, credit_confirmed, handle_event, is_output, refresh,
  upsert_and_advance, upsert_deposit,
}

-- No event takes a deposit out of these states.
abbrev pub is_settled : DepositState → Bool
is_settled credited = true
is_settled orphaned = true
is_settled _ = false

-- The tables are as they were, or with the confirmations and the height of the event's deposit
-- brought up to date.
abbrev pub Refreshed : Event → ℕ → Db → Db → Type 0
Refreshed e id d d' = (d' ≡ d) ⊎ (d' ≡ update_deposit id (refresh e) d)

settled-advance :
    (e : Event) (min_conf zero_conf_max : ℤ) (id : ℕ) (s : DepositState) (w : World)
    → is_settled s ≡ true
    → Ensures (λ due d'. (due ≡ none) × (d' ≡ w.db)) (advance e min_conf zero_conf_max id s w)
settled-advance e min_conf zero_conf_max id seen w h = cc
settled-advance e min_conf zero_conf_max id confirmed w h = cc
settled-advance e min_conf zero_conf_max id credited w h = (refl, refl)
settled-advance e min_conf zero_conf_max id orphaned w h = (refl, refl)

-- The transaction on a settled deposit refreshes it and has nothing to credit.
settled_tx :
    (e : Event) (address now : ℕ) (min_conf zero_conf_max : ℤ) (x : Deposit) (w : World)
    → find (is_output e.txid e.vout) w.db.deposits ≡ some x
    → is_settled x.state ≡ true
    → AllOrNothing w.db
        (λ due d'. (due ≡ none) × Refreshed e x.id w.db d')
        (atomically
          (do
            existing ← query (λ d. find (is_output e.txid e.vout) d.deposits)
            (id, state) ← upsert_deposit e address now existing
            advance e min_conf zero_conf_max id state)
          w)
settled_tx e address now min_conf zero_conf_max x w found settled = atomically_lem Q _ w (
    query-Ensures Q _ _ (next w) (
      rw found (
        bind_Ensures Q P (modify (update_deposit x.id (refresh e)) >> pure (x.id, x.state)) _
          (next (next w))
          (then_Ensures P (λ d. d ≡ update_deposit x.id (refresh e) w.db) _ _ (next (next w))
            (modify-Ensures (λ d. d ≡ update_deposit x.id (refresh e) w.db) _ (next (next w)) refl)
            (λ w' same. (refl, same)))
          (λ r w' h. go r w' h.0 h.1))))
  where
    Q : Option ℕ → Db → Type 0
    Q due d' = (due ≡ none) × Refreshed e x.id w.db d'

    P : ℕ × DepositState → Db → Type 0
    P r d' = (r ≡ (x.id, x.state)) × (d' ≡ update_deposit x.id (refresh e) w.db)

    go :
        (r : ℕ × DepositState) (w' : World)
        → r ≡ (x.id, x.state)
        → w'.db ≡ update_deposit x.id (refresh e) w.db
        → Ensures Q (advance e min_conf zero_conf_max r.0 r.1 w')
    go r w' eq same =
        map_Ensures Q _ (advance e min_conf zero_conf_max r.0 r.1 w')
          (λ due d' h. (h.0, inr (h.1 ∙ same)))
          (settled-advance e min_conf zero_conf_max r.0 r.1 w'
            (ap (λ q. is_settled q.1) eq ∙ settled))

module _ (credit : CreditHook) (e : Event) (now clock : ℕ) (x : Deposit) where
  settled_upsert :
      (address : ℕ) (d : Db) (w : World)
      → w.db ≡ d
      → find (is_output e.txid e.vout) d.deposits ≡ some x
      → is_settled x.state ≡ true
      → AllOrNothing d (λ _. Refreshed e x.id d) (upsert_and_advance credit e address now clock w)
  unfolding upsert_and_advance
  settled_upsert address d w same found settled =
      read_from Q _ _ _ d w same (get_min_confirmations-Reads w) λ min_conf w1 s1 _.
        read_from Q _ _ _ d w1 s1 (get_zero_conf_max_koinu-Reads w1) λ zero_conf_max w2 s2 _.
          bind_AllOrNothing Q (Stays d) d _ _ w2
            (subst
              (λ d'.
                find (is_output e.txid e.vout) d'.deposits ≡ some x
                → AllOrNothing d' (Stays d') (atomically (tx min_conf zero_conf_max) w2))
              s2 (λ f. settled_tx e address now min_conf zero_conf_max x w2 f settled) found)
            (λ due w3 h. finish due w3 h.0 h.1)
    where
      Q : Unit {0} → Db → Type 0
      Q _ = Refreshed e x.id d

      Stays : Db → Option ℕ → Db → Type 0
      Stays d due d' = (due ≡ none) × Refreshed e x.id d d'

      tx : ℤ → ℤ → Action (Option ℕ)
      tx min_conf zero_conf_max = do
        existing ← query (λ d. find (is_output e.txid e.vout) d.deposits)
        (id, state) ← upsert_deposit e address now existing
        advance e min_conf zero_conf_max id state

      finish :
          (due : Option ℕ) (w3 : World)
          → due ≡ none
          → Refreshed e x.id d w3.db
          → AllOrNothing d Q (credit_confirmed credit now clock due w3)
      finish due w3 h r = rw h r

-- A settled deposit is never credited again: for every hook, and whatever statement fails, an event
-- for its output leaves the tables as they were, but for the confirmations and the height.
pub handle_event-settled :
    (credit : CreditHook) (e : Event) (now clock : ℕ) (x : Deposit) (w : World)
    → find (is_output e.txid e.vout) w.db.deposits ≡ some x
    → is_settled x.state ≡ true
    → AllOrNothing w.db (λ _. Refreshed e x.id w.db) (handle_event credit e now clock w)
unfolding handle_event address_id_by_address
handle_event-settled credit e now clock x w found settled =
    query-AllOrNothing Q _ _ w (elim (Bool-cases (address == 0)) [
      | inl unknown ↦ rw unknown (inl refl)
      | inr known ↦
          rw known (settled_upsert credit e now clock x address w.db (next w) refl found settled)
    ])
  where
    Q : Unit {0} → Db → Type 0
    Q _ = Refreshed e x.id w.db

    address : ℕ
    address = id_of (find (λ (a : Address). str_eq a.address e.address) w.db.addresses)
