-- ===== src/Deposits/Progress.antt =====
-- Every call of the pipeline is lawful, whichever statement of it fails.
use dogecade.Common.{
  All, Bool, Bool-cases, List, Option, [], any, false, find, if◌then◌else◌, inl, inr, none, not,
  refl, some, subst, sym, true, update_if, ℕ, ℤ, ◌==◌, ◌||◌, ◌∙◌, ◌∷◌, ◌≡◌,
}
use dogecade.Store.{
  AllOrNothing, Db, Deposit, DepositState, Ensures, World, atomically, atomically_lem, bind_Ensures,
  confirmed, credited, exec, exec-Ensures, map_Ensures, modify-Ensures, next, next_id, orphaned,
  query, query-Ensures, seen, then_Ensures, written, ◌>>=◌,
}
use dogecade.Pool.{has_id}
use dogecade.Purchase.{deposit_has, update_deposit}
use dogecade.Purchase.Start.{due}
use dogecade.Deposits.{
  Event, advance, insert_deposit, is_due, is_output, refresh, seen_row, set_state, upsert_deposit,
}
use dogecade.Deposits.StateMachine.{
  Evolves-append, Follows, Follows-refl, Follows-trans, IsIn, distinct_ids, distinct_ids-update,
  leads, leads_refl,
}
use dogecade.Deposits.Identity.{appended, distinct_ids-append, found-IsIn, next_id-fresh}
use dogecade.Deposits.Lawful.{lawful, update-lawful}

-- Every row with the number is in the state, when the numbers are distinct.
abbrev pub IsKnown : DepositState → ℕ → Db → Type 0
IsKnown s id d = distinct_ids d.deposits ≡ true → IsIn s id d.deposits

IsIn-update :
    (s : DepositState) (id : ℕ) (p : Deposit → Bool) (f : Deposit → Deposit) (rows : List Deposit)
    → ((x : Deposit) → (f x).id ≡ x.id)
    → ((x : Deposit) → (f x).state ≡ x.state)
    → IsIn s id rows
    → IsIn s id (update_if p f rows)
IsIn-update s id p f [] ids states h = tt
IsIn-update s id p f (x ∷ rows) ids states h =
    (head (p x), IsIn-update s id p f rows ids states h.1)
  where
    head : (b : Bool) → ((if b then f x else x).id == id) ≡ true → (if b then f x else x).state ≡ s
    head true e = states x ∙ h.0 (subst (λ i. (i == id) ≡ true) (ids x) e)
    head false e = h.0 e

pub IsKnown-update :
    (s : DepositState) (id : ℕ) (p : Deposit → Bool) (f : Deposit → Deposit) (d : Db)
    → ((x : Deposit) → (f x).id ≡ x.id)
    → ((x : Deposit) → (f x).state ≡ x.state)
    → IsKnown s id d
    → IsKnown s id (record d { deposits = update_if p f d.deposits })
IsKnown-update s id p f d ids states h k =
    IsIn-update s id p f d.deposits ids states
      (h (sym (distinct_ids-update p f d.deposits ids) ∙ k))

-- A change of columns that are not the deposit's identity or state.
pub touch-lawful :
    (p : Deposit → Bool) (f : Deposit → Deposit) (d : Db)
    → ((x : Deposit) → Follows x (f x))
    → lawful.Allows d (record d { deposits = update_if p f d.deposits })
touch-lawful p f d h = update-lawful p f d (λ x. (h x).0) (λ _. everywhere d.deposits)
  where
    everywhere : (rows : List Deposit) → All (λ x. p x ≡ true → Follows x (f x)) rows
    everywhere [] = tt
    everywhere (x ∷ rows) = (λ _. h x, everywhere rows)

-- A change of the state, from one that every row with the number is in.
pub set_state-lawful :
    (s t : DepositState) (id : ℕ) (f : Deposit → Deposit) (d : Db)
    → ((x : Deposit) → Follows (record x { state = t }) (f x))
    → leads s t ≡ true
    → IsKnown s id d
    → lawful.Allows d (update_deposit id f d)
set_state-lawful s t id f d same arrow known =
    update-lawful (deposit_has id) f d (λ x. (same x).0) (λ k. everywhere d.deposits (known k))
  where
    everywhere :
        (rows : List Deposit)
        → IsIn s id rows
        → All (λ x. (x.id == id) ≡ true → Follows x (f x)) rows
    everywhere [] h = tt
    everywhere (x ∷ rows) h = (
      λ e.
          Follows-trans x (record x { state = t }) (f x)
            (refl, refl, refl, refl, refl, refl, rw (h.0 e) arrow) (same x),
      everywhere rows h.1,
    )

-- A new row has a number of its own.
inserted-lawful :
    (e : Event) (address now : ℕ) (w : World)
    → Ensures
        (λ id d'. lawful.Allows w.db d' × IsKnown seen id d')
        (written (next w) (insert_deposit e address now w.db))
unfolding insert_deposit
inserted-lawful e address now w =
    elim (Bool-cases
      (any (is_output e.txid e.vout) rows || not (any (has_id address) w.db.addresses))) [
        | inl bad ↦ rw bad tt
        | inr good ↦ rw good (
          (refl, λ k. (distinct_ids-append rows row fresh k, Evolves-append rows (row ∷ []))),
          λ _. appended (λ x. x.state ≡ seen) rows row fresh refl,
        )
      ]
  where
    rows : List Deposit
    rows = w.db.deposits

    row : Deposit
    row = seen_row e address now (next_id (λ (x : Deposit). x.id) rows)

    fresh : any (deposit_has row.id) rows ≡ false
    fresh = next_id-fresh rows

module _ (e : Event) (min_conf zero_conf_max : ℤ) where
  advance-lawful :
      (id : ℕ) (s : DepositState) (w : World)
      → IsKnown s id w.db
      → Ensures (λ _. lawful.Allows w.db) (advance e min_conf zero_conf_max id s w)
  advance-lawful id seen w known = elim (Bool-cases (is_due e min_conf zero_conf_max)) [
    | inl due ↦ rw due (
        then_Ensures (λ _. lawful.Allows w.db) (lawful.Allows w.db) _ _ w
          (modify-Ensures (lawful.Allows w.db) _ w (
            set_state-lawful seen confirmed id (set_state confirmed) w.db
              (λ x. Follows-refl (set_state confirmed x)) refl known))
          (λ w' h. h))
    | inr early ↦ rw early (lawful.stays w.db)
  ]
  advance-lawful id confirmed w known = lawful.stays w.db
  advance-lawful id credited w known = lawful.stays w.db
  advance-lawful id orphaned w known = lawful.stays w.db

  -- The row that the event is about, with its state before.
  upsert-lawful :
      (address now : ℕ) (o : Option Deposit) (w : World)
      → find (is_output e.txid e.vout) w.db.deposits ≡ o
      → Ensures
          (λ r d'. lawful.Allows w.db d' × IsKnown r.1 r.0 d')
          (upsert_deposit e address now o w)
  upsert-lawful address now none w found =
      bind_Ensures Q P (exec (insert_deposit e address now)) _ w
        (exec-Ensures P _ w (inserted-lawful e address now w)) (λ id w' h. h)
    where
      P : ℕ → Db → Type 0
      P id d' = lawful.Allows w.db d' × IsKnown seen id d'

      Q : ℕ × DepositState → Db → Type 0
      Q r d' = lawful.Allows w.db d' × IsKnown r.1 r.0 d'
  upsert-lawful address now (some x) w found =
      then_Ensures Q (λ d'. d' ≡ update_deposit x.id (refresh e) w.db) _ _ w
        (modify-Ensures (λ d'. d' ≡ update_deposit x.id (refresh e) w.db) _ w refl)
        (λ w' same. rw same (
          touch-lawful (deposit_has x.id) (refresh e) w.db refreshed,
          IsKnown-update x.state x.id (deposit_has x.id) (refresh e) w.db (λ _. refl) (λ _. refl)
              (found-IsIn (is_output e.txid e.vout) w.db.deposits x x.state refl found),
        ))
    where
      Q : ℕ × DepositState → Db → Type 0
      Q r d' = lawful.Allows w.db d' × IsKnown r.1 r.0 d'

      refreshed : (y : Deposit) → Follows y (refresh e y)
      refreshed y = (refl, refl, refl, refl, refl, refl, leads_refl y.state)

  pub tx-lawful :
      (address now : ℕ) (w : World)
      → AllOrNothing w.db
          (λ _. lawful.Allows w.db)
          (atomically
            (do
              existing ← query (λ d. find (is_output e.txid e.vout) d.deposits)
              (id, state) ← upsert_deposit e address now existing
              advance e min_conf zero_conf_max id state)
            w)
  tx-lawful address now w = atomically_lem Q _ w (
      query-Ensures Q _ _ (next w) (
        bind_Ensures Q P (upsert_deposit e address now found) _ (next (next w))
          (upsert-lawful address now found (next (next w)) refl)
          (λ r w' h.
            map_Ensures Q (λ _. lawful.Allows w'.db) _
              (λ due d' g. lawful.joins w.db w'.db d' h.0 g) (advance-lawful r.0 r.1 w' h.1))))
    where
      Q : Option ℕ → Db → Type 0
      Q _ = lawful.Allows w.db

      P : ℕ × DepositState → Db → Type 0
      P r d' = lawful.Allows w.db d' × IsKnown r.1 r.0 d'

      found : Option Deposit
      found = find (is_output e.txid e.vout) w.db.deposits
