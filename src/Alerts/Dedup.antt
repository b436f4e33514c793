-- ===== src/Alerts/Dedup.antt =====
-- Alerts are raised once: a kind that has an open alert gets no second one.
use dogecade.Common.{
  Bool, Bool-cases, List, [], arith, count_if, if◌then◌else◌, inl, inr, ltb, none, refl, suc, true,
  ℕ, ◌++◌, ◌∷◌, ◌≡◌,
}
use dogecade.Store.{
  Alert, AlertKind, AllOrNothing, Db, World, calm, exec_lem, next, next_id, ok, query-AllOrNothing,
  same_kind, statements,
}
use dogecade.Alerts.{alert_row, insert_alert, insert_alert_if_not_exists, is_open}

pub count-append :
    (p : Alert → Bool) (xs : List Alert) (x : Alert)
    → p x ≡ true
    → ltb 0 (count_if p (xs ++ x ∷ [])) ≡ true
count-append p [] x h = rw h refl
count-append p (y ∷ xs) x h =
    let later = count-append p xs x h in
    elim (Bool-cases (p y)) [ inl e ↦ ground arith | inr e ↦ ground arith ]

-- The alert of the kind that the tables hold after the call.
abbrev pub Deduplicated : AlertKind → ℕ → Db → Unit {0} → Db → Type 0
Deduplicated kind now d _ d' =
    (ltb 0 (count_if (is_open kind) d'.alerts) ≡ true)
    × (d' ≡ (
        if ltb 0 (count_if (is_open kind) d.alerts) then d else record d {
          alerts = d.alerts ++ alert_row kind none now (next_id (λ x. x.id) d.alerts) ∷ [];
        }))

same_kind_refl : (kind : AlertKind) → same_kind kind kind ≡ true
same_kind_refl kind = ground arith

-- After the call an alert of the kind is open: the tables are unchanged where there was one, and
-- have one new alert where there was none. A call that fails leaves the tables as they were.
pub insert_alert_if_not_exists-Deduplicated :
    (kind : AlertKind) (now : ℕ) (w : World)
    → AllOrNothing w.db (Deduplicated kind now w.db) (insert_alert_if_not_exists kind now w)
unfolding insert_alert_if_not_exists insert_alert
insert_alert_if_not_exists-Deduplicated kind now w =
    query-AllOrNothing Q _ _ w (elim (Bool-cases (ltb 0 (count_if (is_open kind) w.db.alerts))) [
      | inl some_open ↦ rw some_open (some_open, rw some_open refl)
      | inr none_open ↦ rw none_open (
          exec_lem Q _ (next w)
            (rw none_open (count-append (is_open kind) w.db.alerts row new_is_open, refl)))
    ])
  where
    Q : Unit {0} → Db → Type 0
    Q = Deduplicated kind now w.db

    row : Alert
    row = alert_row kind none now (next_id (λ (x : Alert). x.id) w.db.alerts)

    new_is_open : is_open kind row ≡ true
    new_is_open = ground (arith, same_kind_refl kind)

-- All that changes is the alerts.
pub Deduplicated-alerts :
    (kind : AlertKind) (now : ℕ) (d d' : Db)
    → Deduplicated kind now d tt d'
    → d' ≡ record d { alerts = d'.alerts }
Deduplicated-alerts kind now d d' h = elim (Bool-cases (ltb 0 (count_if (is_open kind) d.alerts))) [
  | inl e ↦ rw (h.1, e) refl
  | inr e ↦ rw (h.1, e) refl
]

-- The tables with an open alert of the kind.
abbrev pub raised : AlertKind → ℕ → Db → Db
raised kind now d = if ltb 0 (count_if (is_open kind) d.alerts) then d else record d {
  alerts = d.alerts ++ alert_row kind none now (next_id (λ (x : Alert). x.id) d.alerts) ∷ [];
}

-- When no statement fails the call ends well, with those tables.
pub insert_alert_if_not_exists-calm :
    (kind : AlertKind) (now : ℕ) (d : Db) (n : ℕ)
    → (m : ℕ) × (insert_alert_if_not_exists kind now (calm d n)
        ≡ (ok tt, calm (raised kind now d) m))
unfolding insert_alert_if_not_exists insert_alert statements
insert_alert_if_not_exists-calm kind now d n =
    elim (Bool-cases (ltb 0 (count_if (is_open kind) d.alerts))) [
      | inl some_open ↦ (suc n, rw some_open refl)
      | inr none_open ↦ (suc (suc n), rw none_open refl)
    ]

pub raised_lem :
    (kind : AlertKind) (now : ℕ) (d : Db)
    → ltb 0 (count_if (is_open kind) (raised kind now d).alerts) ≡ true
raised_lem kind now d = elim (Bool-cases (ltb 0 (count_if (is_open kind) d.alerts))) [
  | inl some_open ↦ rw some_open some_open
  | inr none_open ↦ rw none_open (
      count-append (is_open kind) d.alerts
        (alert_row kind none now (next_id (λ (x : Alert). x.id) d.alerts))
        (ground (arith, same_kind_refl kind)))
]

pub raised-boards : (kind : AlertKind) (now : ℕ) (d : Db) → (raised kind now d).boards ≡ d.boards
raised-boards kind now d = elim (Bool-cases (ltb 0 (count_if (is_open kind) d.alerts))) [
  | inl some_open ↦ rw some_open refl
  | inr none_open ↦ rw none_open refl
]
