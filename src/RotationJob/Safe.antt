-- ===== src/RotationJob/Safe.antt =====
-- What a check of the rotation job may change.
use dogecade.Common.{
  Bool-cases, List, String, [], ap, inl, inr, leb_ℤ, pos, refl, subst, sym, ℕ, ℤ, ◌&&◌, ◌/◌, ◌∙◌,
  ◌∷◌, ◌≡◌,
}
use dogecade.Store.{
  Action, AllOrNothing, Db, Result, World, bound, caught, err, exec, ok, query, ◌>>=◌,
}
use dogecade.Settings.{get_direct_pay_rotate_after_uses, get_direct_pay_rotate_interval_hours}
use dogecade.Settings.RoundTrip.{
  get_direct_pay_rotate_after_uses-Reads, get_direct_pay_rotate_interval_hours-Reads,
}
use dogecade.Pool.WellFormed.{IsWellFormed}
use dogecade.DirectPay.{rotate}
use dogecade.DirectPay.Rotation.{RotateOutcome, rotate-RotateOutcome}
use dogecade.RotationJob.{
  RotationCandidate, candidates, check_all, is_due_for_rotation, nanoseconds, rotate_due,
}

-- The table of addresses is in order, and no table but addresses and alerts has changed.
abbrev pub IsSafe : Db → Db → Type 0
IsSafe d d' =
    IsWellFormed d'.addresses × (d' ≡ record d { addresses = d'.addresses; alerts = d'.alerts })

IsSafe-same : (d : Db) → IsWellFormed d.addresses → IsSafe d d
IsSafe-same d v = (v, refl)

module _ {A B : Type 0} (P : Db → Type 0) where
  always_bind :
      (m : Action A) (k : A → Action B) (w : World)
      → P (m w).1.db
      → ((a : A) (w' : World) → P w'.db → P (k a w').1.db)
      → P ((m >>= k) w).1.db
  unfolding ◌>>=◌
  always_bind m k w h rest = go (m w) h
    where
      go : (r : Result A × World) → P r.1.db → P (bound k r).1.db
      go (ok a, w') p = rest a w' p
      go (err e, w') p = p

query_keeps : {A : Type 0} (f : Db → A) (w : World) → (query f w).1.db ≡ w.db
unfolding query exec
query_keeps f w = elim (Bool-cases (w.fails w.count)) [ inl e ↦ rw e refl | inr e ↦ rw e refl ]

reads_keeps :
    {A : Type 0} (d : Db) (r : Result A × World)
    → AllOrNothing d (λ _ d'. (d' ≡ d) × Unit {0}) r
    → r.1.db ≡ d
reads_keeps d (ok a, w) h = h.0
reads_keeps d (err e, w) h = h

pub rotated-IsSafe :
    (machine now : ℕ) (d : Db) (r : Result String × World)
    → IsWellFormed d.addresses
    → RotateOutcome machine now d r
    → IsSafe d r.1.db
rotated-IsSafe machine now d (ok addr, w) v h = (h.in_order, rw h.replaced refl)
rotated-IsSafe machine now d (err e, w) v h = (rw h v, rw h refl)

IsSafe-trans : (d d' d'' : Db) → IsSafe d d' → IsSafe d' d'' → IsSafe d d''
IsSafe-trans d d' d'' h g =
    (g.0, g.1 ∙ ap (λ (x : Db). record x { addresses = d''.addresses; alerts = d''.alerts }) h.1)

rotate_due-IsSafe :
    (hours uses : ℤ) (clock : ℕ) (cs : List RotationCandidate) (d : Db) (w : World)
    → IsSafe d w.db
    → IsSafe d (rotate_due hours uses clock cs w).1.db
unfolding rotate_due caught ◌>>=◌
rotate_due-IsSafe hours uses clock [] d w h = h
rotate_due-IsSafe hours uses clock (c ∷ cs) d w h =
    elim (Bool-cases (is_due_for_rotation hours uses clock c)) [
      | inl e ↦ rw e (
          rotate_due-IsSafe hours uses clock cs d (rotate c.machine_id now w).1 (
            IsSafe-trans d w.db _ h (
              rotated-IsSafe c.machine_id now w.db (rotate c.machine_id now w) h.0
                (rotate-RotateOutcome c.machine_id now w h.0))))
      | inr e ↦ rw e (rotate_due-IsSafe hours uses clock cs d w h)
    ]
  where
    now : ℕ
    now = clock / nanoseconds

-- A check of the rotation job keeps a table of addresses that is in order so, and changes no other
-- table but the alerts, whichever statements fail and whether or not it answers an error.
pub check_all-IsSafe :
    (clock : ℕ) (w : World) → IsWellFormed w.db.addresses → IsSafe w.db (check_all clock w).1.db
unfolding check_all
check_all-IsSafe clock w v =
    always_bind P _ _ w
      (kept w (get_direct_pay_rotate_interval_hours w)
        (get_direct_pay_rotate_interval_hours-Reads w) safe)
      λ hours w1 h1.
        always_bind P _ _ w1
          (kept w1 (get_direct_pay_rotate_after_uses w1) (get_direct_pay_rotate_after_uses-Reads w1)
            h1)
          λ uses w2 h2. elim (Bool-cases (leb_ℤ hours (pos 0) && leb_ℤ uses (pos 0))) [
            | inl e ↦ rw e h2
            | inr e ↦ rw e (
                always_bind P _ _ w2
                  (subst P (sym (query_keeps (λ d. candidates d.machines d.addresses) w2)) h2)
                  λ found w3 h3. rotate_due-IsSafe hours uses clock found w.db w3 h3)
          ]
  where
    P : Db → Type 0
    P = IsSafe w.db

    safe : P w.db
    safe = IsSafe-same w.db v

    kept :
        (w' : World) (r : Result ℤ × World)
        → AllOrNothing w'.db (λ _ d'. (d' ≡ w'.db) × Unit {0}) r
        → P w'.db
        → P r.1.db
    kept w' r h p = subst P (sym (reads_keeps w'.db r h)) p
