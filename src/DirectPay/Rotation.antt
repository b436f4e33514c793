-- ===== src/DirectPay/Rotation.antt =====
-- The rotation of a machine's address.
use dogecade.Common.{Option, String, count_if, none, refl, some, subst, update_if, ℕ, ◌≡◌}
use dogecade.Store.{
  Action, Address, AllOrNothing, Db, Ensures, Result, World, atomically, atomically_lem,
  bind_Ensures, bound, direct_pay_pool_empty, err, exec-Ensures, machine_direct, next, ok,
  pool_empty, pure, query, query-Ensures, raise, raise_if-Ensures, weaken, ◌>>=◌, ◌>>◌,
}
use dogecade.Alerts.{insert_alert_if_not_exists}
use dogecade.Alerts.Dedup.{
  Deduplicated, Deduplicated-alerts, insert_alert_if_not_exists-Deduplicated,
}
use dogecade.Pool.{is_free, oldest, still_pooled}
use dogecade.Pool.WellFormed.{IsWellFormed, update_addresses-IsWellFormed}
use dogecade.DirectPay.{
  bind_machine, replace, replace_if_any, report_empty, retire_at, rotate, serves,
}

-- The address that served the machine is retired, and the oldest one of the pool serves it.
pub record Rotated (machine now : ℕ) (addr : String) (d d' : Db) : Type 0 where
  pub row : Address
  pub found : oldest (is_free machine_direct) d.addresses ≡ some row
  pub answer : addr ≡ row.address
  pub replaced : d' ≡ record d {
    addresses =
        update_if
          (still_pooled row.id)
          (bind_machine machine now)
          (update_if (serves machine) (retire_at now) d.addresses);
  }
  pub in_order : IsWellFormed d'.addresses

-- The outcome of `rotate`: a rotation that fails has changed no table but the alerts.
abbrev pub RotateOutcome : ℕ → ℕ → Db → Result String × World → Type 0
RotateOutcome machine now d (ok addr, w) = Rotated machine now addr d w.db
RotateOutcome machine now d (err e, w) = w.db ≡ record d { alerts = w.db.alerts }

-- What the transaction leaves.
abbrev Swapped : ℕ → ℕ → Db → Option String → Db → Type 0
Swapped machine now d none d' = d' ≡ d
Swapped machine now d (some addr) d' = Rotated machine now addr d d'

replace-Rotated :
    (machine now : ℕ) (row : Address) (w : World)
    → oldest (is_free machine_direct) w.db.addresses ≡ some row
    → IsWellFormed w.db.addresses
    → Ensures (λ addr d'. Rotated machine now addr w.db d') (replace machine now row w)
replace-Rotated machine now row w found v =
    bind_Ensures Q P1 _ _ w
      (exec-Ensures P1 _ w (
        weaken P1 w.db _ (
          update_addresses-IsWellFormed (serves machine) (retire_at now) w.db (next w) (λ a. refl)
            (λ a h. cc) v)))
      λ _ w1 p.
        bind_Ensures Q (P2 w1.db) _ _ w1
          (exec-Ensures (P2 w1.db) _ w1 (
            weaken (P2 w1.db) w1.db _ (
              update_addresses-IsWellFormed (still_pooled row.id) (bind_machine machine now) w1.db
                (next w1) (λ a. refl) (λ a h. cc) p.2)))
          λ n w2 q. raise_if-Ensures Q _ _ _ w2 λ _. record {
            row = row;
            found = found;
            answer = refl;
            replaced = rw q.0 (rw p.0 refl);
            in_order = q.2;
          }
  where
    Q : String → Db → Type 0
    Q addr d' = Rotated machine now addr w.db d'

    P1 : ℕ → Db → Type 0
    P1 n d' =
        (d' ≡ record w.db { addresses = update_if (serves machine) (retire_at now) w.db.addresses })
        × (n ≡ count_if (serves machine) w.db.addresses)
        × IsWellFormed d'.addresses

    P2 : Db → ℕ → Db → Type 0
    P2 d n d' =
        (d' ≡ record d {
          addresses = update_if (still_pooled row.id) (bind_machine machine now) d.addresses;
        })
        × (n ≡ count_if (still_pooled row.id) d.addresses)
        × IsWellFormed d'.addresses

report_empty-RotateOutcome :
    (machine now : ℕ) (d : Db) (o : Option String) (w : World)
    → Swapped machine now d o w.db
    → RotateOutcome machine now d (report_empty now o w)
unfolding ◌>>◌ ◌>>=◌
report_empty-RotateOutcome machine now d (some addr) w h = h
report_empty-RotateOutcome machine now d none w h =
    reported (insert_alert_if_not_exists direct_pay_pool_empty now w) (
      subst
        (λ d.
          AllOrNothing d (Deduplicated direct_pay_pool_empty now d)
            (insert_alert_if_not_exists direct_pay_pool_empty now w))
        h (insert_alert_if_not_exists-Deduplicated direct_pay_pool_empty now w))
  where
    reported :
        (r : Result (Unit {0}) × World)
        → AllOrNothing d (Deduplicated direct_pay_pool_empty now d) r
        → RotateOutcome machine now d (bound (λ _. raise pool_empty) r)
    reported (ok _, w') g = Deduplicated-alerts direct_pay_pool_empty now d w'.db g
    reported (err e, w') g = rw g refl

-- Whatever statement fails, a rotation on a table that is in order either retires the machine's
-- address and binds the oldest free one in its place, the table still in order, or leaves every
-- table but the alerts as it was.
pub rotate-RotateOutcome :
    (machine now : ℕ) (w : World)
    → IsWellFormed w.db.addresses
    → RotateOutcome machine now w.db (rotate machine now w)
unfolding rotate ◌>>=◌
rotate-RotateOutcome machine now w v = reported (atomically swap w) (
    atomically_lem Q _ w (
      query-Ensures Q _ _ (next w) (swapped (oldest (is_free machine_direct) w.db.addresses) refl)))
  where
    Q : Option String → Db → Type 0
    Q = Swapped machine now w.db

    swap : Action (Option String)
    swap = do
      found ← query (λ d. oldest (is_free machine_direct) d.addresses)
      replace_if_any machine now found

    swapped :
        (o : Option Address)
        → oldest (is_free machine_direct) w.db.addresses ≡ o
        → Ensures Q (replace_if_any machine now o (next (next w)))
    swapped none e = refl
    swapped (some row) e =
        bind_Ensures Q (λ addr d'. Rotated machine now addr w.db d') (replace machine now row)
          (λ addr. pure (some addr)) (next (next w))
          (replace-Rotated machine now row (next (next w)) e v) (λ addr w' h. h)

    reported :
        (r : Result (Option String) × World)
        → AllOrNothing w.db Q r
        → RotateOutcome machine now w.db (bound (report_empty now) r)
    reported (ok o, w') h = report_empty-RotateOutcome machine now w.db o w' h
    reported (err e, w') h = rw h refl
