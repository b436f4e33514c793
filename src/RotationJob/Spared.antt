-- ===== src/RotationJob/Spared.antt =====
-- Which machines a check of the rotation job leaves alone.
use dogecade.Common.{
  All, Bool-cases, List, Option, String, [], arith, false, inl, inr, leb_ℤ, ltb_ℤ, none, pos, refl,
  select, some, suc, to_int64, true, update_if, ℕ, ℤ, ◌&&◌, ◌*ℤ◌, ◌*◌, ◌++◌, ◌-ℤ◌, ◌/◌, ◌==◌, ◌∙◌,
  ◌∷◌, ◌≡◌, ◌≤ℤ◌, ◌⊎◌,
}
use dogecade.Store.{
  Address, Db, Machine, Result, World, caught, err, exec, is_assigned, machine_direct, next, ok,
  query, same_purpose, ◌>>=◌,
}
use dogecade.Settings.{key_direct_pay_rotate_after_uses, key_direct_pay_rotate_interval_hours}
use dogecade.Settings.RoundTrip.{
  get_direct_pay_rotate_after_uses_read, get_direct_pay_rotate_interval_hours_read, number_in,
}
use dogecade.Pool.{still_pooled}
use dogecade.Pool.WellFormed.{IsWellFormed}
use dogecade.DirectPay.{bind_machine, retire_at, rotate, serves}
use dogecade.DirectPay.Rotation.{RotateOutcome, rotate-RotateOutcome}
use dogecade.RotationJob.{
  RotationCandidate, candidate, candidates, check_all, is_due_for_rotation, is_old, nanoseconds,
  rotate_due, takes_direct_pay,
}
use dogecade.RotationJob.Safe.{IsSafe, check_all-IsSafe, rotated-IsSafe}

-- The address is due: it has served as often as the setting says, or for as many hours, where the
-- settings are positive. The hours are in nanoseconds of int64.
abbrev pub IsOld : ℤ → ℕ → Option ℕ → Type 0
IsOld hours clock none = ⊥
IsOld hours clock (some t) =
    (pos 1 ≤ℤ hours)
    × (to_int64 (hours *ℤ pos 3_600_000_000_000) ≤ℤ pos clock -ℤ pos (t * 1_000_000_000))

abbrev pub IsDue : ℤ → ℤ → ℕ → Address → Type 0
IsDue hours uses clock a =
    ((pos 1 ≤ℤ uses) × (uses ≤ℤ pos a.use_count)) ⊎ IsOld hours clock a.assigned_at

-- The addresses that serve the machine are the same ones, with the same columns.
abbrev pub Spares : ℕ → Db → Db → Type 0
Spares machine d d' = select (serves machine) d'.addresses ≡ select (serves machine) d.addresses

select-rotated :
    (machine other now id : ℕ) (rows : List Address)
    → (other == machine) ≡ false
    → select (serves machine) (
        update_if
          (still_pooled id)
          (bind_machine other now)
          (update_if (serves other) (retire_at now) rows))
      ≡ select (serves machine) rows
select-rotated machine other now id [] h = refl
select-rotated machine other now id (a ∷ rows) h =
    ground (arith, select-rotated machine other now id rows)

rotated-Spares :
    (machine other now : ℕ) (d : Db) (r : Result String × World)
    → (other == machine) ≡ false
    → RotateOutcome other now d r
    → Spares machine d r.1.db
rotated-Spares machine other now d (ok addr, w) apart h =
    rw h.replaced (select-rotated machine other now h.row.id d.addresses apart)
rotated-Spares machine other now d (err e, w) apart h = rw h refl

-- No candidate for the machine is due.
abbrev SparedIn : ℕ → ℤ → ℤ → ℕ → List RotationCandidate → Type 0
SparedIn machine hours uses clock =
    All (λ c. (c.machine_id == machine) ≡ true → is_due_for_rotation hours uses clock c ≡ false)

rotate_due-Spares :
    (machine : ℕ) (hours uses : ℤ) (clock : ℕ) (cs : List RotationCandidate) (w : World)
    → SparedIn machine hours uses clock cs
    → IsWellFormed w.db.addresses
    → Spares machine w.db (rotate_due hours uses clock cs w).1.db
unfolding rotate_due caught ◌>>=◌
rotate_due-Spares machine hours uses clock [] w h v = refl
rotate_due-Spares machine hours uses clock (c ∷ cs) w h v =
    elim (Bool-cases (is_due_for_rotation hours uses clock c)) [
      | inr e ↦ rw e (rotate_due-Spares machine hours uses clock cs w h.1 v)
      | inl e ↦ rw e (
          rotate_due-Spares machine hours uses clock cs (rotate c.machine_id now w).1 h.1
            (rotated-IsSafe c.machine_id now w.db (rotate c.machine_id now w) v outcome).0
          ∙ rotated-Spares machine c.machine_id now w.db (rotate c.machine_id now w) (apart e)
              outcome)
    ]
  where
    now : ℕ
    now = clock / nanoseconds

    outcome : RotateOutcome c.machine_id now w.db (rotate c.machine_id now w)
    outcome = rotate-RotateOutcome c.machine_id now w v

    apart : is_due_for_rotation hours uses clock c ≡ true → (c.machine_id == machine) ≡ false
    apart e = elim (Bool-cases (c.machine_id == machine)) [
      | inl same ↦ let no = h.0 same in cc
      | inr other ↦ other
    ]

not_due :
    (hours uses : ℤ) (clock : ℕ) (a : Address) (machine : ℕ)
    → ¬ IsDue hours uses clock a
    → is_due_for_rotation hours uses clock
        (record { machine_id = machine; use_count = a.use_count; assigned_at = a.assigned_at })
      ≡ false
not_due hours uses clock a machine h =
    elim (Bool-cases (ltb_ℤ (pos 0) uses && leb_ℤ uses (pos a.use_count))) [
      | inl used ↦ absurd (h (inl (ground arith, ground arith)))
      | inr unused ↦ rw unused (young a.assigned_at (λ o. h (inr o)))
    ]
  where
    young : (t : Option ℕ) → ¬ IsOld hours clock t → is_old hours clock t ≡ false
    young none n = refl
    young (some t) n = elim (Bool-cases (is_old hours clock (some t))) [
      | inl old ↦ absurd (n (ground arith, ground arith))
      | inr new ↦ new
    ]

-- No address of the machine's is due.
abbrev pub NoneDue : ℕ → ℤ → ℤ → ℕ → List Address → Type 0
NoneDue machine hours uses clock = All (λ a. serves machine a ≡ true → ¬ IsDue hours uses clock a)

candidates-SparedIn :
    (machine : ℕ) (hours uses : ℤ) (clock : ℕ) (machines : List Machine) (rows : List Address)
    → NoneDue machine hours uses clock rows
    → SparedIn machine hours uses clock (candidates machines rows)
candidates-SparedIn machine hours uses clock machines [] h = tt
candidates-SparedIn machine hours uses clock machines (a ∷ rows) h =
    first a.machine_id refl (candidates-SparedIn machine hours uses clock machines rows h.1)
  where
    first :
        (o : Option ℕ)
        → a.machine_id ≡ o
        → SparedIn machine hours uses clock (candidates machines rows)
        → SparedIn machine hours uses clock (candidate machines a o ++ candidates machines rows)
    first none e rest = rest
    first (some m) e rest =
        elim (Bool-cases (
          same_purpose a.purpose machine_direct
          && is_assigned a.state
          && takes_direct_pay machines m)) [
            | inr refused ↦ rw refused rest
            | inl passed ↦
                rw passed ((λ same. not_due hours uses clock a m (h.0 (rw e (ground arith)))), rest)
          ]

spared_by_check :
    (clock machine : ℕ) (hours uses : ℤ) (w : World)
    → IsWellFormed w.db.addresses
    → number_in key_direct_pay_rotate_interval_hours (pos 0) w.db ≡ ok hours
    → number_in key_direct_pay_rotate_after_uses (pos 0) w.db ≡ ok uses
    → NoneDue machine hours uses clock w.db.addresses
    → Spares machine w.db (check_all clock w).1.db
unfolding check_all ◌>>=◌ query exec
spared_by_check clock machine hours uses w v eh eu spared = elim (Bool-cases (w.fails w.count)) [
  | inl down ↦ rw (get_direct_pay_rotate_interval_hours_read w, down) refl
  | inr up ↦
      rw (get_direct_pay_rotate_interval_hours_read w, up, eh)
        (elim (Bool-cases (w.fails (suc w.count))) [
          | inl down ↦ rw (get_direct_pay_rotate_after_uses_read (next w), down) refl
          | inr up' ↦
              rw (get_direct_pay_rotate_after_uses_read (next w), up', eu)
                (elim (Bool-cases (leb_ℤ hours (pos 0) && leb_ℤ uses (pos 0))) [
                  | inl off ↦ rw off refl
                  | inr on ↦ rw on (elim (Bool-cases (w.fails (suc (suc w.count)))) [
                    | inl down ↦ rw down refl
                    | inr up'' ↦ rw up'' (
                        rotate_due-Spares machine hours uses clock _ (next (next (next w)))
                          (candidates-SparedIn machine hours uses clock w.db.machines w.db.addresses
                            spared)
                          v)
                  ])
                ])
        ])
]

-- Whichever statements fail, and whether or not a check of the rotation job answers an error, a
-- machine of whose addresses none is due by the settings in force keeps the ones it has as they are.
-- No table but the addresses and the alerts changes, and the addresses stay in order. The table is in
-- order before, and the two settings hold numbers.
pub check_all-Spares :
    (clock machine : ℕ) (hours uses : ℤ) (w : World)
    → IsWellFormed w.db.addresses
    → number_in key_direct_pay_rotate_interval_hours (pos 0) w.db ≡ ok hours
    → number_in key_direct_pay_rotate_after_uses (pos 0) w.db ≡ ok uses
    → NoneDue machine hours uses clock w.db.addresses
    → Spares machine w.db (check_all clock w).1.db × IsSafe w.db (check_all clock w).1.db
check_all-Spares clock machine hours uses w v eh eu spared =
    (spared_by_check clock machine hours uses w v eh eu spared, check_all-IsSafe clock w v)
