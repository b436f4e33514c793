-- ===== src/RotationJob.antt =====
-- internal/services/rotation.go: the job that rotates the addresses of machines by their age or
-- their use. One reading of the clock, in nanoseconds, serves a whole check.
pub mod Safe
pub mod Spared
use dogecade.Common.{
  Bool, List, Option, [], any, false, if◌then◌else◌, leb_ℤ, ltb_ℤ, none, pos, some, to_int64, ℕ, ℤ,
  ◌&&◌, ◌*ℤ◌, ◌*◌, ◌++◌, ◌-ℤ◌, ◌/◌, ◌==◌, ◌||◌, ◌∷◌,
}
use dogecade.Store.{
  Action, Address, Machine, caught, is_assigned, machine_direct, pure, query, same_purpose, ◌>>=◌,
  ◌>>◌,
}
use dogecade.Settings.{get_direct_pay_rotate_after_uses, get_direct_pay_rotate_interval_hours}
use dogecade.DirectPay.{rotate}

pub record RotationCandidate : Type 0 where
  pub machine_id : ℕ
  pub use_count : ℕ
  pub assigned_at : Option ℕ

abbrev pub nanoseconds : ℕ
nanoseconds = 1_000_000_000

abbrev pub hour : ℕ
hour = 3_600_000_000_000

abbrev pub takes_direct_pay : List Machine → ℕ → Bool
takes_direct_pay machines id = any (λ (m : Machine). m.id == id && m.direct_pay_enabled) machines

abbrev pub candidate : List Machine → Address → Option ℕ → List RotationCandidate
candidate machines a none = []
candidate machines a (some machine) =
    if same_purpose a.purpose machine_direct
      && is_assigned a.state
      && takes_direct_pay machines machine
    then record { machine_id = machine; use_count = a.use_count; assigned_at = a.assigned_at } ∷ []
    else []

-- The join of addresses with machines.
abbrev pub candidates : List Machine → List Address → List RotationCandidate
candidates machines [] = []
candidates machines (a ∷ rows) = candidate machines a a.machine_id ++ candidates machines rows

-- In int64 nanoseconds, as the product with the hour is computed.
abbrev pub is_old : ℤ → ℕ → Option ℕ → Bool
is_old hours clock none = false
is_old hours clock (some t) =
    ltb_ℤ (pos 0) hours && leb_ℤ (to_int64 (hours *ℤ pos hour)) (pos clock -ℤ pos (t * nanoseconds))

abbrev pub is_due_for_rotation : ℤ → ℤ → ℕ → RotationCandidate → Bool
is_due_for_rotation hours uses clock c =
    (ltb_ℤ (pos 0) uses && leb_ℤ uses (pos c.use_count)) || is_old hours clock c.assigned_at

-- A rotation that fails is logged, and the job goes on.
pub rotate_due : ℤ → ℤ → ℕ → List RotationCandidate → Action (Unit {0})
rotate_due hours uses clock [] = pure tt
rotate_due hours uses clock (c ∷ rest) =
    let others = rotate_due hours uses clock rest in
    if is_due_for_rotation hours uses clock c
    then caught (rotate c.machine_id (clock / nanoseconds)) >>= (λ _. others)
    else others

pub check_all : ℕ → Action (Unit {0})
check_all clock = do
  hours ← get_direct_pay_rotate_interval_hours
  uses ← get_direct_pay_rotate_after_uses
  if leb_ℤ hours (pos 0) && leb_ℤ uses (pos 0) then pure tt else (do
    found ← query (λ d. candidates d.machines d.addresses)
    rotate_due hours uses clock found)
