-- ===== src/Tests/Machines.antt =====
-- Machines: pulses that fail, and the rotation of an address.
use dogecade.Common.{arith, inl, inr, pos, refl, to_int64, ◌*ℤ◌, ◌-ℤ◌, ◌≡◌}
use dogecade.Store.{AllOrNothing, Ensures, confirmed, err, ok, pulse_failed}
use dogecade.Settings.Decimal.{parse_int, read_digits, read_unsigned}
use dogecade.Settings.{key_direct_pay_rotate_interval_hours}
use dogecade.Settings.RoundTrip.{number_in}
use dogecade.DirectPay.{credit_deposit, rotate}
use dogecade.DirectPay.Rotation.{RotateOutcome, rotate-RotateOutcome}
use dogecade.DirectPay.Credit.{DirectPaid, credit_deposit-DirectPaid}
use dogecade.RotationJob.{check_all}
use dogecade.RotationJob.Safe.{IsSafe}
use dogecade.RotationJob.Spared.{IsDue, NoneDue, Spares, check_all-Spares}
use dogecade.Relay.{backoff_duration, conclude}
use dogecade.Relay.Backoff.{backoff_duration-doubled, backoff_duration-overflow}
use dogecade.Relay.Dispatch.{Concluded, conclude-Concluded}
use dogecade.Tests.{arcade-IsWellFormed, cabinets_address, day, first_pulse, set_to_rotate}

conclude-Concluded_example :
    Ensures
      (λ _. Concluded (pos 0) first_pulse 40 (err pulse_failed) day)
      (conclude (pos 0) first_pulse 40 (err pulse_failed) day)
conclude-Concluded_example = conclude-Concluded (pos 0) first_pulse 40 (err pulse_failed) day

backoff_duration-doubled_example : backoff_duration (pos 0) 4 ≡ pos 4_000_000_000
backoff_duration-doubled_example = backoff_duration-doubled (pos 0) 3 (omega arith)

backoff_duration-overflow_example : backoff_duration (pos 0) 57 ≡ pos 0
backoff_duration-overflow_example = backoff_duration-overflow (pos 0) 0 (omega arith)

rotate-RotateOutcome_example : RotateOutcome 1 50 day.db (rotate 1 50 day)
rotate-RotateOutcome_example = rotate-RotateOutcome 1 50 day (arcade-IsWellFormed confirmed)

interval_read :
    number_in key_direct_pay_rotate_interval_hours (pos 0) set_to_rotate.db ≡ ok (pos 24)
unfolding parse_int read_unsigned read_digits
interval_read = refl

young : ¬ IsDue (pos 24) (pos 0) 72_000_000_000_000 cabinets_address
unfolding to_int64 ◌*ℤ◌ ◌-ℤ◌
young (inl h) = omega (arith, h.0)
young (inr h) = omega (arith, h.1)

none_due : NoneDue 1 (pos 24) (pos 0) 72_000_000_000_000 set_to_rotate.db.addresses
none_due = ((λ e. cc), ((λ e. young), ((λ e. cc), ((λ e. cc), tt))))

-- Twenty hours after the address began to serve the machine it is not due.
check_all-Spares_example :
    Spares 1 set_to_rotate.db (check_all 72_000_000_000_000 set_to_rotate).1.db
    × IsSafe set_to_rotate.db (check_all 72_000_000_000_000 set_to_rotate).1.db
check_all-Spares_example =
    check_all-Spares 72_000_000_000_000 1 (pos 24) (pos 0) set_to_rotate
      (arcade-IsWellFormed confirmed) interval_read refl none_due

credit_deposit-DirectPaid_example :
    AllOrNothing day.db (DirectPaid 1 1 50 day.db) (credit_deposit 1 2 1 50 day)
credit_deposit-DirectPaid_example = credit_deposit-DirectPaid 1 2 1 50 day
