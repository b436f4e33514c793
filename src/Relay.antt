-- ===== src/Relay.antt =====
-- internal/relay/dispatcher.go: pending pulses become pulses of a relay board, with retries, and a
-- refund where they are given up. Of the outside world it takes, as parameters, whether a board
-- answers a call (`answers`), how long the call takes in nanoseconds (`took`), and what Go makes of
-- a float64 that no int64 holds (`unrepresentable`).
pub mod Backoff
pub mod Dispatch
use dogecade.Common.{
  Bool, List, Option, String, [], find, floor_div, if◌then◌else◌, leb, leb_ℤ, ltb, ltb_ℤ, none,
  or_else, pos, pos_part, select, some, suc, to_int64, true, update_if, zero, ℕ, ℤ, ◌&&◌, ◌*ℤ◌,
  ◌+ℤ◌, ◌+◌, ◌-ℤ◌, ◌/◌, ◌==◌, ◌^◌, ◌||◌, ◌∷◌,
}
use dogecade.Store.{
  Action, Board, Db, Error, Pulse, PulseSource, Relay, Result, World, caught, dispatch_failed, err,
  failed, is_pending, modify, no_binding, ok, or_raise, pulse_failed, pure, query,
  relay_dispatch_failed, sent, token_redemption, ◌>>=◌, ◌>>◌,
}
use dogecade.Alerts.{insert_alert_if_not_exists}
use dogecade.Settings.{get_relay_max_attempts, get_relay_pulse_gap_ms}
use dogecade.Ledger.{refund}
use mathlib.Core.Option

abbrev pub backoff_base : ℕ
backoff_base = 500_000_000

abbrev pub backoff_cap : ℕ
backoff_cap = 30_000_000_000

abbrev pub second : ℕ
second = 1_000_000_000

-- `time.Duration(math.Pow(2, n))`: a float64 holds each power of two, an int64 those below 2^63.
abbrev pub power_as_int64 : ℤ → ℕ → ℤ
power_as_int64 unrepresentable n = if ltb n 63 then pos (2 ^ n) else unrepresentable

-- In nanoseconds, by the number of the attempt, from 1. (For 0 the power is a half, cut off to 0.)
pub backoff_duration : ℤ → ℕ → ℤ
backoff_duration unrepresentable zero = pos 0
backoff_duration unrepresentable (suc n) =
    let d = to_int64 (pos backoff_base *ℤ power_as_int64 unrepresentable n) in
    if ltb_ℤ (pos backoff_cap) d then pos backoff_cap else d

abbrev pub pulse_has : ℕ → Pulse → Bool
pulse_has id p = p.id == id

-- `UPDATE credit_pulses SET f WHERE id = ?`.
abbrev pub update_pulse : ℕ → (Pulse → Pulse) → Db → Db
update_pulse id f d = record d { pulses = update_if (pulse_has id) f d.pulses }

abbrev pub is_eligible : ℕ → Option ℤ → Bool
is_eligible now none = true
is_eligible now (some t) = leb_ℤ t (pos now)

-- The order of `ORDER BY machine_id, id`.
abbrev pub comes_first : Pulse → Pulse → Bool
comes_first p q = ltb p.machine_id q.machine_id || (p.machine_id == q.machine_id && leb p.id q.id)

abbrev pub insert_pending : Pulse → List Pulse → List Pulse
insert_pending p [] = p ∷ []
insert_pending p (q ∷ qs) =
    let rest = insert_pending p qs in if comes_first p q then p ∷ q ∷ qs else q ∷ rest

abbrev pub order_pending : List Pulse → List Pulse
order_pending [] = []
order_pending (p ∷ ps) = insert_pending p (order_pending ps)

pub fetch_pending_pulses : ℕ → Action (List Pulse)
fetch_pending_pulses now = query λ d.
    order_pending (select (λ p. is_pending p.state && is_eligible now p.next_attempt_at) d.pulses)

abbrev pub board_of : ℕ → List Board → Option Board
board_of id = find (λ b. b.id == id && b.is_active)

-- The join of machine_relays with relay_boards, over the active rows of both.
abbrev pub binding_in : ℕ → List Board → List Relay → Option (String × ℕ)
binding_in machine boards [] = none
binding_in machine boards (r ∷ rest) =
    let others = binding_in machine boards rest in
    if r.machine_id == machine && r.is_active
    then or_else (Option.map (λ b. (b.base_url, r.relay_number)) (board_of r.board_id boards))
        others
    else others

pub resolve_binding : ℕ → Action (String × ℕ)
resolve_binding machine = do
  found ← query (λ d. binding_in machine d.boards d.relays)
  or_raise found no_binding

abbrev pub set_sent : ℕ → Pulse → Pulse
set_sent now p = record p { state = sent; sent_at = some now; next_attempt_at = none }

pub mark_sent : ℕ → ℕ → Action (Unit {0})
mark_sent id now = modify (update_pulse id (set_sent now))

abbrev pub set_retry : ℕ → Error → ℤ → Pulse → Pulse
set_retry attempt e at p = record p {
  attempts = attempt;
  last_error = some e;
  next_attempt_at = some at;
}

-- The time is stored in whole seconds, rounded down.
pub mark_pending_retry : ℤ → ℕ → ℕ → Error → ℕ → Action (Unit {0})
mark_pending_retry unrepresentable id attempt e clock =
    let at = floor_div (pos clock +ℤ backoff_duration unrepresentable attempt) second in
    modify (update_pulse id (set_retry attempt e at))

abbrev pub set_failed : ℕ → Error → Pulse → Pulse
set_failed attempt e p = record p { state = failed; attempts = attempt; last_error = some e }

-- Only a redeemed token is given back.
abbrev pub refund_if_redeemed : ℕ → ℕ → Error → ℕ → PulseSource → Option ℕ → Action (Unit {0})
refund_if_redeemed id attempt e now token_redemption (some user) =
    refund user id (dispatch_failed attempt e) now
refund_if_redeemed id attempt e now _ _ = pure tt

pub mark_failed_and_refund : Pulse → ℕ → Error → ℕ → Action (Unit {0})
mark_failed_and_refund p attempt e now = do
  modify (update_pulse p.id (set_failed attempt e))
  refund_if_redeemed p.id attempt e now p.source p.user_id
  insert_alert_if_not_exists relay_dispatch_failed now

-- The default for a setting that cannot be read.
abbrev pub or_default : ℤ → Result ℤ → ℤ
or_default default (ok z) = z
or_default default (err _) = default

-- The dispatcher's own state: when each machine's relay was last engaged, and the clock, in
-- nanoseconds.
pub record Dispatcher : Type 0 where
  pub last_sent_at : ℕ → Option ℕ
  pub clock : ℕ

abbrev pub wait_since : Option ℕ → ℤ → ℕ → ℕ
wait_since none gap clock = 0
wait_since (some last) gap clock = pos_part (gap -ℤ (pos clock -ℤ pos last))

-- The time after the gap since the machine's last pulse has been waited out.
pub wait_for_gap : Dispatcher → ℕ → Action ℕ
wait_for_gap s machine = do
  setting ← caught get_relay_pulse_gap_ms
  let gap = to_int64 (or_default (pos 750) setting *ℤ pos 1_000_000)
  pure (s.clock + wait_since (s.last_sent_at machine) gap s.clock)

abbrev pub record_attempt : ℕ → ℕ → (ℕ → Option ℕ) → ℕ → Option ℕ
record_attempt machine clock last m = if m == machine then some clock else last m

abbrev pub conclude : ℤ → Pulse → ℕ → Result (Unit {0}) → Action (Unit {0})
conclude unrepresentable p clock (ok _) = mark_sent p.id (clock / second)
conclude unrepresentable p clock (err e) = do
  setting ← caught get_relay_max_attempts
  if leb_ℤ (or_default (pos 5) setting) (pos (p.attempts + 1))
      then mark_failed_and_refund p (p.attempts + 1) e (clock / second)
      else mark_pending_retry unrepresentable p.id (p.attempts + 1) e clock

module _ (answers : String → ℕ → World → Bool) (took : World → ℕ) (unrepresentable : ℤ) where
  -- One call of the board that the machine is bound to, if there is one.
  pub fire : ℕ → Action (Unit {0})
  fire machine = do
    (base_url, relay_number) ← resolve_binding machine
    λ w. (if answers base_url relay_number w then ok tt else err pulse_failed, w)

  -- A failure to record the outcome is logged, and the dispatcher goes on.
  pub process_pulse : Dispatcher → Pulse → Action Dispatcher
  process_pulse s p = do
    start ← wait_for_gap s p.machine_id
    answer ← caught (fire p.machine_id)
    λ w.
        let end = start + took w in
        (caught (conclude unrepresentable p end answer) >>= λ _.
        pure
          (record { last_sent_at = record_attempt p.machine_id end s.last_sent_at; clock = end }))
          w

  pub process_all : Dispatcher → List Pulse → Action Dispatcher
  process_all s [] = pure s
  process_all s (p ∷ ps) = do s' ← process_pulse s p; process_all s' ps

  pub dispatch_once : Dispatcher → Action Dispatcher
  dispatch_once s = do pulses ← fetch_pending_pulses (s.clock / second); process_all s pulses

  -- The pulse of the admin's test button, past the queue.
  pub test_fire : ℕ → Action (Unit {0})
  test_fire machine = fire machine
