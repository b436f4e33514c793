-- ===== src/Relay/Dispatch.antt =====
-- What the tables hold after a pulse has been tried.
use dogecade.Common.{
  Bool-cases, Option, ap, arith, count_if, false, floor_div, holds, if◌then◌else◌, inl, inr,
  int_laws, leb_ℤ, ltb, none, pos, refl, some, true, update_if, ℕ, ℤ, ◌+ℤ◌, ◌+◌, ◌/◌, ◌∙◌, ◌≡◌, ◌⊎◌,
}
use dogecade.Store.{
  Action, Db, Ensures, Error, LedgerKind, Pulse, PulseSource, Result, World, caught, db_failure,
  direct_pay, dispatch_failed, err, map_Ensures, modify-Ensures, next, ok, relay_dispatch_failed,
  then_Ensures, token_redemption, weaken, ◌>>=◌,
}
use dogecade.Alerts.{is_open}
use dogecade.Alerts.Dedup.{
  Deduplicated, Deduplicated-alerts, insert_alert_if_not_exists-Deduplicated, raised,
}
use dogecade.Settings.{get_relay_max_attempts, key_relay_max_attempts}
use dogecade.Settings.RoundTrip.{get_relay_max_attempts_read, number_in}
use dogecade.Ledger.{balance_of, pulse_row}
use dogecade.Ledger.Balance.{Posted, refund-Posted}
use dogecade.Relay.{
  backoff_duration, conclude, mark_failed_and_refund, mark_pending_retry, mark_sent, or_default,
  pulse_has, refund_if_redeemed, second, set_failed, set_retry, set_sent, update_pulse,
}

-- The tokens that giving up a pulse returns to the user `u`: one to the user who redeemed it.
abbrev pub returned : PulseSource → Option ℕ → ℕ → ℤ
returned token_redemption owner u = if holds owner u then pos 1 else pos 0
returned _ owner u = pos 0

-- The pulse `p` has failed for good: its row says so, its token is returned, and an alert is open.
-- Only pulses, ledger and alerts have changed.
pub record GivenUp (p : Pulse) (attempt : ℕ) (e : Error) (d d' : Db) : Type 0 where
  pub failed_row : d'.pulses ≡ update_if (pulse_has p.id) (set_failed attempt e) d.pulses
  pub refunded : (u : ℕ) → balance_of u d' ≡ balance_of u d +ℤ returned p.source p.user_id u
  pub alerted : ltb 0 (count_if (is_open relay_dispatch_failed) d'.alerts) ≡ true
  pub rest : d' ≡ record d { pulses = d'.pulses; entries = d'.entries; alerts = d'.alerts }

abbrev Refunds : PulseSource → Option ℕ → Db → Db → Type 0
Refunds source owner d d' =
    ((u : ℕ) → balance_of u d' ≡ balance_of u d +ℤ returned source owner u)
    × (d' ≡ record d { entries = d'.entries })

nothing :
    (source : PulseSource) (owner : Option ℕ) (d : Db)
    → ((u : ℕ) → returned source owner u ≡ pos 0)
    → Refunds source owner d d
nothing source owner d h = (λ u. rw (h u) (grind int_laws), refl)

refund_if_redeemed-Refunds :
    (id attempt : ℕ) (e : Error) (now : ℕ) (source : PulseSource) (owner : Option ℕ) (w : World)
    → Ensures (λ _. Refunds source owner w.db) (refund_if_redeemed id attempt e now source owner w)
refund_if_redeemed-Refunds id attempt e now token_redemption (some user) w =
    map_Ensures (λ _. Refunds token_redemption (some user) w.db) P _ (λ _ d' h. (h.1, rw h.0))
      (weaken P w.db _ (refund-Posted user id (dispatch_failed attempt e) now w))
  where
    P : Unit {0} → Db → Type 0
    P =
        Posted (pulse_row LedgerKind.refund (pos 1) (some (dispatch_failed attempt e)) user id now)
          user (pos 1) w.db
refund_if_redeemed-Refunds id attempt e now token_redemption none w =
    nothing token_redemption none w.db (λ u. refl)
refund_if_redeemed-Refunds id attempt e now direct_pay owner w =
    nothing direct_pay owner w.db (λ u. refl)

-- Giving a pulse up, where it succeeds, returns one token to the user of a redeemed pulse and to
-- nobody else, marks the pulse failed, leaves an alert open, and changes no table but those three.
pub mark_failed_and_refund-GivenUp :
    (p : Pulse) (attempt : ℕ) (e : Error) (now : ℕ) (w : World)
    → Ensures (λ _. GivenUp p attempt e w.db) (mark_failed_and_refund p attempt e now w)
unfolding mark_failed_and_refund
mark_failed_and_refund-GivenUp p attempt e now w =
    then_Ensures Q Marked _ _ w (modify-Ensures Marked _ w refl) λ w1 marked.
      then_Ensures Q (Refunds p.source p.user_id w1.db) _ _ w1
        (refund_if_redeemed-Refunds p.id attempt e now p.source p.user_id w1)
        λ w2 refunded.
          map_Ensures Q (Deduplicated relay_dispatch_failed now w2.db) _
            (λ _ d' h.
              finish w2.db d' (rw marked at refunded) h.0
                (Deduplicated-alerts relay_dispatch_failed now w2.db d' h))
            (weaken (Deduplicated relay_dispatch_failed now w2.db) w2.db _
              (insert_alert_if_not_exists-Deduplicated relay_dispatch_failed now w2))
  where
    Q : Unit {0} → Db → Type 0
    Q _ = GivenUp p attempt e w.db

    Marked : Db → Type 0
    Marked d = d ≡ update_pulse p.id (set_failed attempt e) w.db

    finish :
        (d2 d3 : Db)
        → Refunds p.source p.user_id (update_pulse p.id (set_failed attempt e) w.db) d2
        → ltb 0 (count_if (is_open relay_dispatch_failed) d3.alerts) ≡ true
        → d3 ≡ record d2 { alerts = d3.alerts }
        → GivenUp p attempt e w.db d3
    finish d2 d3 r raised same = record {
      failed_row = ap (λ (d : Db). d.pulses) same ∙ ap (λ (d : Db). d.pulses) r.1;
      refunded = λ u. ap (λ (d : Db). balance_of u d) same ∙ r.0 u;
      alerted = raised;
      rest = ground arith;
    }

-- The limit on attempts in force: what the setting holds, or five where the text is no number or
-- the statement that reads it fails.
abbrev pub limit_in : World → ℤ
limit_in w =
    if w.fails w.count
    then pos 5
    else elim (number_in key_relay_max_attempts (pos 5) w.db) [ ok z ↦ z | err e ↦ pos 5 ]

-- The time in seconds, rounded down, at which the next attempt is due.
abbrev pub retry_at : ℤ → ℕ → ℕ → ℤ
retry_at unrepresentable attempt clock =
    floor_div (pos clock +ℤ backoff_duration unrepresentable attempt) second

-- A board's answer is on record: the pulse is sent; or it has been given up, with its number of
-- attempts at the limit; or it waits for the next attempt. A pulse that waits has no refund.
abbrev pub Concluded : ℤ → Pulse → ℕ → Result (Unit {0}) → World → Db → Type 0
Concluded unrepresentable p clock (ok _) w d' =
    d' ≡ update_pulse p.id (set_sent (clock / second)) w.db
Concluded unrepresentable p clock (err e) w d' =
    if leb_ℤ (limit_in w) (pos (p.attempts + 1))
    then GivenUp p (p.attempts + 1) e w.db d'
    else d'
      ≡ update_pulse p.id
          (set_retry (p.attempts + 1) e (retry_at unrepresentable (p.attempts + 1) clock)) w.db

-- The default that the dispatcher falls back on gives the limit in force.
or_default-limit_in :
    (w : World)
    → or_default
        (pos 5)
        (if w.fails w.count then err db_failure else number_in key_relay_max_attempts (pos 5) w.db)
      ≡ limit_in w
or_default-limit_in w = elim (Bool-cases (w.fails w.count)) [
  | inl down ↦ rw down refl
  | inr up ↦ rw up (either (number_in key_relay_max_attempts (pos 5) w.db))
]
  where
    either : (r : Result ℤ) → or_default (pos 5) r ≡ (elim r [ ok z ↦ z | err e ↦ pos 5 ])
    either (ok z) = refl
    either (err e) = refl

limit_read :
    {B : Type 0} (k : ℤ → Action B) (w : World)
    → (caught get_relay_max_attempts >>= λ r. k (or_default (pos 5) r)) w ≡ k (limit_in w) (next w)
unfolding caught ◌>>=◌
limit_read k w = rw (get_relay_max_attempts_read w, or_default-limit_in w) refl

-- Whatever the board answered, recording it, where that succeeds, marks the pulse sent, puts it off
-- or gives it up, by the number of attempts and the limit in force; only giving it up moves a token.
pub conclude-Concluded :
    (unrepresentable : ℤ) (p : Pulse) (clock : ℕ) (answer : Result (Unit {0})) (w : World)
    → Ensures
        (λ _. Concluded unrepresentable p clock answer w)
        (conclude unrepresentable p clock answer w)
unfolding mark_sent mark_pending_retry
conclude-Concluded unrepresentable p clock (ok a) w =
    modify-Ensures (λ d'. d' ≡ update_pulse p.id (set_sent (clock / second)) w.db) _ w refl
conclude-Concluded unrepresentable p clock (err e) w =
    rw (limit_read settle w) (settled (Bool-cases (leb_ℤ (limit_in w) (pos attempt))))
  where
    attempt : ℕ
    attempt = p.attempts + 1

    settle : ℤ → Action (Unit {0})
    settle most =
        if leb_ℤ most (pos attempt)
        then mark_failed_and_refund p attempt e (clock / second)
        else mark_pending_retry unrepresentable p.id attempt e clock

    settled :
        (leb_ℤ (limit_in w) (pos attempt) ≡ true) ⊎ (leb_ℤ (limit_in w) (pos attempt) ≡ false)
        → Ensures (λ _. Concluded unrepresentable p clock (err e) w) (settle (limit_in w) (next w))
    settled (inl spent) = rw spent (
        map_Ensures (λ _. Concluded unrepresentable p clock (err e) w)
          (λ _. GivenUp p attempt e w.db) _ (λ _ d' g. rw spent g)
          (mark_failed_and_refund-GivenUp p attempt e (clock / second) (next w)))
    settled (inr left) = rw left (
        modify-Ensures (λ d'. Concluded unrepresentable p clock (err e) w d') _ (next w)
          (rw left refl))
