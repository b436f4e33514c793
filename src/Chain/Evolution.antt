-- ===== src/Chain/Evolution.antt =====
-- What becomes of the deposits while watcher and consumer run.
use dogecade.Common.{
  Bool-cases, List, Option, [], ap, inl, inr, none, refl, some, subst, sym, true, ℕ, ◌∙◌, ◌∷◌, ◌≡◌,
}
use dogecade.Store.{Change, Db, Moves, Result, World, err, ok}
use dogecade.Settings.Decimal.{is_empty}
use dogecade.Settings.{set_chain_cursor}
use dogecade.Settings.RoundTrip.{set_chain_cursor_lem}
use dogecade.DirectPay.{direct_pay_aware_credit_hook}
use dogecade.Deposits.{CreditHook, Event}
use dogecade.Deposits.StateMachine.{Evolves, Evolves-refl, Evolves-trans, distinct_ids}
use dogecade.Deposits.Lawful.{IsHarmless}
use dogecade.Deposits.Events.{handle_event-lawful, handle_reorg-lawful}
use dogecade.Deposits.Hook.{direct_pay_aware_credit_hook-IsHarmless}
use dogecade.Chain.{
  Backend, Float64, ListSinceBlockResult, Pipeline, TransactionInfo, Watcher, began, begin_poll,
  has_room, idle, save_cursor, send, send_removed, sending, sending_removed, stopped, take_event,
  take_removed, tx_to_payment_event, watch_from,
}
use dogecade.Chain.Run.{Run, Step, cancels, elsewhere, handles, here, more, undoes, watches}
use dogecade.Chain.Reached.{begin_poll-IsReadOnly}

-- The deposits follow each other, whatever happens to the settings.
abbrev followed : Change
followed = record {
  Allows = λ d d'.
      distinct_ids d.deposits ≡ true
      → (distinct_ids d'.deposits ≡ true) × Evolves d.deposits d'.deposits;
  stays = λ d h. (h, Evolves-refl d.deposits);
  joins = λ a b c h g k.
      let first = h k in
      let second = g first.0 in
      (second.0, Evolves-trans a.deposits b.deposits c.deposits first.1 second.1);
}

same_deposits : (d d' : Db) → d'.deposits ≡ d.deposits → followed.Allows d d'
same_deposits d d' e k = (
  ap distinct_ids e ∙ k,
  subst (λ rows. Evolves d.deposits rows) (sym e) (Evolves-refl d.deposits),
)

began-followed :
    (go : Float64) (r : Result (ListSinceBlockResult go.Carrier) × World) (s : Pipeline go.Carrier)
    → r.1.db ≡ s.world.db
    → followed.Allows s.world.db (began go r s).world.db
began-followed go (ok l, w) s same = same_deposits s.world.db w.db (ap (λ d. d.deposits) same)
began-followed go (err e, w) s same = same_deposits s.world.db w.db (ap (λ d. d.deposits) same)

save_cursor-followed : (last : List ℕ) → Moves followed (save_cursor last)
unfolding save_cursor
save_cursor-followed last w = elim (Bool-cases (is_empty last)) [
  | inl nothing ↦ rw nothing (followed.stays w.db)
  | inr hash ↦ rw hash (
      same_deposits w.db (set_chain_cursor last w).1.db (elim (set_chain_cursor_lem last w) [
        | inl kept ↦ ap (λ d. d.deposits) kept
        | inr set ↦ ap (λ d. d.deposits) set
      ]))
]

module _ (go : Float64) where
  abbrev P : Type 0
  P = Pipeline go.Carrier

  send-world :
      (o : Option Event) (txs : List (TransactionInfo go.Carrier))
      (l : ListSinceBlockResult go.Carrier) (s : P)
      → (send go o txs l s).world ≡ s.world
  send-world none txs l s = refl
  send-world (some e) txs l s = elim (Bool-cases (has_room s.notify_ch)) [
    | inl room ↦ rw room refl
    | inr full ↦ rw full refl
  ]

  send_removed-world :
      (o : Option Event) (txs : List (TransactionInfo go.Carrier)) (last : List ℕ) (s : P)
      → (send_removed go o txs last s).world ≡ s.world
  send_removed-world none txs last s = refl
  send_removed-world (some e) txs last s = elim (Bool-cases (has_room s.removed_ch)) [
    | inl room ↦ rw room refl
    | inr full ↦ rw full refl
  ]

  unmoved : (s t : P) → t.world ≡ s.world → followed.Allows s.world.db t.world.db
  unmoved s t e = same_deposits s.world.db t.world.db (ap (λ w. w.db.deposits) e)

  watch-followed :
      (backend : Backend go.Carrier) (at : Watcher go.Carrier) (s : P)
      → followed.Allows s.world.db (watch_from go backend at s).world.db
  watch-followed backend idle s =
      began-followed go (begin_poll backend s.world) s (begin_poll-IsReadOnly backend s.world)
  watch-followed backend (sending [] l) s = followed.stays s.world.db
  watch-followed backend (sending (tx ∷ txs) l) s =
      unmoved s (send go (tx_to_payment_event go tx) txs l s) (send-world _ txs l s)
  watch-followed backend (sending_removed [] last) s = save_cursor-followed last s.world
  watch-followed backend (sending_removed (tx ∷ txs) last) s =
      unmoved s (send_removed go (tx_to_payment_event go tx) txs last s)
        (send_removed-world _ txs last s)
  watch-followed backend (stopped at) s = followed.stays s.world.db

  take_event-followed :
      (credit : CreditHook) (now clock : ℕ) (ch : List Event) (s : P)
      → IsHarmless credit
      → followed.Allows s.world.db (take_event credit now clock ch s).world.db
  take_event-followed credit now clock [] s safe = followed.stays s.world.db
  take_event-followed credit now clock (e ∷ es) s safe =
      (handle_event-lawful credit safe e now clock s.world).1

  take_removed-followed :
      (now : ℕ) (ch : List Event) (s : P)
      → followed.Allows s.world.db (take_removed now ch s).world.db
  take_removed-followed now [] s = followed.stays s.world.db
  take_removed-followed now (e ∷ es) s = (handle_reorg-lawful e.txid e.vout now s.world).1

  Step-followed :
      (credit : CreditHook) {s t : P}
      → IsHarmless credit
      → Step go credit s t
      → followed.Allows s.world.db t.world.db
  Step-followed credit safe (watches backend s) = watch-followed backend s.watcher s
  Step-followed credit safe (handles now clock s) =
      take_event-followed credit now clock s.notify_ch s safe
  Step-followed credit safe (undoes now s) = take_removed-followed now s.removed_ch s
  Step-followed credit safe (cancels s) = followed.stays s.world.db
  Step-followed credit safe (elsewhere w s other) = same_deposits s.world.db w.db other.0

  Run-followed :
      (credit : CreditHook) {s t : P}
      → IsHarmless credit
      → Run go credit s t
      → followed.Allows s.world.db t.world.db
  Run-followed credit {s} {t} safe here = followed.stays s.world.db
  Run-followed credit {s} {t} safe (more {t = m} r step) =
      followed.joins s.world.db m.world.db t.world.db (Run-followed credit safe r)
        (Step-followed credit safe step)

-- From any state in which the deposits have distinct numbers, whatever the order of the steps of
-- watcher and consumer with the server's hook, and whichever statements fail: the numbers stay
-- distinct, no deposit is removed, none changes its number, address, output, amount or time of
-- creation, and each moves only along its states: from seen on, from confirmed to credited or
-- orphaned, and from those two nowhere.
pub Run-Evolves :
    (go : Float64) (s t : Pipeline go.Carrier)
    → distinct_ids s.world.db.deposits ≡ true
    → Run go direct_pay_aware_credit_hook s t
    → (distinct_ids t.world.db.deposits ≡ true) × Evolves s.world.db.deposits t.world.db.deposits
Run-Evolves go s t distinct r =
    Run-followed go direct_pay_aware_credit_hook direct_pay_aware_credit_hook-IsHarmless r distinct
