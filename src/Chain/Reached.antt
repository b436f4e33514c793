-- ===== src/Chain/Reached.antt =====
-- What holds of every state that the watcher and its consumer reach.
use dogecade.Common.{
  List, [], ap, arith, inl, length, refl, subst, sym, ℕ, ◌++◌, ◌∙◌, ◌∷◌, ◌≡◌, ◌≤◌,
}
use dogecade.Store.{IsReadOnly, World, bind-Moves, no_change}
use dogecade.Settings.{get_chain_cursor, key_chain_cursor, text_of}
use dogecade.Settings.RoundTrip.{get_chain_cursor-IsReadOnly}
use dogecade.DirectPay.{direct_pay_aware_credit_hook}
use dogecade.Deposits.{CreditHook, Event}
use dogecade.Deposits.Lawful.{IsHarmless}
use dogecade.Deposits.Events.{handle_event-lawful, handle_reorg-lawful}
use dogecade.Deposits.Hook.{direct_pay_aware_credit_hook-IsHarmless}
use dogecade.Chain.{
  Backend, Float64, Pipeline, Watcher, begin_poll, channel_capacity, idle, sending, sending_removed,
  stopped, take_event, take_removed, tx_to_payment_event, watch_from,
}
use dogecade.Chain.Run.{
  Run, Step, cancels, cursor_in, elsewhere, handles, here, more, start, undoes, watches,
}
use dogecade.Chain.Delivery.{
  Delivered, IsAccounted, events, sent, sent_removed, unsent, unsent_removed,
}
use dogecade.Chain.Account.{Grows, began-Delivered, quiet, still_behind}
use dogecade.Chain.NoLoss.{move_over, saved-Delivered, send-Delivered, send_removed-Delivered}
use mathlib.Core.List.{}

pub begin_poll-IsReadOnly : {F : Type 0} (backend : Backend F) → IsReadOnly (begin_poll backend)
unfolding begin_poll
begin_poll-IsReadOnly backend =
    bind-Moves no_change get_chain_cursor _ get_chain_cursor-IsReadOnly (λ cursor w. refl)

shorter :
    (x : Event) (es : List Event)
    → length (x ∷ es) ≤ channel_capacity
    → length es ≤ channel_capacity
shorter x es h = omega arith

module _ (go : Float64) (cursor : List ℕ) where
  abbrev P : Type 0
  P = Pipeline go.Carrier

  watch-Delivered :
      (backend : Backend go.Carrier) (at : Watcher go.Carrier) (s : P)
      → s.watcher ≡ at
      → Delivered go cursor s
      → Delivered go cursor (watch_from go backend at s)
  watch-Delivered backend idle s e d =
      began-Delivered go cursor (begin_poll backend s.world) s e
        (begin_poll-IsReadOnly backend s.world) d
  watch-Delivered backend (sending [] l) s e d =
      let was : IsAccounted go (sending [] l) s = subst (λ x. IsAccounted go x s) e d.accounted in
      record {
        accounted = (was.0, was.1, (was.2.0, l, was.2.1, refl));
        behind =
            still_behind go cursor s (watch_from go backend (sending [] l) s)
              (quiet go s (watch_from go backend (sending [] l) s) refl refl refl refl) d.behind;
        fits = d.fits;
        removed_fits = d.removed_fits;
      }
  watch-Delivered backend (sending (tx ∷ txs) l) s e d =
      send-Delivered go cursor (tx_to_payment_event go tx) txs l s
        (subst (λ x. IsAccounted go x s) e d.accounted) d
  watch-Delivered backend (sending_removed [] last) s e d = saved-Delivered go cursor last s e d
  watch-Delivered backend (sending_removed (tx ∷ txs) last) s e d =
      send_removed-Delivered go cursor (tx_to_payment_event go tx) txs last s
        (subst (λ x. IsAccounted go x s) e d.accounted) d
  watch-Delivered backend (stopped at) s e d = d

  module _ (credit : CreditHook) (safe : IsHarmless credit) (now clock : ℕ) where
    take_event-Delivered :
        (ch : List Event) (s : P)
        → s.notify_ch ≡ ch
        → Delivered go cursor s
        → Delivered go cursor (take_event credit now clock ch s)
    take_event-Delivered [] s e d = d
    take_event-Delivered (x ∷ es) s e d = record {
      accounted = (
        d.accounted.0 ∙ ap (λ ys. ys ++ events go (unsent go s.watcher)) (sym same),
        d.accounted.1,
        d.accounted.2,
      );
      behind = still_behind go cursor s t grows d.behind;
      fits = shorter x es (subst (λ ch. length ch ≤ channel_capacity) e d.fits);
      removed_fits = d.removed_fits;
    }
      where
        t : P
        t = take_event credit now clock (x ∷ es) s

        same : sent go t ≡ sent go s
        same = move_over s.handled x es ∙ ap (λ ch. s.handled ++ ch) (sym e)

        grows : Grows go s t
        grows =
            quiet go s t
              (ap (text_of key_chain_cursor)
                (handle_event-lawful credit safe x now clock s.world).0)
              refl same refl

    take_removed-Delivered :
        (ch : List Event) (s : P)
        → s.removed_ch ≡ ch
        → Delivered go cursor s
        → Delivered go cursor (take_removed now ch s)
    take_removed-Delivered [] s e d = d
    take_removed-Delivered (x ∷ es) s e d = record {
      accounted = (
        d.accounted.0,
        d.accounted.1 ∙ ap (λ ys. ys ++ events go (unsent_removed go s.watcher)) (sym same),
        d.accounted.2,
      );
      behind = still_behind go cursor s t grows d.behind;
      fits = d.fits;
      removed_fits = shorter x es (subst (λ ch. length ch ≤ channel_capacity) e d.removed_fits);
    }
      where
        t : P
        t = take_removed now (x ∷ es) s

        same : sent_removed go t ≡ sent_removed go s
        same = move_over s.undone x es ∙ ap (λ ch. s.undone ++ ch) (sym e)

        grows : Grows go s t
        grows =
            quiet go s t
              (ap (text_of key_chain_cursor) (handle_reorg-lawful x.txid x.vout now s.world).0) refl
              refl same

  Step-Delivered :
      (credit : CreditHook) {s t : P}
      → IsHarmless credit
      → Step go credit s t
      → Delivered go cursor s
      → Delivered go cursor t
  Step-Delivered credit safe (watches backend s) d = watch-Delivered backend s.watcher s refl d
  Step-Delivered credit safe (handles now clock s) d =
      take_event-Delivered credit safe now clock s.notify_ch s refl d
  Step-Delivered credit safe (undoes now s) d =
      take_removed-Delivered credit safe now 0 s.removed_ch s refl d
  Step-Delivered credit safe (cancels s) d = record {
    accounted = d.accounted;
    behind = d.behind;
    fits = d.fits;
    removed_fits = d.removed_fits;
  }
  Step-Delivered credit safe (elsewhere w s other) d = record {
    accounted = d.accounted;
    behind =
        still_behind go cursor s (record s { world = w })
          (quiet go s (record s { world = w }) other.1 refl refl refl) d.behind;
    fits = d.fits;
    removed_fits = d.removed_fits;
  }

  Run-Delivered :
      (credit : CreditHook) {s t : P}
      → IsHarmless credit
      → Run go credit s t
      → Delivered go cursor s
      → Delivered go cursor t
  Run-Delivered credit safe here d = d
  Run-Delivered credit safe (more r step) d =
      Step-Delivered credit safe step (Run-Delivered credit safe r d)

-- Whatever the order of their steps, in every state that the watcher and its consumer reach from
-- the start with the server's hook: the events of all answers of the node, in their order, are
-- those taken from the two channels, those in their buffers and those of the poll under way; the
-- cursor in the tables is the one at the start, or the last block of an answer all of whose
-- events, and of the answers before it, have been sent; and no buffer holds more than ten.
pub start-Delivered :
    (go : Float64) (w : World) (s : Pipeline go.Carrier)
    → Run go direct_pay_aware_credit_hook (start w) s
    → Delivered go (cursor_in w.db) s
start-Delivered go w s r =
    Run-Delivered go (cursor_in w.db) direct_pay_aware_credit_hook
      direct_pay_aware_credit_hook-IsHarmless r
      (record {
        accounted = (refl, refl, tt);
        behind = inl refl;
        fits = omega arith;
        removed_fits = omega arith;
      })
