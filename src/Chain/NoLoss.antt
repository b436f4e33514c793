-- ===== src/Chain/NoLoss.antt =====
-- Every step of the watcher keeps the account of what has been sent.
use dogecade.Common.{
  Bool-cases, List, Option, [], ap, arith, inl, inr, length, length-append, ltb→lt, none, refl,
  some, subst, sym, true, ℕ, ◌++◌, ◌∙◌, ◌∷◌, ◌≡◌, ◌≤◌,
}
use dogecade.Store.{World}
use dogecade.Settings.Decimal.{is_empty}
use dogecade.Settings.{key_chain_cursor, set_chain_cursor}
use dogecade.Settings.RoundTrip.{set_chain_cursor_lem, text_of-upsert}
use dogecade.Deposits.{Event}
use dogecade.Chain.{
  Float64, ListSinceBlockResult, Pipeline, TransactionInfo, channel_capacity, has_room, idle,
  save_cursor, send, send_removed, sending, sending_removed,
}
use dogecade.Chain.Run.{cursor_in}
use dogecade.Chain.Delivery.{
  Delivered, IsAccounted, IsLatest, events, listed, listed_removed, received, sent, sent_removed,
}
use dogecade.Chain.Account.{Grows, quiet, still_behind}
use mathlib.Core.List.{append_assoc, append-nil}

-- The same, with `e` on the other side of a bracket.
pub move_over : (xs : List Event) (e : Event) (ys : List Event) → xs ++ e ∷ [] ++ ys ≡ xs ++ e ∷ ys
move_over xs e ys = append_assoc xs (e ∷ []) ys

pushed_over :
    (a b : List Event) (e : Event) (ys : List Event) → a ++ (b ++ e ∷ []) ++ ys ≡ a ++ b ++ e ∷ ys
pushed_over a b e ys = ap (λ z. z ++ ys) (sym (append_assoc a b (e ∷ []))) ∙ move_over (a ++ b) e ys

module _ (go : Float64) (cursor : List ℕ) where
  abbrev P : Type 0
  P = Pipeline go.Carrier

  room_for :
      (ch : List Event) (e : Event) → has_room ch ≡ true → length (ch ++ e ∷ []) ≤ channel_capacity
  room_for ch e h = omega (arith, length-append ch (e ∷ []), ltb→lt (length ch) channel_capacity h)

  pub send-Delivered :
      (o : Option Event) (txs : List (TransactionInfo go.Carrier))
      (l : ListSinceBlockResult go.Carrier) (s : P)
      → (listed go s.polls ≡ sent go s ++ received go o (events go txs))
        × (listed_removed go s.polls ≡ sent_removed go s ++ events go l.removed)
        × IsLatest go (sending txs l) s.polls
      → Delivered go cursor s
      → Delivered go cursor (send go o txs l s)
  send-Delivered none txs l s acc d = record {
    accounted = acc;
    behind =
        still_behind go cursor s (send go none txs l s)
          (quiet go s (send go none txs l s) refl refl refl refl) d.behind;
    fits = d.fits;
    removed_fits = d.removed_fits;
  }
  send-Delivered (some e) txs l s acc d = elim (Bool-cases (has_room s.notify_ch)) [
    | inl room ↦ rw room (record {
      accounted = (acc.0 ∙ sym (pushed_over s.handled s.notify_ch e (events go txs)), acc.1, acc.2);
      behind = still_behind go cursor s pushed grows d.behind;
      fits = room_for s.notify_ch e room;
      removed_fits = d.removed_fits;
    })
    | inr full ↦ rw full d
  ]
    where
      pushed : P
      pushed = record s { watcher = sending txs l; notify_ch = s.notify_ch ++ e ∷ [] }

      grows : Grows go s pushed
      grows = record {
        same_cursor = refl;
        new_polls = [];
        polls_grow = sym (append-nil s.polls);
        new_events = e ∷ [];
        sent_grow = sym (append_assoc s.handled s.notify_ch (e ∷ []));
        new_removed = [];
        removed_grow = sym (append-nil (sent_removed go s));
      }

  pub send_removed-Delivered :
      (o : Option Event) (txs : List (TransactionInfo go.Carrier)) (last : List ℕ) (s : P)
      → (listed go s.polls ≡ sent go s ++ [])
        × (listed_removed go s.polls ≡ sent_removed go s ++ received go o (events go txs))
        × IsLatest go (sending_removed txs last) s.polls
      → Delivered go cursor s
      → Delivered go cursor (send_removed go o txs last s)
  send_removed-Delivered none txs last s acc d = record {
    accounted = acc;
    behind =
        still_behind go cursor s (send_removed go none txs last s)
          (quiet go s (send_removed go none txs last s) refl refl refl refl) d.behind;
    fits = d.fits;
    removed_fits = d.removed_fits;
  }
  send_removed-Delivered (some e) txs last s acc d = elim (Bool-cases (has_room s.removed_ch)) [
    | inl room ↦ rw room (record {
      accounted = (acc.0, acc.1 ∙ sym (pushed_over s.undone s.removed_ch e (events go txs)), acc.2);
      behind = still_behind go cursor s pushed grows d.behind;
      fits = d.fits;
      removed_fits = room_for s.removed_ch e room;
    })
    | inr full ↦ rw full d
  ]
    where
      pushed : P
      pushed = record s { watcher = sending_removed txs last; removed_ch = s.removed_ch ++ e ∷ [] }

      grows : Grows go s pushed
      grows = record {
        same_cursor = refl;
        new_polls = [];
        polls_grow = sym (append-nil s.polls);
        new_events = [];
        sent_grow = sym (append-nil (sent go s));
        new_removed = e ∷ [];
        removed_grow = sym (append_assoc s.undone s.removed_ch (e ∷ []));
      }

  -- The cursor is saved when all has been sent.
  pub saved-Delivered :
      (last : List ℕ) (s : P)
      → s.watcher ≡ sending_removed [] last
      → Delivered go cursor s
      → Delivered go cursor (record s { world = (save_cursor last s.world).1; watcher = idle })
  unfolding save_cursor
  saved-Delivered last s at d = elim (Bool-cases (is_empty last)) [
    | inl nothing ↦ rw nothing (left s.world refl)
    | inr hash ↦ rw hash (elim (set_chain_cursor_lem last s.world) [
      | inl kept ↦ left (set_chain_cursor last s.world).1 (ap cursor_in kept)
      | inr set ↦ record {
        accounted = (was.0, was.1, tt);
        behind = inr (
          was.2.0,
          was.2.1,
          [],
          [],
          [],
          was.2.2,
          ap cursor_in set ∙ text_of-upsert key_chain_cursor last s.world.db.settings ∙ sym was.2.3,
          sym (append-nil (sent go s))
              ∙ sym was.0
              ∙ ap (listed go) was.2.2
              ∙ sym (append-nil (listed go (was.2.0 ++ was.2.1 ∷ []))),
          sym (append-nil (sent_removed go s))
              ∙ sym was.1
              ∙ ap (listed_removed go) was.2.2
              ∙ sym (append-nil (listed_removed go (was.2.0 ++ was.2.1 ∷ []))),
        );
        fits = d.fits;
        removed_fits = d.removed_fits;
      }
    ])
  ]
    where
      was : IsAccounted go (sending_removed [] last) s
      was = subst (λ x. IsAccounted go x s) at d.accounted

      left :
          (w : World)
          → cursor_in w.db ≡ cursor_in s.world.db
          → Delivered go cursor (record s { world = w; watcher = idle })
      left w same = record {
        accounted = (was.0, was.1, tt);
        behind =
            still_behind go cursor s (record s { world = w; watcher = idle })
              (quiet go s (record s { world = w; watcher = idle }) same refl refl refl) d.behind;
        fits = d.fits;
        removed_fits = d.removed_fits;
      }
