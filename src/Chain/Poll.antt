-- ===== src/Chain/Poll.antt =====
-- A poll of a node that answers comes to its end.
use dogecade.Common.{
  Bool-cases, List, Option, [], ap, arith, if◌then◌else◌, inl, inr, length, length-append, none,
  refl, some, subst, suc, sym, true, zero, ℕ, ◌++◌, ◌+◌, ◌∙◌, ◌∷◌, ◌≡◌, ◌≤◌,
}
use dogecade.Store.{Db, World, calm, ok, statements}
use dogecade.Settings.Decimal.{is_empty}
use dogecade.Settings.{key_chain_cursor, upsert}
use dogecade.Settings.RoundTrip.{get_chain_cursor-calm, set_chain_cursor-calm}
use dogecade.Deposits.{Event}
use dogecade.Chain.{
  Backend, Float64, ListSinceBlockResult, Pipeline, TransactionInfo, began, begin_poll,
  channel_capacity, has_room, idle, save_cursor, send, send_removed, sending, sending_removed,
  tx_to_payment_event, watch,
}
use dogecade.Chain.Run.{cursor_in, start}
use dogecade.Chain.Delivery.{events, received}
use dogecade.Chain.NoLoss.{move_over}
use mathlib.Core.List.{append-nil}

module _ (go : Float64) (backend : Backend go.Carrier) where
  abbrev P : Type 0
  P = Pipeline go.Carrier

  -- So many steps of the watcher, with none of the consumer between them.
  abbrev pub rounds : ℕ → P → P
  rounds zero s = s
  rounds (suc n) s = rounds n (watch go backend s)

  rounds-add : (m n : ℕ) (s : P) → rounds (m + n) s ≡ rounds n (rounds m s)
  rounds-add zero n s = let e : zero + n ≡ n = omega arith in ap (λ k. rounds k s) e
  rounds-add (suc m) n s =
      let e : suc m + n ≡ suc (m + n) = omega arith in
      ap (λ k. rounds k s) e ∙ rounds-add m n (watch go backend s)

  room_left :
      (ch : List Event) (e : Event) (es : List Event)
      → length (ch ++ e ∷ es) ≤ channel_capacity
      → has_room ch ≡ true
  room_left ch e es h = ground (arith, length-append ch (e ∷ es))

  sends :
      (txs : List (TransactionInfo go.Carrier)) (l : ListSinceBlockResult go.Carrier) (s : P)
      → length (s.notify_ch ++ events go txs) ≤ channel_capacity
      → rounds (length txs) (record s { watcher = sending txs l })
        ≡ record s { watcher = sending [] l; notify_ch = s.notify_ch ++ events go txs }
  sends [] l s h =
      ap (λ ch. record s { watcher = sending [] l; notify_ch = ch }) (sym (append-nil s.notify_ch))
  sends (tx ∷ txs) l s h = step (tx_to_payment_event go tx) h (λ s. sends txs l s)
    where
      step :
          (o : Option Event)
          → length (s.notify_ch ++ received go o (events go txs)) ≤ channel_capacity
          → ((t : P)
              → length (t.notify_ch ++ events go txs) ≤ channel_capacity
              → rounds (length txs) (record t { watcher = sending txs l })
                ≡ record t { watcher = sending [] l; notify_ch = t.notify_ch ++ events go txs })
          → rounds (length txs) (send go o txs l (record s { watcher = sending (tx ∷ txs) l }))
            ≡ record s {
              watcher = sending [] l;
              notify_ch = s.notify_ch ++ received go o (events go txs);
            }
      step none h rest = rest s h
      step (some e) h rest =
          let over : s.notify_ch ++ e ∷ [] ++ events go txs ≡ s.notify_ch ++ e ∷ events go txs =
            move_over s.notify_ch e (events go txs) in
          rw (room_left s.notify_ch e (events go txs) h) (
            rest (record s { notify_ch = s.notify_ch ++ e ∷ [] })
              (subst (λ ch. length ch ≤ channel_capacity) (sym over) h)
            ∙ ap (λ ch. record s { watcher = sending [] l; notify_ch = ch }) over)

  sends_removed :
      (txs : List (TransactionInfo go.Carrier)) (last : List ℕ) (s : P)
      → length (s.removed_ch ++ events go txs) ≤ channel_capacity
      → rounds (length txs) (record s { watcher = sending_removed txs last })
        ≡ record s { watcher = sending_removed [] last; removed_ch = s.removed_ch ++ events go txs }
  sends_removed [] last s h =
      ap (λ ch. record s { watcher = sending_removed [] last; removed_ch = ch })
        (sym (append-nil s.removed_ch))
  sends_removed (tx ∷ txs) last s h =
      step (tx_to_payment_event go tx) h (λ s. sends_removed txs last s)
    where
      step :
          (o : Option Event)
          → length (s.removed_ch ++ received go o (events go txs)) ≤ channel_capacity
          → ((t : P)
              → length (t.removed_ch ++ events go txs) ≤ channel_capacity
              → rounds (length txs) (record t { watcher = sending_removed txs last }) ≡ record t {
                watcher = sending_removed [] last;
                removed_ch = t.removed_ch ++ events go txs;
              })
          → rounds
              (length txs)
              (send_removed go o txs last (record s { watcher = sending_removed (tx ∷ txs) last }))
            ≡ record s {
              watcher = sending_removed [] last;
              removed_ch = s.removed_ch ++ received go o (events go txs);
            }
      step none h rest = rest s h
      step (some e) h rest =
          let over : s.removed_ch ++ e ∷ [] ++ events go txs ≡ s.removed_ch ++ e ∷ events go txs =
            move_over s.removed_ch e (events go txs) in
          rw (room_left s.removed_ch e (events go txs) h) (
            rest (record s { removed_ch = s.removed_ch ++ e ∷ [] })
              (subst (λ ch. length ch ≤ channel_capacity) (sym over) h)
            ∙ ap (λ ch. record s { watcher = sending_removed [] last; removed_ch = ch }) over)

  -- The watcher at the end of a poll that began in `s` and was answered `l`.
  abbrev polled : ListSinceBlockResult go.Carrier → World → P → P
  polled l w s = record s {
    world = (save_cursor l.last_block w).1;
    watcher = idle;
    notify_ch = s.notify_ch ++ events go l.transactions;
    removed_ch = s.removed_ch ++ events go l.removed;
    polls = s.polls ++ l ∷ [];
  }

  polled_lem :
      (l : ListSinceBlockResult go.Carrier) (w : World) (s : P)
      → length (s.notify_ch ++ events go l.transactions) ≤ channel_capacity
      → length (s.removed_ch ++ events go l.removed) ≤ channel_capacity
      → rounds (length l.transactions + length l.removed + 2) (began go (ok l, w) s) ≡ polled l w s
  polled_lem l w s fits removed_fits =
      ap (λ k. rounds k (began go (ok l, w) s)) count
      ∙ rounds-add (length l.transactions) (suc (length l.removed + 1)) (began go (ok l, w) s)
      ∙ ap (rounds (suc (length l.removed + 1))) (sends l.transactions l s1 fits)
      ∙ rounds-add (length l.removed) 1
          (record s2 { watcher = sending_removed l.removed l.last_block })
      ∙ ap (rounds 1) (sends_removed l.removed l.last_block s2 removed_fits)
    where
      count :
          length l.transactions + length l.removed + 2
          ≡ length l.transactions + suc (length l.removed + 1)
      count = omega arith

      s1 : P
      s1 = record s { world = w; polls = s.polls ++ l ∷ [] }

      s2 : P
      s2 = record s1 { notify_ch = s.notify_ch ++ events go l.transactions }

-- The tables with the cursor at the end of the answer, if it names a block.
abbrev pub with_cursor : List ℕ → Db → Db
with_cursor last d =
    if is_empty last then d else record d { settings = upsert key_chain_cursor last d.settings }

save_cursor-with_cursor :
    (last : List ℕ) (d : Db) (n : ℕ) → (save_cursor last (calm d n)).1.db ≡ with_cursor last d
unfolding save_cursor
save_cursor-with_cursor last d n = elim (Bool-cases (is_empty last)) [
  | inl nothing ↦ rw nothing refl
  | inr hash ↦ rw hash (set_chain_cursor-calm last d n)
]

-- When no statement fails, the node answers, and the events of the answer fit into the empty
-- buffers, a poll ends within as many steps as the answer has lines and three more: the watcher is
-- idle again, each buffer holds the events of its list in their order, and the cursor is the
-- answer's last block, if it names one. The consumer need not move.
pub poll-completes :
    (go : Float64) (backend : Backend go.Carrier) (d : Db) (n : ℕ)
    (l : ListSinceBlockResult go.Carrier)
    → backend.list_since_block (cursor_in d) ≡ ok l
    → length (events go l.transactions) ≤ channel_capacity
    → length (events go l.removed) ≤ channel_capacity
    → let s : Pipeline go.Carrier =
        rounds go backend (length l.transactions + length l.removed + 3) (start (calm d n)) in
      (s.watcher ≡ idle)
      × (s.notify_ch ≡ events go l.transactions)
      × (s.removed_ch ≡ events go l.removed)
      × (s.world.db ≡ with_cursor l.last_block d)
unfolding begin_poll statements
poll-completes go backend d n l answer fits removed_fits =
    let s0 : Pipeline go.Carrier = start (calm d n) in
    let count : length l.transactions + length l.removed + 3
        ≡ suc (length l.transactions + length l.removed + 2) =
      omega arith in
    let first : watch go backend s0 ≡ began go (ok l, calm d (suc n)) s0 =
      rw (get_chain_cursor-calm d n) (rw answer refl) in
    let e : rounds go backend (length l.transactions + length l.removed + 3) s0
        ≡ polled go backend l (calm d (suc n)) s0 =
      ap (λ k. rounds go backend k s0) count
      ∙ ap (rounds go backend (length l.transactions + length l.removed + 2)) first
      ∙ polled_lem go backend l (calm d (suc n)) s0 fits removed_fits in
    (
      ap (λ s. s.watcher) e,
      ap (λ s. s.notify_ch) e,
      ap (λ s. s.removed_ch) e,
      ap (λ s. s.world.db) e ∙ save_cursor-with_cursor l.last_block d (suc n),
    )
