-- ===== src/Chain.antt =====
-- internal/chain: the watcher polls the node for payments and passes them on; cmd/dogecade/main.go
-- runs the loop that takes them. The node's answers and Go's float64 are parameters.
pub mod Run
pub mod Delivery
pub mod Account
pub mod NoLoss
pub mod Reached
pub mod Evolution
pub mod Poll
use dogecade.Common.{
  Bool, List, Option, String, [], false, if◌then◌else◌, length, ltb, negsuc, none, not, pos, some,
  str_eq, ℕ, ℤ, ◌++◌, ◌==◌, ◌∷◌,
}
use dogecade.Store.{Action, Result, World, err, ok, pure, ◌>>=◌, ◌>>◌}
use dogecade.Settings.Decimal.{is_empty}
use dogecade.Settings.{get_chain_cursor, set_chain_cursor}
use dogecade.Deposits.{CreditHook, Event, handle_event, handle_reorg}

-- Go's arithmetic on float64, as far as an amount needs it; `one_e8` is the constant 1e8.
pub record Float64 : Type 1 where
  pub Carrier : Type 0
  pub times : Carrier → Carrier → Carrier
  pub round : Carrier → Carrier
  pub int64 : Carrier → ℤ
  pub one_e8 : Carrier

-- A line of listsinceblock.
pub record TransactionInfo (F : Type 0) : Type 0 where
  pub address : String
  pub category : String
  pub amount : F
  pub confirmations : ℤ
  pub txid : String
  pub vout : ℕ
  pub block_height : ℤ
  pub block_index : ℤ

pub record ListSinceBlockResult (F : Type 0) : Type 0 where
  pub transactions : List (TransactionInfo F)
  pub removed : List (TransactionInfo F)
  pub last_block : List ℕ

abbrev pub is_zero : ℤ → Bool
is_zero (pos n) = n == 0
is_zero (negsuc n) = false

-- The height, or for older versions of the node the index within the block.
abbrev pub block_height_of : ℤ → ℤ → ℤ
block_height_of above index =
    if not (is_zero above) then above else if not (is_zero index) then index else pos 0

module _ (go : Float64) where
  abbrev pub amount_to_koinu : go.Carrier → ℤ
  amount_to_koinu doge = go.int64 (go.round (go.times doge go.one_e8))

  -- Only what is received is an event.
  abbrev pub tx_to_payment_event : TransactionInfo go.Carrier → Option Event
  tx_to_payment_event tx =
      if str_eq tx.category "receive"
      then some (record {
        address = tx.address;
        txid = tx.txid;
        vout = tx.vout;
        amount_koinu = amount_to_koinu tx.amount;
        confirmations = tx.confirmations;
        block_height = block_height_of tx.block_height tx.block_index;
      })
      else none

-- What the node is asked for: the payments since a block, and the block at a height.
pub record Backend (F : Type 0) : Type 0 where
  pub list_since_block : List ℕ → Result (ListSinceBlockResult F)
  pub get_block_hash : ℤ → Result (List ℕ)

abbrev pub answered : {A : Type 0} → Result A → Action A
answered r w = (r, w)

-- A poll up to the answer of the node.
unfoldable pub begin_poll : {F : Type 0} → Backend F → Action (ListSinceBlockResult F)
begin_poll backend = do cursor ← get_chain_cursor; answered (backend.list_since_block cursor)

-- The end of a poll, when everything has been sent.
unfoldable pub save_cursor : List ℕ → Action (Unit {0})
save_cursor last_block = if is_empty last_block then pure tt else set_chain_cursor last_block

-- `Rescan`, up to the poll that it asks for; without a node it does nothing.
pub rescan : {F : Type 0} → Option (Backend F) → ℤ → Action (Unit {0})
rescan none from_height = pure tt
rescan (some backend) from_height = do
  block_hash ← answered (backend.get_block_hash from_height)
  set_chain_cursor block_hash

-- Where the watcher's loop stands: waiting for the ticker, in a poll with what is left to send on
-- either channel, or stopped by the cancellation of its context.
pub data Watcher (F : Type 0) : Type 0 where
  idle : Watcher F
  sending : List (TransactionInfo F) → ListSinceBlockResult F → Watcher F
  sending_removed : List (TransactionInfo F) → List ℕ → Watcher F
  stopped : Watcher F → Watcher F

-- The watcher and its consumer, with the buffers of the two channels between them. The last three
-- fields keep what has happened: the answers of the node and the events taken from each channel.
pub record Pipeline (F : Type 0) : Type 0 where
  pub world : World
  pub watcher : Watcher F
  pub notify_ch : List Event
  pub removed_ch : List Event
  pub polls : List (ListSinceBlockResult F)
  pub handled : List Event
  pub undone : List Event

-- The size of either buffer.
abbrev pub channel_capacity : ℕ
channel_capacity = 10

abbrev pub has_room : List Event → Bool
has_room ch = ltb (length ch) channel_capacity

module _ (go : Float64) where
  abbrev F : Type 0
  F = go.Carrier

  abbrev pub began : Result (ListSinceBlockResult F) × World → Pipeline F → Pipeline F
  began (ok l, w) s = record s {
    world = w;
    watcher = sending l.transactions l;
    polls = s.polls ++ l ∷ [];
  }
  began (err e, w) s = record s { world = w }

  -- A send waits, the loop standing where it is, while the buffer is full.
  abbrev pub send :
      Option Event → List (TransactionInfo F) → ListSinceBlockResult F → Pipeline F → Pipeline F
  send none txs l s = record s { watcher = sending txs l }
  send (some e) txs l s =
      if has_room s.notify_ch
      then record s { watcher = sending txs l; notify_ch = s.notify_ch ++ e ∷ [] }
      else s

  abbrev pub send_removed :
      Option Event → List (TransactionInfo F) → List ℕ → Pipeline F → Pipeline F
  send_removed none txs last s = record s { watcher = sending_removed txs last }
  send_removed (some e) txs last s =
      if has_room s.removed_ch
      then record s { watcher = sending_removed txs last; removed_ch = s.removed_ch ++ e ∷ [] }
      else s

  abbrev pub watch_from : Backend F → Watcher F → Pipeline F → Pipeline F
  watch_from backend idle s = began (begin_poll backend s.world) s
  watch_from backend (sending [] l) s = record s {
    watcher = sending_removed l.removed l.last_block;
  }
  watch_from backend (sending (tx ∷ txs) l) s = send (tx_to_payment_event go tx) txs l s
  watch_from backend (sending_removed [] last) s = record s {
    world = (save_cursor last s.world).1;
    watcher = idle;
  }
  watch_from backend (sending_removed (tx ∷ txs) last) s =
      send_removed (tx_to_payment_event go tx) txs last s
  watch_from backend (stopped at) s = s

  -- One step of the watcher.
  abbrev pub watch : Backend F → Pipeline F → Pipeline F
  watch backend s = watch_from backend s.watcher s

-- One round of the consumer, for either channel; an error is only logged.
abbrev pub take_event : {F : Type 0} → CreditHook → ℕ → ℕ → List Event → Pipeline F → Pipeline F
take_event credit now clock [] s = s
take_event credit now clock (e ∷ es) s = record s {
  world = (handle_event credit e now clock s.world).1;
  notify_ch = es;
  handled = s.handled ++ e ∷ [];
}

abbrev pub take_removed : {F : Type 0} → ℕ → List Event → Pipeline F → Pipeline F
take_removed now [] s = s
take_removed now (e ∷ es) s = record s {
  world = (handle_reorg e.txid e.vout now s.world).1;
  removed_ch = es;
  undone = s.undone ++ e ∷ [];
}
