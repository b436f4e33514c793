-- ===== src/Chain/Delivery.antt =====
-- Nothing that the node has listed is dropped on its way to the consumer, and the cursor does not
-- run ahead of what has been sent.
use dogecade.Common.{
  List, Option, [], ap, length, none, refl, some, sym, ℕ, ◌++◌, ◌∙◌, ◌∷◌, ◌≡◌, ◌≤◌, ◌⊎◌,
}
use dogecade.Deposits.{Event}
use dogecade.Chain.{
  Float64, ListSinceBlockResult, Pipeline, TransactionInfo, Watcher, channel_capacity, idle,
  sending, sending_removed, stopped, tx_to_payment_event,
}
use dogecade.Chain.Run.{cursor_in}
use mathlib.Core.List.{append_assoc}

module _ (go : Float64) where
  abbrev Listing : Type 0
  Listing = ListSinceBlockResult go.Carrier

  abbrev pub received : Option Event → List Event → List Event
  received none es = es
  received (some e) es = e ∷ es

  -- The events of lines, in their order.
  abbrev pub events : List (TransactionInfo go.Carrier) → List Event
  events [] = []
  events (tx ∷ txs) = received (tx_to_payment_event go tx) (events txs)

  -- The events of all answers of the node.
  abbrev pub listed : List Listing → List Event
  listed [] = []
  listed (l ∷ ls) = events l.transactions ++ listed ls

  abbrev pub listed_removed : List Listing → List Event
  listed_removed [] = []
  listed_removed (l ∷ ls) = events l.removed ++ listed_removed ls

  -- What the loop has still to send on either channel.
  abbrev pub unsent : Watcher go.Carrier → List (TransactionInfo go.Carrier)
  unsent idle = []
  unsent (sending txs l) = txs
  unsent (sending_removed txs last) = []
  unsent (stopped at) = unsent at

  abbrev pub unsent_removed : Watcher go.Carrier → List (TransactionInfo go.Carrier)
  unsent_removed idle = []
  unsent_removed (sending txs l) = l.removed
  unsent_removed (sending_removed txs last) = txs
  unsent_removed (stopped at) = unsent_removed at

  -- The poll that the loop is in is the latest.
  abbrev pub IsLatest : Watcher go.Carrier → List Listing → Type 0
  IsLatest idle polls = Unit
  IsLatest (sending txs l) polls = (before : List Listing) × (polls ≡ before ++ l ∷ [])
  IsLatest (sending_removed txs last) polls =
      (before : List Listing) × (l : Listing) × (polls ≡ before ++ l ∷ []) × (l.last_block ≡ last)
  IsLatest (stopped at) polls = IsLatest at polls

  abbrev pub sent : Pipeline go.Carrier → List Event
  sent s = s.handled ++ s.notify_ch

  abbrev pub sent_removed : Pipeline go.Carrier → List Event
  sent_removed s = s.undone ++ s.removed_ch

  -- The cursor is where it was, or at the end of an answer all of which, and of those before it,
  -- has been sent.
  abbrev pub IsBehind : List ℕ → Pipeline go.Carrier → Type 0
  IsBehind cursor s =
      (cursor_in s.world.db ≡ cursor)
      ⊎ ((before : List Listing) × (l : Listing) × (later : List Listing) × (rest : List Event)
          × (rest_removed : List Event) × (s.polls ≡ before ++ l ∷ later)
          × (cursor_in s.world.db ≡ l.last_block)
          × (sent s ≡ listed (before ++ l ∷ []) ++ rest)
          × (sent_removed s ≡ listed_removed (before ++ l ∷ []) ++ rest_removed))

  -- What is listed has been sent or is still to be sent, in its order, where the loop stands at
  -- `at`.
  abbrev pub IsAccounted : Watcher go.Carrier → Pipeline go.Carrier → Type 0
  IsAccounted at s =
      (listed s.polls ≡ sent s ++ events (unsent at))
      × (listed_removed s.polls ≡ sent_removed s ++ events (unsent_removed at))
      × IsLatest at s.polls

  pub record Delivered (cursor : List ℕ) (s : Pipeline go.Carrier) : Type 0 where
    pub accounted : IsAccounted s.watcher s
    pub behind : IsBehind cursor s
    pub fits : length s.notify_ch ≤ channel_capacity
    pub removed_fits : length s.removed_ch ≤ channel_capacity

  pub listed-append : (ls ks : List Listing) → listed (ls ++ ks) ≡ listed ls ++ listed ks
  listed-append [] ks = refl
  listed-append (l ∷ ls) ks =
      ap (λ es. events l.transactions ++ es) (listed-append ls ks)
      ∙ sym (append_assoc (events l.transactions) (listed ls) (listed ks))

  pub listed_removed-append :
      (ls ks : List Listing) → listed_removed (ls ++ ks) ≡ listed_removed ls ++ listed_removed ks
  listed_removed-append [] ks = refl
  listed_removed-append (l ∷ ls) ks =
      ap (λ es. events l.removed ++ es) (listed_removed-append ls ks)
      ∙ sym (append_assoc (events l.removed) (listed_removed ls) (listed_removed ks))
