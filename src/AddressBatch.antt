-- ===== src/AddressBatch.antt =====
-- internal/services/address_batch.go: the import of a batch of addresses. Parameters are the
-- validation of a text (keyring.ValidateAddress), the order in which Go ranges over a map, which
-- may differ from loop to loop, and the node, if there is one, which registers an address or fails.
pub mod Registered
pub mod Atomic
use dogecade.Common.{
  Bool, List, Option, String, [], any, false, holds, if◌then◌else◌, length, none, not, some, str_eq,
  true, update_if, ℕ, ◌&&◌, ◌++◌, ◌∷◌,
}
use dogecade.Store.{
  Action, Address, AddressState, Batch, Db, Purpose, Result, already_imported, atomically, caught,
  constraint_failed, duplicate_address, empty_batch, err, exec, invalid_address, invalid_purpose,
  machine_direct, modify, next_id, ok, or_raise, pure, query, raise_if, token_deposit, ◌>>=◌, ◌>>◌,
}

-- The map keeps each address once.
abbrev pub contains : String → List String → Bool
contains s = any (str_eq s)

abbrev pub purpose_of : String → Option Purpose
purpose_of s =
    if str_eq s "token_deposit"
    then some token_deposit
    else if str_eq s "machine_direct"
    then some machine_direct
    else none

abbrev pub batch_row : String → ℕ → ℕ → ℕ → Batch
batch_row note count now id = record {
  id = id;
  source_note = note;
  address_count = count;
  loaded_at = now;
}

abbrev pub pool_row : String → ℕ → Purpose → ℕ → Address
pool_row address batch purpose id = record {
  id = id;
  address = address;
  batch_id = some batch;
  state = AddressState.pool;
  purpose = purpose;
  user_id = none;
  machine_id = none;
  assigned_at = none;
  retired_at = none;
  node_registered_at = none;
  use_count = 0;
}

abbrev pub with_address : String → Address → Bool
with_address s a = str_eq a.address s

unfoldable pub insert_batch : String → ℕ → ℕ → Db → Result ℕ × Db
insert_batch note count now d =
    let id = next_id (λ (b : Batch). b.id) d.batches in
    (ok id, record d { batches = d.batches ++ batch_row note count now id ∷ [] })

-- The INSERT into addresses, whose address is UNIQUE.
unfoldable pub insert_address : ℕ → Purpose → String → Db → Result (Unit {0}) × Db
insert_address batch purpose s d =
    if any (with_address s) d.addresses then (err constraint_failed, d) else (
      ok tt,
      record d {
        addresses =
            d.addresses
            ++ pool_row s batch purpose (next_id (λ (a : Address). a.id) d.addresses) ∷ [];
      },
    )

-- The loop over the addresses of the batch, in the transaction.
pub insert_addresses : ℕ → Purpose → List String → Action (Unit {0})
insert_addresses batch purpose [] = pure tt
insert_addresses batch purpose (s ∷ rest) = do
  exec (insert_address batch purpose s)
  insert_addresses batch purpose rest

-- The second phase: none of the addresses is in the table.
pub check_new : List String → Action (Unit {0})
check_new [] = pure tt
check_new (s ∷ rest) = do
  exists ← query (λ d. any (with_address s) d.addresses)
  raise_if exists already_imported
  check_new rest

abbrev pub in_batch : String → ℕ → Address → Bool
in_batch s batch a = str_eq a.address s && holds a.batch_id batch

abbrev pub registered_at : ℕ → Address → Address
registered_at now a = record a { node_registered_at = some now }

abbrev pub mark_registered : String → ℕ → ℕ → Db → Db
mark_registered s batch now d = record d {
  addresses = update_if (in_batch s batch) (registered_at now) d.addresses;
}

-- The fourth phase: what the node does not take, or the table does not, is left for later.
pub register_all : (String → Bool) → ℕ → ℕ → List String → Action (Unit {0})
register_all takes batch now [] = pure tt
register_all takes batch now (s ∷ rest) = do
  _ ← (if takes s then caught (modify (mark_registered s batch now)) else pure (ok tt))
  register_all takes batch now rest

abbrev pub register_with : Option (String → Bool) → ℕ → ℕ → List String → Action (Unit {0})
register_with none batch now order = pure tt
register_with (some takes) batch now order = register_all takes batch now order

abbrev pub is_no_address : List String → Bool
is_no_address [] = true
is_no_address (s ∷ rest) = false

module _ (validate : String → Bool) where
  -- The first phase: every address is valid, and none is in the batch twice.
  pub check_valid : List String → List String → Action (Unit {0})
  check_valid known [] = pure tt
  check_valid known (s ∷ rest) = do
    raise_if (not (validate s)) invalid_address
    raise_if (contains s known) duplicate_address
    check_valid (s ∷ known) rest

  module _ (range : ℕ → List String → List String) where
    -- The three loops over the map are numbered.
    pub import_batch : String → List String → Option (String → Bool) → String → ℕ → Action ℕ
    import_batch note addrs node purpose now = do
      raise_if (is_no_address addrs) empty_batch
      p ← or_raise (purpose_of purpose) invalid_purpose
      check_valid [] addrs
      check_new (range 0 addrs)
      batch ← atomically do
        batch ← exec (insert_batch note (length addrs) now)
        insert_addresses batch p (range 1 addrs)
        pure batch
      register_with node batch now (range 2 addrs)
      pure batch
