-- ===== src/Pool.antt =====
-- internal/services/pool.go: the pool of receive addresses, its assignment and its low-water mark.
-- The two partial UNIQUE indexes of addresses (0006_token_core.sql, 0011_direct_pay.sql) are
-- checked by every statement that writes the table.
pub mod Keys
pub mod Claim
pub mod WellFormed
pub mod Assign
use dogecade.Common.{
  Bool, List, Option, String, [], any, count_if, find, if◌then◌else◌, limit, ltb, ltb_ℤ, none, not,
  order_desc, pos, select, some, str_eq, true, update_if, ℕ, ℤ, ◌&&◌, ◌==◌, ◌||◌, ◌∷◌,
}
use dogecade.Store.{
  Action, Address, AddressState, Batch, Db, Purpose, Result, assigned, atomically, both,
  constraint_failed, err, exec, is_assigned, is_pool, is_retired, machine_direct, no_address, ok,
  or_raise, pool_empty, pool_low_urgent, pool_low_warn, pure, query, raise_if, retired,
  same_purpose, same_state, ◌>>=◌, ◌>>◌,
}
use dogecade.Alerts.{insert_alert_if_not_exists}
use dogecade.Settings.{get_pool_urgent_threshold, get_pool_warn_threshold}

-- Two rows that the indexes do not allow together.
abbrev pub clash : Address → Address → Bool
clash a b =
    is_assigned a.state
    && is_assigned b.state
    && same_purpose a.purpose b.purpose
    && (both a.user_id b.user_id
        || (both a.machine_id b.machine_id && same_purpose a.purpose machine_direct))

abbrev pub no_clash : List Address → Bool
no_clash [] = true
no_clash (a ∷ rows) = not (any (clash a) rows) && no_clash rows

-- `UPDATE addresses SET f WHERE p`, with the number of rows affected.
unfoldable pub update_addresses : (Address → Bool) → (Address → Address) → Db → Result ℕ × Db
update_addresses p f d =
    let rows = update_if p f d.addresses in
    if no_clash rows
    then (ok (count_if p d.addresses), record d { addresses = rows })
    else (err constraint_failed, d)

abbrev older : Address → Option Address → Option Address
older a none = some a
older a (some b) = if ltb a.id b.id then some a else some b

-- `SELECT ... WHERE p ORDER BY id ASC LIMIT 1`.
unfoldable pub oldest : (Address → Bool) → List Address → Option Address
oldest p [] = none
oldest p (a ∷ rows) = let best = oldest p rows in if p a then older a best else best

-- A row that may be claimed for `purpose`.
abbrev pub is_free : Purpose → Address → Bool
is_free purpose a = is_pool a.state && same_purpose a.purpose purpose

-- The guard of the UPDATEs that claim a row.
abbrev pub still_pooled : ℕ → Address → Bool
still_pooled id a = a.id == id && is_pool a.state

abbrev pub has_id : ℕ → Address → Bool
has_id id a = a.id == id

pub assign : Purpose → ℕ → Action (String × ℕ)
assign purpose now = atomically do
  found ← query (λ d. oldest (is_free purpose) d.addresses)
  row ← or_raise found pool_empty
  affected ← exec (
      update_addresses (still_pooled row.id)
        (λ a. record a { state = assigned; assigned_at = some now }))
  raise_if (affected == 0) pool_empty
  pure (row.address, row.id)

pub release : ℕ → Action (Unit {0})
release id = do
  affected ← exec (
      update_addresses (has_id id) (λ a. record a {
        state = AddressState.pool;
        user_id = none;
        machine_id = none;
        assigned_at = none;
      }))
  raise_if (affected == 0) no_address

pub retire : ℕ → ℕ → Action (Unit {0})
retire id now = do
  affected ←
      exec (update_addresses (has_id id) (λ a. record a { state = retired; retired_at = some now }))
  raise_if (affected == 0) no_address

-- The counts in the pool, assigned and retired. (The map of the code has no entry for a 0.)
unfoldable pub counts_by_state : Action (ℕ × ℕ × ℕ)
counts_by_state = query λ d. (
  count_if (λ (a : Address). is_pool a.state) d.addresses,
  count_if (λ (a : Address). is_assigned a.state) d.addresses,
  count_if (λ (a : Address). is_retired a.state) d.addresses,
)

-- 0 for an address that is not in the table.
abbrev pub id_of : Option Address → ℕ
id_of none = 0
id_of (some a) = a.id

unfoldable pub address_id_by_address : String → Action ℕ
address_id_by_address addr =
    query (λ d. id_of (find (λ (a : Address). str_eq a.address addr) d.addresses))

pub list_by_state : AddressState → ℤ → Action (List Address)
list_by_state state n = query λ d.
    limit n
      (order_desc (λ (a : Address). a.id) (select (λ a. same_state a.state state) d.addresses))

pub list_batches : Action (List Batch)
list_batches = query (λ d. order_desc (λ (b : Batch). b.id) d.batches)

pub check_low_water : ℕ → Action (Unit {0})
check_low_water now = do
  warn ← get_pool_warn_threshold
  urgent ← get_pool_urgent_threshold
  count ← query (λ d. count_if (λ (a : Address). is_pool a.state) d.addresses)
  if ltb_ℤ (pos count) urgent
      then insert_alert_if_not_exists pool_low_urgent now
      else if ltb_ℤ (pos count) warn
      then insert_alert_if_not_exists pool_low_warn now
      else pure tt
