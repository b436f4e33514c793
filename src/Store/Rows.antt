-- ===== src/Store/Rows.antt =====
-- The rows of the tables (internal/store/migrations/0001 to 0011), with the CHECK columns as data
-- types and NULL as `none`. Times are seconds since 1970: the code stores RFC 3339 text in UTC,
-- which sorts as the times do.
use dogecade.Common.{
  Bool, List, Option, String, [], false, max, none, some, suc, true, ℕ, ℤ, ◌&&◌, ◌+◌, ◌==◌, ◌||◌,
  ◌∷◌,
}

pub data AddressState : Type 0 where
  pool assigned retired : AddressState

pub data Purpose : Type 0 where
  token_deposit machine_direct : Purpose

pub record Address : Type 0 where
  pub id : ℕ
  pub address : String
  pub batch_id : Option ℕ
  pub state : AddressState
  pub purpose : Purpose
  pub user_id : Option ℕ
  pub machine_id : Option ℕ
  pub assigned_at : Option ℕ
  pub retired_at : Option ℕ
  pub node_registered_at : Option ℕ
  pub use_count : ℕ

pub data DepositState : Type 0 where
  seen confirmed credited orphaned : DepositState

pub record Deposit : Type 0 where
  pub id : ℕ
  pub address_id : ℕ
  pub txid : String
  pub vout : ℕ
  pub amount_koinu : ℤ
  pub confirmations : ℤ
  pub block_height : Option ℤ
  pub state : DepositState
  pub credited_at : Option ℕ
  pub crediting_claimed_at : Option ℕ
  pub created_at : ℕ
  pub remainder_koinu : Option ℤ

pub record User : Type 0 where
  pub id : ℕ
  pub subject_hash : String
  pub display_name : String
  pub is_admin : Bool

pub record Machine : Type 0 where
  pub id : ℕ
  pub slug : String
  pub name : String
  pub direct_pay_enabled : Bool
  pub direct_play_price_koinu : Option ℤ
  pub is_active : Bool

-- What a service answers when it fails. `db_failure` is any error of the database itself.
pub data Error : Type 0 where
  db_failure constraint_failed no_rows : Error
  pool_empty no_address insufficient_balance machine_not_found machine_not_active : Error
  slug_taken : Error
  bad_tokens note_required bad_setting bad_price no_alert : Error
  no_binding pulse_failed : Error
  cannot_merge_same_user board_name_taken binding_conflict : Error
  empty_batch invalid_purpose invalid_address duplicate_address already_imported : Error

pub data PulseSource : Type 0 where
  token_redemption direct_pay : PulseSource

pub data PulseState : Type 0 where
  pending sent failed : PulseState

pub record Pulse : Type 0 where
  pub id : ℕ
  pub machine_id : ℕ
  pub user_id : Option ℕ
  pub source : PulseSource
  pub state : PulseState
  pub attempts : ℕ
  pub last_error : Option Error
  pub created_at : ℕ
  pub sent_at : Option ℕ
  pub next_attempt_at : Option ℤ

pub data LedgerKind : Type 0 where
  purchase redemption refund admin_adjust : LedgerKind

-- A note is free text, or the dispatcher's text with the number of attempts and the error.
pub data Note : Type 0 where
  free_text : String → Note
  dispatch_failed : ℕ → Error → Note

pub record Entry : Type 0 where
  pub id : ℕ
  pub user_id : ℕ
  pub delta : ℤ
  pub kind : LedgerKind
  pub deposit_id : Option ℕ
  pub pulse_id : Option ℕ
  pub note : Option Note
  pub created_at : ℕ

-- The kinds of alert, `relay_board_offline_<id>` with its number.
pub data AlertKind : Type 0 where
  pool_low_urgent pool_low_warn direct_pay_pool_empty deposit_reorged_after_credit : AlertKind
  relay_dispatch_failed node_unreachable node_syncing : AlertKind
  relay_board_offline : ℕ → AlertKind

-- Of a message the code reads back one thing: the deposit that it names.
pub record Alert : Type 0 where
  pub id : ℕ
  pub kind : AlertKind
  pub about_deposit : Option ℕ
  pub created_at : ℕ
  pub acked_at : Option ℕ

pub record Board : Type 0 where
  pub id : ℕ
  pub name : String
  pub base_url : String
  pub last_seen_at : Option ℕ
  pub is_active : Bool

pub record Relay : Type 0 where
  pub id : ℕ
  pub machine_id : ℕ
  pub board_id : ℕ
  pub relay_number : ℕ
  pub is_active : Bool

pub record Batch : Type 0 where
  pub id : ℕ
  pub source_note : String
  pub address_count : ℕ
  pub loaded_at : ℕ

-- What an admin did, and to which row of which kind. Of the note, text for a person, nothing is kept.
pub record Audit : Type 0 where
  pub id : ℕ
  pub user_id : ℕ
  pub action : String
  pub target : Option (String × ℤ)
  pub created_at : ℕ

-- A setting's value is its text, byte by byte.
pub record Db : Type 0 where
  pub addresses : List Address
  pub deposits : List Deposit
  pub users : List User
  pub machines : List Machine
  pub pulses : List Pulse
  pub entries : List Entry
  pub alerts : List Alert
  pub boards : List Board
  pub relays : List Relay
  pub batches : List Batch
  pub audits : List Audit
  pub settings : List (String × List ℕ)

-- The id that an INSERT without one is given: one above the largest in the table.
abbrev pub next_id {ℓ} : {A : Type ℓ} → (A → ℕ) → List A → ℕ
next_id id [] = 1
next_id id (x ∷ xs) = max (suc (id x)) (next_id id xs)

abbrev pub is_pool : AddressState → Bool
is_pool AddressState.pool = true
is_pool _ = false

abbrev pub is_assigned : AddressState → Bool
is_assigned AddressState.assigned = true
is_assigned _ = false

abbrev pub is_retired : AddressState → Bool
is_retired AddressState.retired = true
is_retired _ = false

abbrev pub same_state : AddressState → AddressState → Bool
same_state a b =
    (is_pool a && is_pool b) || (is_assigned a && is_assigned b) || (is_retired a && is_retired b)

abbrev pub same_purpose : Purpose → Purpose → Bool
same_purpose token_deposit token_deposit = true
same_purpose machine_direct machine_direct = true
same_purpose _ _ = false

abbrev pub is_pending : PulseState → Bool
is_pending pending = true
is_pending _ = false

-- Two filled columns with one value: a UNIQUE index takes NULLs for different.
abbrev pub both : Option ℕ → Option ℕ → Bool
both (some a) (some b) = a == b
both _ _ = false

abbrev pub is_null : Option ℕ → Bool
is_null none = true
is_null (some _) = false

abbrev pub alert_code : AlertKind → ℕ
alert_code pool_low_urgent = 0
alert_code pool_low_warn = 1
alert_code direct_pay_pool_empty = 2
alert_code deposit_reorged_after_credit = 3
alert_code relay_dispatch_failed = 4
alert_code node_unreachable = 5
alert_code node_syncing = 6
alert_code (relay_board_offline board) = 7 + board

abbrev pub same_kind : AlertKind → AlertKind → Bool
same_kind a b = alert_code a == alert_code b
