-- ===== src/DirectPay.antt =====
-- internal/services/direct_pay.go: paying a machine directly, and the rotation of its address.
pub mod Rotation
pub mod Credit
use dogecade.Common.{
  Bool, Option, String, false, find, holds, if◌then◌else◌, limit, ltb_ℤ, none, pos, pos_part, quot,
  rem, some, suc, update_if, zero, ℕ, ℤ, ◌&&◌, ◌+◌, ◌==◌,
}
use dogecade.Store.{
  Action, Address, Db, Deposit, Machine, Pulse, assigned, atomically, direct_pay,
  direct_pay_pool_empty, exec, is_assigned, machine_direct, modify, no_rows, or_raise, pending,
  pool_empty, pure, query, raise, raise_if, retired, same_purpose, ◌>>=◌, ◌>>◌,
}
use dogecade.Alerts.{insert_alert_if_not_exists}
use dogecade.Settings.{get_direct_pay_max_credits_per_tx}
use dogecade.Pool.{has_id, is_free, oldest, still_pooled, update_addresses}
use dogecade.Redemption.{insert_pulse}
use dogecade.Purchase.{deposit_has, purchase_credit_hook, set_remainder, update_deposit}

-- The active direct-pay address of a machine.
abbrev pub serves : ℕ → Address → Bool
serves machine a =
    holds a.machine_id machine && same_purpose a.purpose machine_direct && is_assigned a.state

unfoldable pub active_address : ℕ → Action (Option Address)
active_address machine = query (λ d. find (serves machine) d.addresses)

abbrev pub bind_machine : ℕ → ℕ → Address → Address
bind_machine machine now a = record a {
  state = assigned;
  assigned_at = some now;
  machine_id = some machine;
  use_count = 0;
}

abbrev pub retire_at : ℕ → Address → Address
retire_at now a = record a { state = retired; retired_at = some now }

pub claim_pool_address_for_machine : ℕ → ℕ → Action String
claim_pool_address_for_machine machine now = do
  found ← query (λ d. oldest (is_free machine_direct) d.addresses)
  row ← or_raise found pool_empty
  affected ← exec (update_addresses (still_pooled row.id) (bind_machine machine now))
  raise_if (affected == 0) pool_empty
  pure row.address

pub activate : ℕ → ℕ → Action String
activate machine now = atomically (claim_pool_address_for_machine machine now)

-- The transaction of `Rotate` once a replacement has been found.
abbrev pub replace : ℕ → ℕ → Address → Action String
replace machine now row = do
  retired_rows ← exec (update_addresses (serves machine) (retire_at now))
  affected ← exec (update_addresses (still_pooled row.id) (bind_machine machine now))
  raise_if (affected == 0) pool_empty
  pure row.address

-- What the transaction of `Rotate` comes to: `none` where it found the pool empty and was released.
abbrev pub replace_if_any : ℕ → ℕ → Option Address → Action (Option String)
replace_if_any machine now none = pure none
replace_if_any machine now (some row) = do address ← replace machine now row; pure (some address)

abbrev pub report_empty : ℕ → Option String → Action String
report_empty now (some address) = pure address
report_empty now none = do insert_alert_if_not_exists direct_pay_pool_empty now; raise pool_empty

-- An empty pool ends the transaction, which has written nothing, before the alert is raised.
pub rotate : ℕ → ℕ → Action String
rotate machine now = do
  address ← atomically do
    found ← query (λ d. oldest (is_free machine_direct) d.addresses)
    replace_if_any machine now found
  report_empty now address

abbrev pub direct_row : ℕ → ℕ → ℕ → Pulse
direct_row machine now id = record {
  id = id;
  machine_id = machine;
  user_id = none;
  source = direct_pay;
  state = pending;
  attempts = 0;
  last_error = none;
  created_at = now;
  sent_at = none;
  next_attempt_at = none;
}

-- The loop that queues one pulse for each credit.
unfoldable pub queue_pulses : ℕ → ℕ → ℕ → Action (Unit {0})
queue_pulses zero machine now = pure tt
queue_pulses (suc left) machine now = do
  id ← exec (insert_pulse (direct_row machine now))
  queue_pulses left machine now

abbrev pub count_use : ℕ → Db → Db
count_use address d = record d {
  addresses =
      update_if (has_id address) (λ a. record a { use_count = a.use_count + 1 }) d.addresses;
}

-- The whole credits that an amount buys, up to the limit where one is set.
abbrev pub capped : ℤ → ℤ → ℤ
capped credits limit = if ltb_ℤ (pos 0) limit && ltb_ℤ limit credits then limit else credits

abbrev pub queue_credits : ℤ → ℕ → ℕ → ℕ → Action (Unit {0})
queue_credits credits address machine now =
    if ltb_ℤ (pos 0) credits
    then queue_pulses (pos_part credits) machine now >> modify (count_use address)
    else pure tt

-- The price is set and positive.
abbrev pub is_priced : Option ℤ → Bool
is_priced none = false
is_priced (some price) = ltb_ℤ (pos 0) price

abbrev pub price_of : Option ℤ → ℕ
price_of none = 0
price_of (some price) = pos_part price

abbrev pub credit_at : ℕ → ℕ → ℕ → ℕ → Deposit → ℕ → Action (Unit {0})
credit_at deposit address machine now x price = do
  limit ← get_direct_pay_max_credits_per_tx
  atomically do
    modify (update_deposit deposit (set_remainder (rem x.amount_koinu price)))
    queue_credits (capped (quot x.amount_koinu price) limit) address machine now

unfoldable pub credit_deposit : ℕ → ℕ → ℕ → ℕ → Action (Unit {0})
credit_deposit deposit address machine now = do
  row? ← query (λ d. find (deposit_has deposit) d.deposits)
  x ← or_raise row? no_rows
  machine? ← query (λ d. find (λ (m : Machine). m.id == machine) d.machines)
  m ← or_raise machine? no_rows
  if is_priced m.direct_play_price_koinu
      then credit_at deposit address machine now x (price_of m.direct_play_price_koinu)
      else pure tt

abbrev pub route : ℕ → ℕ → Address → Option ℕ → Action (Unit {0})
route deposit now a none = purchase_credit_hook deposit now
route deposit now a (some machine) =
    if same_purpose a.purpose machine_direct
    then credit_deposit deposit a.id machine now
    else purchase_credit_hook deposit now

-- The hook of NewDirectPayAwareCreditHook.
unfoldable pub direct_pay_aware_credit_hook : ℕ → ℕ → Action (Unit {0})
direct_pay_aware_credit_hook deposit now = do
  row? ← query (λ d. find (deposit_has deposit) d.deposits)
  x ← or_raise row? no_rows
  address? ← query (λ d. find (has_id x.address_id) d.addresses)
  a ← or_raise address? no_rows
  route deposit now a a.machine_id
