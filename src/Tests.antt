-- ===== src/Tests.antt =====
-- The tables of a small arcade, on which the theorems are tried.
mod Tokens
mod Chain
mod Machines
mod Keys
mod Admin
mod Payments
mod Setup
use dogecade.Common.{String, [], false, none, pos, refl, some, true, ℕ, ◌∷◌}
use dogecade.Store.{
  Address, AddressState, Db, Deposit, DepositState, Entry, Machine, Pulse, Purpose, User, World,
  calm, confirmed, machine_direct, token_deposit,
}
use dogecade.Settings.{NodeRpcConfig}
use dogecade.Ledger.{purchase_row}
use dogecade.Pool.WellFormed.{IsWellFormed}
use dogecade.Redemption.{redeem_row}
use dogecade.Purchase.{bind_user}
use dogecade.DirectPay.{bind_machine}
use dogecade.Deposits.{Event}

abbrev pub player : User
player = record { id = 1; subject_hash = "hash"; display_name = "Player"; is_admin = false }

abbrev pub cabinet : Machine
cabinet = record {
  id = 1;
  slug = "cabinet";
  name = "Cabinet";
  direct_pay_enabled = true;
  direct_play_price_koinu = some (pos 100);
  is_active = true;
}

abbrev pub pooled : ℕ → String → Purpose → Address
pooled id address purpose = record {
  id = id;
  address = address;
  batch_id = none;
  state = AddressState.pool;
  purpose = purpose;
  user_id = none;
  machine_id = none;
  assigned_at = none;
  retired_at = none;
  node_registered_at = none;
  use_count = 0;
}

abbrev pub players_address : Address
players_address = bind_user 1 10 (pooled 1 "DPlayer" token_deposit)

abbrev pub cabinets_address : Address
cabinets_address = bind_machine 1 10 (pooled 2 "DCabinet" machine_direct)

abbrev pub deposit_in : DepositState → Deposit
deposit_in state = record {
  id = 1;
  address_id = 1;
  txid = "aa";
  vout = 0;
  amount_koinu = pos 250_000_000;
  confirmations = pos 0;
  block_height = none;
  state = state;
  credited_at = none;
  crediting_claimed_at = none;
  created_at = 20;
  remainder_koinu = none;
}

abbrev pub first_pulse : Pulse
first_pulse = redeem_row 1 1 30 1

abbrev pub bought : Entry
bought = purchase_row 1 1 (pos 2) 25 1

-- The tables with one deposit, in the given state.
abbrev pub arcade : DepositState → Db
arcade state = record {
  addresses =
      players_address
      ∷ cabinets_address
      ∷ pooled 3 "DFreePlayer" token_deposit
      ∷ pooled 4 "DFreeCabinet" machine_direct
      ∷ [];
  deposits = deposit_in state ∷ [];
  users = player ∷ [];
  machines = cabinet ∷ [];
  pulses = first_pulse ∷ [];
  entries = bought ∷ [];
  alerts = [];
  boards = [];
  relays = [];
  batches = [];
  audits = [];
  settings = [];
}

abbrev pub day : World
day = calm (arcade confirmed) 0

pub arcade-IsWellFormed : (state : DepositState) → IsWellFormed (arcade state).addresses
arcade-IsWellFormed state = record {
  keyed = (refl, (refl, (refl, (refl, tt))));
  indexed = refl;
  unbound = ((λ h. cc), ((λ h. cc), ((λ h. (refl, refl)), ((λ h. (refl, refl)), tt))));
}

abbrev pub event : Event
event = record {
  address = "DPlayer";
  txid = "aa";
  vout = 0;
  amount_koinu = pos 250_000_000;
  confirmations = pos 3;
  block_height = pos 90;
}

-- The same tables, with a machine's address to be rotated after a day.
abbrev pub set_to_rotate : World
set_to_rotate =
    calm
      (record (arcade confirmed) {
        settings =
            ("direct_pay_rotate_interval_hours", b'2' ∷ b'4' ∷ [])
            ∷ ("node_rpc_url", b'u' ∷ [])
            ∷ [];
      })
      0

abbrev pub environment : NodeRpcConfig
environment = record { rpc_url = b'h' ∷ []; rpc_user = b'd' ∷ []; rpc_pass = []; zmq_addr = [] }
