-- ===== src/Settings.antt =====
-- internal/services/settings.go: typed settings over a table of texts, with defaults.
pub mod Decimal
pub mod RoundTrip
pub mod Seed
use dogecade.Common.{List, String, [], if◌then◌else◌, pos, str_eq, ℕ, ℤ, ◌∷◌}
use dogecade.Store.{Action, bad_setting, exec, ok, or_raise, pure, query, ◌>>=◌, ◌>>◌}
use dogecade.Settings.Decimal.{format_int, is_empty, parse_int}

abbrev pub text_of : String → List (String × List ℕ) → List ℕ
text_of key [] = []
text_of key ((k, v) ∷ rest) = if str_eq k key then v else text_of key rest

-- A key that is not there reads as the empty text.
pub get_string : String → Action (List ℕ)
get_string key = query (λ d. text_of key d.settings)

-- `INSERT ... ON CONFLICT(key) DO UPDATE`.
abbrev pub upsert : String → List ℕ → List (String × List ℕ) → List (String × List ℕ)
upsert key value [] = (key, value) ∷ []
upsert key value ((k, v) ∷ rest) =
    if str_eq k key then (k, value) ∷ rest else (k, v) ∷ upsert key value rest

pub set_string : String → List ℕ → Action (Unit {0})
set_string key value = exec (λ d. (ok tt, record d { settings = upsert key value d.settings }))

-- The body that the getters of numbers share.
pub get_number : String → ℤ → Action ℤ
get_number key default = do
  value ← get_string key
  if is_empty value then pure default else or_raise (parse_int value) bad_setting

abbrev pub key_min_confirmations : String
key_min_confirmations = "min_confirmations"

abbrev pub key_zero_conf_max_koinu : String
key_zero_conf_max_koinu = "zero_conf_max_koinu"

abbrev pub key_pool_warn_threshold : String
key_pool_warn_threshold = "pool_warn_threshold"

abbrev pub key_pool_urgent_threshold : String
key_pool_urgent_threshold = "pool_urgent_threshold"

abbrev pub key_chain_cursor : String
key_chain_cursor = "chain_cursor"

abbrev pub key_token_price_koinu : String
key_token_price_koinu = "token_price_koinu"

abbrev pub key_relay_pulse_gap_ms : String
key_relay_pulse_gap_ms = "relay_pulse_gap_ms"

abbrev pub key_relay_max_attempts : String
key_relay_max_attempts = "relay_max_attempts"

abbrev pub key_direct_pay_max_credits_per_tx : String
key_direct_pay_max_credits_per_tx = "direct_pay_max_credits_per_tx"

abbrev pub key_direct_pay_rotate_interval_hours : String
key_direct_pay_rotate_interval_hours = "direct_pay_rotate_interval_hours"

abbrev pub key_direct_pay_rotate_after_uses : String
key_direct_pay_rotate_after_uses = "direct_pay_rotate_after_uses"

pub get_min_confirmations : Action ℤ
get_min_confirmations = get_number key_min_confirmations (pos 1)

pub set_min_confirmations : ℤ → Action (Unit {0})
set_min_confirmations value = set_string key_min_confirmations (format_int value)

pub get_zero_conf_max_koinu : Action ℤ
get_zero_conf_max_koinu = get_number key_zero_conf_max_koinu (pos 0)

pub set_zero_conf_max_koinu : ℤ → Action (Unit {0})
set_zero_conf_max_koinu value = set_string key_zero_conf_max_koinu (format_int value)

pub get_pool_warn_threshold : Action ℤ
get_pool_warn_threshold = get_number key_pool_warn_threshold (pos 25)

pub set_pool_warn_threshold : ℤ → Action (Unit {0})
set_pool_warn_threshold value = set_string key_pool_warn_threshold (format_int value)

pub get_pool_urgent_threshold : Action ℤ
get_pool_urgent_threshold = get_number key_pool_urgent_threshold (pos 10)

pub set_pool_urgent_threshold : ℤ → Action (Unit {0})
set_pool_urgent_threshold value = set_string key_pool_urgent_threshold (format_int value)

-- The default cursor is the empty text too.
pub get_chain_cursor : Action (List ℕ)
get_chain_cursor = get_string key_chain_cursor

pub set_chain_cursor : List ℕ → Action (Unit {0})
set_chain_cursor hash = set_string key_chain_cursor hash

unfoldable pub get_token_price_koinu : Action ℤ
get_token_price_koinu = get_number key_token_price_koinu (pos 100_000_000)

pub set_token_price_koinu : ℤ → Action (Unit {0})
set_token_price_koinu value = set_string key_token_price_koinu (format_int value)

pub get_relay_pulse_gap_ms : Action ℤ
get_relay_pulse_gap_ms = get_number key_relay_pulse_gap_ms (pos 750)

pub set_relay_pulse_gap_ms : ℤ → Action (Unit {0})
set_relay_pulse_gap_ms value = set_string key_relay_pulse_gap_ms (format_int value)

pub get_relay_max_attempts : Action ℤ
get_relay_max_attempts = get_number key_relay_max_attempts (pos 5)

pub set_relay_max_attempts : ℤ → Action (Unit {0})
set_relay_max_attempts value = set_string key_relay_max_attempts (format_int value)

pub get_direct_pay_max_credits_per_tx : Action ℤ
get_direct_pay_max_credits_per_tx = get_number key_direct_pay_max_credits_per_tx (pos 10)

pub set_direct_pay_max_credits_per_tx : ℤ → Action (Unit {0})
set_direct_pay_max_credits_per_tx value =
    set_string key_direct_pay_max_credits_per_tx (format_int value)

pub get_direct_pay_rotate_interval_hours : Action ℤ
get_direct_pay_rotate_interval_hours = get_number key_direct_pay_rotate_interval_hours (pos 0)

pub set_direct_pay_rotate_interval_hours : ℤ → Action (Unit {0})
set_direct_pay_rotate_interval_hours value =
    set_string key_direct_pay_rotate_interval_hours (format_int value)

pub get_direct_pay_rotate_after_uses : Action ℤ
get_direct_pay_rotate_after_uses = get_number key_direct_pay_rotate_after_uses (pos 0)

pub set_direct_pay_rotate_after_uses : ℤ → Action (Unit {0})
set_direct_pay_rotate_after_uses value =
    set_string key_direct_pay_rotate_after_uses (format_int value)

abbrev pub key_node_rpc_url : String
key_node_rpc_url = "node_rpc_url"

abbrev pub key_node_rpc_user : String
key_node_rpc_user = "node_rpc_user"

abbrev pub key_node_rpc_pass : String
key_node_rpc_pass = "node_rpc_pass"

abbrev pub key_node_zmq_addr : String
key_node_zmq_addr = "node_zmq_addr"

pub record NodeRpcConfig : Type 0 where
  pub rpc_url : List ℕ
  pub rpc_user : List ℕ
  pub rpc_pass : List ℕ
  pub zmq_addr : List ℕ

pub get_node_rpc_config : Action NodeRpcConfig
get_node_rpc_config = do
  rpc_url ← get_string key_node_rpc_url
  rpc_user ← get_string key_node_rpc_user
  rpc_pass ← get_string key_node_rpc_pass
  zmq_addr ← get_string key_node_zmq_addr
  pure (record { rpc_url = rpc_url; rpc_user = rpc_user; rpc_pass = rpc_pass; zmq_addr = zmq_addr })

pub set_node_rpc_config : NodeRpcConfig → Action (Unit {0})
set_node_rpc_config cfg = do
  set_string key_node_rpc_url cfg.rpc_url
  set_string key_node_rpc_user cfg.rpc_user
  set_string key_node_rpc_pass cfg.rpc_pass
  set_string key_node_zmq_addr cfg.zmq_addr

-- A setting that has a text, which an admin may have written, is left alone.
pub set_string_if_absent : String → List ℕ → Action (Unit {0})
set_string_if_absent key value =
    if is_empty value
    then pure tt
    else do existing ← get_string key; if is_empty existing then set_string key value else pure tt

-- The four fields of the configuration that are seeded from the environment.
pub seed_from_env : NodeRpcConfig → Action (Unit {0})
seed_from_env cfg = do
  set_string_if_absent key_node_rpc_url cfg.rpc_url
  set_string_if_absent key_node_rpc_user cfg.rpc_user
  set_string_if_absent key_node_rpc_pass cfg.rpc_pass
  set_string_if_absent key_node_zmq_addr cfg.zmq_addr
