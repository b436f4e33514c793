-- ===== src/Web/Settings.antt =====
-- internal/web/admin_routes.go: the settings of the business and of the node.
use dogecade.Common.{
  Bool, Option, String, [], if◌then◌else◌, ltb_ℤ, none, not, or_else, pos, some, ℕ, ℤ,
}
use dogecade.Store.{Action, caught, pure, ◌>>=◌, ◌>>◌}
use dogecade.Settings.Decimal.{is_empty}
use dogecade.Settings.{
  NodeRpcConfig, get_direct_pay_max_credits_per_tx, get_direct_pay_rotate_after_uses,
  get_direct_pay_rotate_interval_hours, get_min_confirmations, get_node_rpc_config,
  get_pool_urgent_threshold, get_pool_warn_threshold, get_relay_max_attempts,
  get_relay_pulse_gap_ms, get_token_price_koinu, get_zero_conf_max_koinu,
  set_direct_pay_max_credits_per_tx, set_direct_pay_rotate_after_uses,
  set_direct_pay_rotate_interval_hours, set_min_confirmations, set_node_rpc_config,
  set_pool_urgent_threshold, set_pool_warn_threshold, set_relay_max_attempts,
  set_relay_pulse_gap_ms, set_token_price_koinu, set_zero_conf_max_koinu,
}
use dogecade.Session.{Session}
use dogecade.Web.{
  Handler, Request, Response, branch, bytes, form_int, internal_error, log_admin_action, page,
  render, with_form,
}

pub record AdminSettings : Type 0 where
  pub min_confirmations : ℤ
  pub zero_conf_max_koinu : ℤ
  pub pool_warn_threshold : ℤ
  pub pool_urgent_threshold : ℤ
  pub token_price_koinu : ℤ
  pub relay_pulse_gap_ms : ℤ
  pub relay_max_attempts : ℤ
  pub direct_pay_max_credits_per_tx : ℤ
  pub direct_pay_rotate_interval_hr : ℤ
  pub direct_pay_rotate_after_uses : ℤ

unfoldable pub load_admin_settings_data : Action AdminSettings
load_admin_settings_data = do
  min_confirmations ← get_min_confirmations
  zero_conf_max ← get_zero_conf_max_koinu
  warn_threshold ← get_pool_warn_threshold
  urgent_threshold ← get_pool_urgent_threshold
  token_price ← get_token_price_koinu
  pulse_gap ← get_relay_pulse_gap_ms
  max_attempts ← get_relay_max_attempts
  max_credits ← get_direct_pay_max_credits_per_tx
  rotate_hours ← get_direct_pay_rotate_interval_hours
  rotate_uses ← get_direct_pay_rotate_after_uses
  pure (record {
    min_confirmations = min_confirmations;
    zero_conf_max_koinu = zero_conf_max;
    pool_warn_threshold = warn_threshold;
    pool_urgent_threshold = urgent_threshold;
    token_price_koinu = token_price;
    relay_pulse_gap_ms = pulse_gap;
    relay_max_attempts = max_attempts;
    direct_pay_max_credits_per_tx = max_credits;
    direct_pay_rotate_interval_hr = rotate_hours;
    direct_pay_rotate_after_uses = rotate_uses;
  })

pub handle_admin_settings_show : Session → Handler
handle_admin_settings_show sess r now = render load_admin_settings_data "admin_settings.html" none

-- The error of a field that is no integer, or one below the least.
abbrev pub below : ℤ → String → Option ℤ → Option String
below least message none = some message
below least message (some z) = if ltb_ℤ z least then some message else none

-- The first field of the form that is wrong.
unfoldable pub form_error : Request → Option String
form_error r =
    or_else
      (below (pos 0) "min_confirmations must be a non-negative integer"
        (form_int r "min_confirmations"))
      (or_else
        (below (pos 0) "zero_conf_max_koinu must be a non-negative integer"
          (form_int r "zero_conf_max_koinu"))
        (or_else
          (below (pos 0) "pool_warn_threshold must be a non-negative integer"
            (form_int r "pool_warn_threshold"))
          (or_else
            (below (pos 0) "pool_urgent_threshold must be a non-negative integer"
              (form_int r "pool_urgent_threshold"))
            (or_else
              (below (pos 1) "token_price_koinu must be a positive integer"
                (form_int r "token_price_koinu"))
              (or_else
                (below (pos 0) "relay_pulse_gap_ms must be a non-negative integer"
                  (form_int r "relay_pulse_gap_ms"))
                (or_else
                  (below (pos 1) "relay_max_attempts must be a positive integer"
                    (form_int r "relay_max_attempts"))
                  (or_else
                    (below (pos 1) "direct_pay_max_credits_per_tx must be a positive integer"
                      (form_int r "direct_pay_max_credits_per_tx"))
                    (or_else
                      (below (pos 0)
                        "direct_pay_rotate_interval_hours must be a non-negative integer (0 disables)"
                        (form_int r "direct_pay_rotate_interval_hours"))
                      (below (pos 0)
                        "direct_pay_rotate_after_uses must be a non-negative integer (0 disables)"
                        (form_int r "direct_pay_rotate_after_uses"))))))))))

abbrev pub or_zero : Option ℤ → ℤ
or_zero none = pos 0
or_zero (some z) = z

-- The ten setters, up to the first that fails.
unfoldable pub save_settings : Request → Action (Unit {0})
save_settings r = do
  set_min_confirmations (or_zero (form_int r "min_confirmations"))
  set_zero_conf_max_koinu (or_zero (form_int r "zero_conf_max_koinu"))
  set_pool_warn_threshold (or_zero (form_int r "pool_warn_threshold"))
  set_pool_urgent_threshold (or_zero (form_int r "pool_urgent_threshold"))
  set_token_price_koinu (or_zero (form_int r "token_price_koinu"))
  set_relay_pulse_gap_ms (or_zero (form_int r "relay_pulse_gap_ms"))
  set_relay_max_attempts (or_zero (form_int r "relay_max_attempts"))
  set_direct_pay_max_credits_per_tx (or_zero (form_int r "direct_pay_max_credits_per_tx"))
  set_direct_pay_rotate_interval_hours (or_zero (form_int r "direct_pay_rotate_interval_hours"))
  set_direct_pay_rotate_after_uses (or_zero (form_int r "direct_pay_rotate_after_uses"))

abbrev pub save_if_right : Session → Request → ℕ → Option String → Action Response
save_if_right sess r now (some message) =
    render load_admin_settings_data "admin_settings.html" (some message)
save_if_right sess r now none = do
  saved ← caught (save_settings r)
  branch saved
      (λ _. do
        log_admin_action sess "settings.update" none now
        render load_admin_settings_data "admin_settings.html" none)
      (λ _. pure internal_error)

pub handle_admin_settings_save : Session → Handler
handle_admin_settings_save sess r now = with_form r (save_if_right sess r now (form_error r))

-- The password is taken out of what a page is given; whether there is one is not.
abbrev pub redact_node_config : NodeRpcConfig → NodeRpcConfig × Bool
redact_node_config cfg = (record cfg { rpc_pass = [] }, not (is_empty cfg.rpc_pass))

-- An empty password leaves the one that is stored.
unfoldable pub node_config_from_form : Request → Action NodeRpcConfig
node_config_from_form r = do
  existing ← get_node_rpc_config
  let pass = bytes (r.form "rpc_pass")
  pure (record {
    rpc_url = bytes (r.form "rpc_url");
    rpc_user = bytes (r.form "rpc_user");
    rpc_pass = if is_empty pass then existing.rpc_pass else pass;
    zmq_addr = bytes (r.form "zmq_addr");
  })

pub handle_admin_node_settings_show : Session → Handler
handle_admin_node_settings_show sess r now = render get_node_rpc_config "admin_node.html" none

abbrev pub save_node_config : Session → ℕ → NodeRpcConfig → Action Response
save_node_config sess now cfg = do
  saved ← caught (set_node_rpc_config cfg)
  branch saved
      (λ _. do
        log_admin_action sess "settings.node.update" none now
        pure (page "admin_node.html" none))
      (λ _. pure internal_error)

pub handle_admin_node_settings_save : Session → Handler
handle_admin_node_settings_save sess r now = with_form r do
  cfg ← caught (node_config_from_form r)
  branch cfg (save_node_config sess now) (λ _. pure internal_error)
