-- ===== src/Web/Machines.antt =====
-- internal/web/admin_routes.go: machines, boards, bindings and direct pay. The pulse of the test
-- button is a parameter. A message that ends in the text of an error is given without that text.
use dogecade.Common.{
  Bool, List, Option, String, [], false, if◌then◌else◌, leb_ℤ, none, pos, some, str_eq, true, ℕ, ℤ,
  ◌&&◌, ◌∷◌,
}
use dogecade.Store.{
  Action, Address, Board, Error, Machine, Result, binding_conflict, board_name_taken, bound, caught,
  err, ok, pool_empty, pure, slug_taken, ◌>>=◌, ◌>>◌,
}
use dogecade.DirectPay.{activate, active_address, rotate}
use dogecade.Machines.{create, list_all, set_active, set_direct_pay, update}
use dogecade.Boards.{
  MachineRelay, bind, create_board, list_bindings, list_boards, set_board_active, unbind,
}
use dogecade.Relay.{test_fire}
use dogecade.Session.{Session}
use dogecade.Web.{
  Handler, Response, branch, form_int, internal_error, log_admin_action, page, path_id, redirect,
  render, row_id, with_form, with_number,
}

-- What the page shows, but for the address and the picture of each machine's own page.
pub record AdminMachines : Type 0 where
  pub machines : List Machine
  pub boards : List Board
  pub bindings : List MachineRelay
  pub direct_pay : List (ℕ × Address)

abbrev pub with_active : ℕ → Option Address → List (ℕ × Address) → List (ℕ × Address)
with_active machine none rest = rest
with_active machine (some a) rest = (machine, a) ∷ rest

abbrev pub active_then : ℕ → Action (List (ℕ × Address)) → Action (List (ℕ × Address))
active_then machine rest = do
  active ← active_address machine
  others ← rest
  pure (with_active machine active others)

-- The active address of each machine that takes direct pay.
unfoldable pub active_addresses : List Machine → Action (List (ℕ × Address))
active_addresses [] = pure []
active_addresses (m ∷ ms) =
    let rest = active_addresses ms in if m.direct_pay_enabled then active_then m.id rest else rest

unfoldable pub load_admin_machines_data : Action AdminMachines
load_admin_machines_data = do
  machines ← list_all
  boards ← list_boards
  bindings ← list_bindings
  direct_pay ← active_addresses machines
  pure (record {
    machines = machines;
    boards = boards;
    bindings = bindings;
    direct_pay = direct_pay;
  })

abbrev pub machines_page : Option String → Action Response
machines_page message = render load_admin_machines_data "admin_machines.html" message

abbrev pub machines_error : String → Action Response
machines_error message = machines_page (some message)

pub handle_admin_machines_show : Session → Handler
handle_admin_machines_show sess r now = machines_page none

abbrev pub slug_message : String → Error → String
slug_message other slug_taken = "That machine slug is already in use."
slug_message other _ = other

-- The trail of a change, and back to the list.
abbrev pub done_with : Session → String → String → ℤ → String → ℕ → Action Response
done_with sess action kind id path now = do
  log_admin_action sess action (some (kind, id)) now
  pure (redirect path)

pub handle_admin_machine_create : Session → Handler
handle_admin_machine_create sess r now = with_form r do
  created ← caught (create (r.form "slug") (r.form "name"))
  branch created (λ id. done_with sess "machine.create" "machine" (pos id) "/admin/machines" now)
      (λ e. machines_error (slug_message "Failed to create machine." e))

pub handle_admin_machine_edit : Session → Handler
handle_admin_machine_edit sess r now = with_number (path_id r) λ id. with_form r do
  updated ← caught (update (row_id id) (r.form "slug") (r.form "name"))
  branch updated (λ _. done_with sess "machine.edit" "machine" id "/admin/machines" now)
      (λ e. machines_error (slug_message "Failed to update machine." e))

-- A change whose failure is logged: the answer is the same, the trail is not written.
abbrev pub attempt :
    {A : Type 0} → Session → Action A → String → String → ℤ → String → ℕ → Action Response
attempt sess m action kind id path now = do
  changed ← caught m
  branch changed (λ _. done_with sess action kind id path now) (λ _. pure (redirect path))

abbrev pub is_one : String → Bool
is_one s = str_eq s "1"

pub handle_admin_machine_toggle : Session → Handler
handle_admin_machine_toggle sess r now = with_number (path_id r) λ id.
    attempt sess (set_active (row_id id) (is_one (r.form "active"))) "machine.set_active" "machine"
      id "/admin/machines" now

abbrev pub board_message : Error → String
board_message board_name_taken = "That relay board name is already in use."
board_message _ = "Failed to create relay board."

pub handle_admin_board_create : Session → Handler
handle_admin_board_create sess r now = with_form r do
  created ← caught (create_board (r.form "name") (r.form "base_url"))
  branch created (λ id. done_with sess "board.create" "board" (pos id) "/admin/machines" now)
      (λ e. machines_error (board_message e))

pub handle_admin_board_toggle : Session → Handler
handle_admin_board_toggle sess r now = with_number (path_id r) λ id.
    attempt sess (set_board_active (row_id id) (is_one (r.form "active"))) "board.set_active"
      "board" id "/admin/machines" now

abbrev pub binding_message : Error → String
binding_message binding_conflict =
    "That machine already has an active relay binding. Unbind it first."
binding_message _ = "Failed to bind relay."

pub handle_admin_relay_bind : Session → Handler
handle_admin_relay_bind sess r now = with_form r (
    with_number (form_int r "machine_id") λ machine. with_number (form_int r "board_id") λ board.
      with_number (form_int r "relay_number") λ number. do
        bound ← caught (bind (row_id machine) (row_id board) number)
        branch bound (λ id. done_with sess "relay.bind" "binding" (pos id) "/admin/machines" now)
            (λ e. machines_error (binding_message e)))

pub handle_admin_relay_unbind : Session → Handler
handle_admin_relay_unbind sess r now =
    with_number (path_id r)
      λ id. attempt sess (unbind (row_id id)) "relay.unbind" "binding" id "/admin/machines" now

abbrev pub test_message : {A : Type 0} → Result A → Option String
test_message (ok _) = none
test_message (err _) = some "Test-fire failed"

-- The page is read before the trail is written, and the trail is written in both cases.
pub handle_admin_test_fire : (ℕ → Action (Unit {0})) → Session → Handler
handle_admin_test_fire test_fire sess r now = with_form r (
    with_number (form_int r "machine_id") λ machine. do
      fired ← caught (test_fire (row_id machine))
      loaded ← caught load_admin_machines_data
      branch loaded
          (λ _. do
            log_admin_action sess "relay.test_fire" (some ("machine", machine)) now
            pure (page "admin_machines.html" (test_message fired)))
          (λ _. pure internal_error))

abbrev pub activate_message : Error → String
activate_message pool_empty =
    "Direct pay enabled, but the machine_direct address pool is empty — import more addresses to activate it."
activate_message _ = "Failed to activate a direct-pay address."

-- A machine that has no active address is given one.
abbrev pub activate_missing : Session → ℤ → ℕ → Option Address → Action Response
activate_missing sess id now (some a) = pure (redirect "/admin/machines")
activate_missing sess id now none = do
  activated ← caught (activate (row_id id) now)
  branch activated
      (λ _. done_with sess "machine.direct_pay.activate" "machine" id "/admin/machines" now)
      (λ e. machines_error (activate_message e))

abbrev pub after_save : Session → ℤ → ℕ → Bool → Action Response
after_save sess id now false = pure (redirect "/admin/machines")
after_save sess id now true = do
  active ← caught (active_address (row_id id))
  branch active (activate_missing sess id now) (λ _. pure (redirect "/admin/machines"))

abbrev pub bad_direct_price : Option ℤ → Bool
bad_direct_price none = true
bad_direct_price (some price) = leb_ℤ price (pos 0)

abbrev pub price_or_zero : Option ℤ → ℤ
price_or_zero none = pos 0
price_or_zero (some price) = price

abbrev pub save_direct_pay : Session → ℤ → ℕ → Bool → ℤ → Action Response
save_direct_pay sess id now enabled price = do
  saved ← caught (set_direct_pay (row_id id) enabled price)
  branch saved
      (λ _. do
        log_admin_action sess "machine.direct_pay.set" (some ("machine", id)) now
        after_save sess id now enabled)
      (λ _. machines_error "Failed to save direct-pay settings.")

pub handle_admin_machine_direct_pay_save : Session → Handler
handle_admin_machine_direct_pay_save sess r now = with_number (path_id r) λ id. with_form r (
    let enabled = is_one (r.form "enabled") in
    let price = form_int r "price_koinu" in
    if enabled && bad_direct_price price
    then machines_error "Direct-pay price must be a positive number of koinu."
    else save_direct_pay sess id now enabled (price_or_zero price))

-- The trail is written however the rotation ends.
pub handle_admin_machine_direct_pay_rotate : Session → Handler
handle_admin_machine_direct_pay_rotate sess r now = with_number (path_id r) λ id. do
  _ ← caught (rotate (row_id id) now)
  done_with sess "machine.direct_pay.rotate" "machine" id "/admin/machines" now
