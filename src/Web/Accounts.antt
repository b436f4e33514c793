-- ===== src/Web/Accounts.antt =====
-- internal/web/admin_routes.go: addresses, alerts and users.
use dogecade.Common.{
  Bool, List, Option, String, [], false, if◌then◌else◌, none, not, pos, some, split_at, str_eq,
  trim_left, trim_right, ℕ, ℤ, ◌==◌, ◌||◌, ◌∷◌,
}
use dogecade.Store.{Action, Address, AddressState, Batch, Entry, User, caught, pure, ◌>>=◌, ◌>>◌}
use dogecade.Alerts.{ack}
use dogecade.Ledger.{admin_adjust, balance, history}
use dogecade.Pool.{counts_by_state, list_batches, list_by_state, retire}
use dogecade.Users.{get_by_id, merge}
use dogecade.Users.Merge.{merged}
use dogecade.AddressBatch.{import_batch, is_no_address}
use dogecade.Session.{Session}
use dogecade.Web.{
  Handler, Response, branch, form_int, log_admin_action, not_found, page, path_id, redirect_to_user,
  render, row_id, with_form, with_number,
}
use dogecade.Web.Machines.{attempt, done_with}
use Prim.Native.Char.{code}

pub record AddressesData : Type 0 where
  pub counts : ℕ × ℕ × ℕ
  pub pool : List Address
  pub retired : List Address
  pub batches : List Batch

unfoldable pub load_admin_addresses_data : Action AddressesData
load_admin_addresses_data = do
  counts ← counts_by_state
  in_pool ← list_by_state AddressState.pool (pos 100)
  gone ← list_by_state AddressState.retired (pos 50)
  loads ← list_batches
  pure (record { counts = counts; pool = in_pool; retired = gone; batches = loads })

abbrev pub addresses_page : Option String → Action Response
addresses_page message = render load_admin_addresses_data "admin_addresses.html" message

pub handle_admin_addresses_show : Session → Handler
handle_admin_addresses_show sess r now = addresses_page none

-- The parts between the line feeds.
abbrev pub split_at_newlines : String → List String
split_at_newlines = split_at b'\n'

abbrev pub is_comment : String → Bool
is_comment String.[] = false
is_comment (String.◌∷◌ c s) = code c == b'#'

abbrev pub kept_lines : List String → List String
kept_lines [] = []
kept_lines (line ∷ rest) =
    let others = kept_lines rest in
    let trimmed = trim_right (trim_left line) in
    if str_eq trimmed "" || is_comment trimmed then others else trimmed ∷ others

-- One address for each line, without blank lines and comments.
abbrev pub split_lines : String → List String
split_lines s = kept_lines (split_at_newlines s)

abbrev pub or_token_deposit : String → String
or_token_deposit s = if str_eq s "" then "token_deposit" else s

abbrev pub is_purpose : String → Bool
is_purpose s = str_eq s "token_deposit" || str_eq s "machine_direct"

module _ (validate : String → Bool) (range : ℕ → List String → List String)
    (node : Option (String → Bool)) where
  abbrev pub import_from : Session → ℕ → List String → String → Action Response
  import_from sess now addrs purpose = do
    imported ← caught (import_batch validate range "admin console upload" addrs node purpose now)
    branch imported
        (λ batch. done_with sess "addresses.import" "batch" (pos batch) "/admin/addresses" now)
        (λ _. addresses_page (some "Import failed"))

  pub handle_admin_addresses_import : Session → Handler
  handle_admin_addresses_import sess r now = with_form r (
      let addrs = split_lines (r.form "addresses") in
      let purpose = or_token_deposit (r.form "purpose") in
      if is_no_address addrs
      then addresses_page (some "Paste at least one address (one per line).")
      else if not (is_purpose purpose)
      then addresses_page (some "Invalid purpose.")
      else import_from sess now addrs purpose)

pub handle_admin_address_retire : Session → Handler
handle_admin_address_retire sess r now =
    with_number (path_id r) λ id.
      attempt sess (retire (row_id id) now) "address.retire" "address" id "/admin/addresses" now

pub handle_admin_alert_ack : Session → Handler
handle_admin_alert_ack sess r now =
    with_number (path_id r)
      λ id. attempt sess (ack (row_id id) now) "alert.ack" "alert" id "/admin" now

pub record UserDetail : Type 0 where
  pub target : User
  pub funds : ℤ
  pub rows : List Entry

unfoldable pub load_admin_user_detail_data : ℕ → Action UserDetail
load_admin_user_detail_data id = do
  user ← get_by_id id
  funds ← balance id
  rows ← history id (pos 100)
  pure (record { target = user; funds = funds; rows = rows })

pub handle_admin_user_show : Session → Handler
handle_admin_user_show sess r now = with_number (path_id r) λ id. do
  loaded ← caught (load_admin_user_detail_data (row_id id))
  branch loaded (λ _. pure (page "admin_user.html" none)) (λ _. pure not_found)

abbrev pub user_error : ℤ → String → Action Response
user_error id message =
    render (load_admin_user_detail_data (row_id id)) "admin_user.html" (some message)

-- The trail of a change to a user, and back to the user.
abbrev pub user_done : Session → String → ℤ → ℕ → Action Response
user_done sess action id now = do
  log_admin_action sess action (some ("user", id)) now
  pure (redirect_to_user id)

abbrev pub adjust_noted : Session → ℤ → String → ℕ → ℤ → Action Response
adjust_noted sess id note now delta = do
  adjusted ← caught (admin_adjust (row_id id) delta note now)
  branch adjusted (λ _. user_done sess "user.adjust" id now)
      (λ _. user_error id "Failed to apply adjustment")

abbrev pub adjust_by : Session → ℤ → String → ℕ → Option ℤ → Action Response
adjust_by sess id note now none =
    user_error id "Delta must be an integer (positive to credit, negative to debit)."
adjust_by sess id note now (some delta) =
    if str_eq note ""
    then user_error id "A note is required for manual balance adjustments."
    else adjust_noted sess id note now delta

unfoldable pub handle_admin_user_adjust : Session → Handler
handle_admin_user_adjust sess r now =
    with_number (path_id r)
      λ id. with_form r (adjust_by sess id (r.form "note") now (form_int r "delta"))

abbrev pub merge_from : Session → ℤ → ℕ → Option ℤ → Action Response
merge_from sess to now none = user_error to "Enter the numeric ID of the account to merge from."
merge_from sess to now (some from) = do
  merged ← caught (merge (row_id from) (row_id to))
  branch merged (λ _. user_done sess "user.merge" to now) (λ _. user_error to "Merge failed")

pub handle_admin_user_merge : Session → Handler
handle_admin_user_merge sess r now =
    with_number (path_id r) λ to. with_form r (merge_from sess to now (form_int r "from_id"))
