-- ===== src/Web/Customer.antt =====
-- internal/web/customer_routes.go and buy_status.go: the pages of players. Parameters are the
-- node's state, as the checker reports it, and whether a text can be drawn as a QR code.
use dogecade.Common.{
  Bool, List, Option, String, [], any, false, holds, if◌then◌else◌, none, order_desc, pos, select,
  some, str_eq, true, ℕ, ℤ, ◌&&◌, ◌==◌, ◌||◌, ◌∷◌,
}
use dogecade.Store.{
  Action, Address, Deposit, Error, Machine, Result, caught, err, insufficient_balance,
  machine_not_active, machine_not_found, ok, pool_empty, pure, query, same_purpose, token_deposit,
  ◌>>=◌,
}
use dogecade.Settings.{get_min_confirmations}
use dogecade.Ledger.{balance, history}
use dogecade.Redemption.{redeem}
use dogecade.Purchase.{start_purchase}
use dogecade.DirectPay.{active_address}
use dogecade.Machines.{get_by_slug, list_active}
use dogecade.Session.{Session}
use dogecade.Web.{
  DepositStatus, Handler, Request, Response, bad_request, branch, internal_error, json, not_found,
  page, render,
}

abbrev pub balance_if : Option Session → Action ℤ
balance_if none = pure (pos 0)
balance_if (some sess) = balance sess.user_id

pub handle_index : Handler
handle_index r now = render (balance_if r.session) "index.html" none

pub handle_machines_list : Handler
handle_machines_list r now = render list_active "machines.html" none

abbrev pub or_none : {A : Type 0} → Result (Option A) → Option A
or_none (ok o) = o
or_none (err _) = none

-- A look-up that fails leaves the part of the page out.
unfoldable pub direct_pay_page_fields : Machine → Action (Option Address)
direct_pay_page_fields m =
    if m.direct_pay_enabled
    then (do active ← caught (active_address m.id); pure (or_none active))
    else pure none

abbrev pub is_missing : Error → Bool
is_missing machine_not_found = true
is_missing _ = false

abbrev pub slug_error : Error → Action Response
slug_error e = if is_missing e then pure not_found else pure internal_error

abbrev pub show_machine : Request → Machine → Action Response
show_machine r m = do
  funds ← caught (balance_if r.session)
  branch funds (λ _. do _ ← direct_pay_page_fields m; pure (page "machine.html" none))
      (λ _. pure internal_error)

pub handle_machine_show : Handler
handle_machine_show r now = do
  found ← caught (get_by_slug r.slug)
  branch found (show_machine r) slug_error

-- The message of a refusal; a machine that is gone has no page.
abbrev pub redeem_message : Error → Option String
redeem_message insufficient_balance =
    some "You don't have any tokens left. Buy more to keep playing."
redeem_message machine_not_active = some "This machine is currently disabled."
redeem_message machine_not_found = none
redeem_message _ = some "Something went wrong redeeming your token. Please try again."

-- The balance is shown where it can be read.
abbrev pub machine_page : Session → Option String → Action Response
machine_page sess message = do _ ← caught (balance sess.user_id); pure (page "machine.html" message)

abbrev pub redeem_refused : Session → Option String → Action Response
redeem_refused sess none = pure not_found
redeem_refused sess (some message) = machine_page sess (some message)

abbrev pub redeem_at : Session → ℕ → Machine → Action Response
redeem_at sess now m = do
  _ ← direct_pay_page_fields m
  redeemed ← caught (redeem sess.user_id m.id now)
  branch redeemed (λ _. machine_page sess none) (λ e. redeem_refused sess (redeem_message e))

-- Without a message the page says that the token was redeemed.
unfoldable pub handle_machine_redeem : Session → Handler
handle_machine_redeem sess r now = do
  found ← caught (get_by_slug r.slug)
  branch found (redeem_at sess now) slug_error

abbrev pub node_state_pause_reason : String → String
node_state_pause_reason state =
    if str_eq state "unreachable"
    then "We can't reach the Dogecoin node right now, so incoming payments can't be tracked. Please try again shortly."
    else if str_eq state "syncing"
    then "The arcade's Dogecoin node is still syncing the blockchain. Buying is paused until it catches up."
    else if str_eq state "unconfigured" || str_eq state ""
    then "The arcade's Dogecoin node isn't configured yet. Please check back later."
    else ""

abbrev pub purchase_error : Error → Action Response
purchase_error pool_empty = pure (
    page "buy.html"
      (some "We're out of available deposit addresses right now. An admin has been alerted."))
purchase_error _ = pure internal_error

module _ (node_state : String) (draws : String → Bool) where
  abbrev pub buy_page : String → Action Response
  buy_page address = if draws address then pure (page "buy.html" none) else pure internal_error

  pub handle_buy : Session → Handler
  handle_buy sess r now =
      if str_eq node_state "ok"
      then (do
        started ← caught (start_purchase sess.user_id now)
        branch started buy_page purchase_error)
      else pure (page "buy.html" (some (node_state_pause_reason node_state)))

-- `SELECT COUNT(*) > 0` over the addresses of a user for purchases.
abbrev pub bought_at : String → ℕ → Address → Bool
bought_at address user a =
    str_eq a.address address && holds a.user_id user && same_purpose a.purpose token_deposit

unfoldable pub address_belongs_to_user : String → ℕ → Action Bool
address_belongs_to_user address user = query (λ d. any (bought_at address user) d.addresses)

abbrev pub paid_to : String → List Address → Deposit → Bool
paid_to address rows x = any (λ a. a.id == x.address_id && str_eq a.address address) rows

abbrev pub status_of : ℤ → List Deposit → DepositStatus
status_of min_conf [] = record {
  state = none;
  confirmations = pos 0;
  min_confirmations = min_conf;
  amount_koinu = pos 0;
}
status_of min_conf (x ∷ rest) = record {
  state = some x.state;
  confirmations = x.confirmations;
  min_confirmations = min_conf;
  amount_koinu = x.amount_koinu;
}

-- The newest deposit to the address.
unfoldable pub latest_deposit_status : String → ℤ → Action DepositStatus
latest_deposit_status address min_conf = query λ d.
    status_of min_conf
      (order_desc (λ (x : Deposit). x.id) (select (paid_to address d.addresses) d.deposits))

abbrev pub status_for : String → ℤ → Action Response
status_for address min_conf = do
  status ← caught (latest_deposit_status address min_conf)
  branch status (λ x. pure (json x)) (λ _. pure internal_error)

abbrev pub owned_status : String → Bool → Action Response
owned_status address false = pure not_found
owned_status address true = do
  min_conf ← caught get_min_confirmations
  branch min_conf (status_for address) (λ _. pure internal_error)

unfoldable pub handle_buy_status : Session → Handler
handle_buy_status sess r now =
    let address = r.query "address" in
    if str_eq address "" then pure bad_request else (do
      owned ← caught (address_belongs_to_user address sess.user_id)
      branch owned (owned_status address) (λ _. pure internal_error))

pub handle_history : Session → Handler
handle_history sess r now = render (history sess.user_id (pos 100)) "history.html" none
