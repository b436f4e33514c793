-- ===== src/DepositList.antt =====
-- internal/services/deposits.go and internal/web/admin_dashboard.go: two lists for the admin.
use dogecade.Common.{
  Bool, List, Option, String, [], false, find, limit, none, order_desc, select, some, str_eq, true,
  ℤ, ◌||◌, ◌∷◌,
}
use dogecade.Store.{
  Action, Address, Deposit, DepositState, Machine, Pulse, PulseSource, confirmed, credited,
  direct_pay, orphaned, query, seen, token_redemption,
}
use dogecade.Pool.{has_id}
use dogecade.Machines.{has_machine_id}

abbrev pub state_text : DepositState → String
state_text seen = "seen"
state_text confirmed = "confirmed"
state_text credited = "credited"
state_text orphaned = "orphaned"

-- A deposit with the text of its address.
pub record ListedDeposit : Type 0 where
  pub deposit : Deposit
  pub address : String

abbrev pub with_address_of : Deposit → Option Address → List ListedDeposit → List ListedDeposit
with_address_of x none rest = rest
with_address_of x (some a) rest = record { deposit = x; address = a.address } ∷ rest

abbrev pub join_addresses : List Address → List Deposit → List ListedDeposit
join_addresses addresses [] = []
join_addresses addresses (x ∷ xs) =
    with_address_of x (find (has_id x.address_id) addresses) (join_addresses addresses xs)

-- No text is no filter.
abbrev pub passes_filter : String → ListedDeposit → Bool
passes_filter state x = str_eq state "" || str_eq (state_text x.deposit.state) state

-- The most recent first.
unfoldable pub list_deposits : String → ℤ → Action (List ListedDeposit)
list_deposits state n = query λ d. limit n (
    order_desc (λ (x : ListedDeposit). x.deposit.id)
      (select (passes_filter state) (join_addresses d.addresses d.deposits)))

-- A pulse with the name of its machine.
pub record RecentRedemption : Type 0 where
  pub pulse : Pulse
  pub machine_name : String

abbrev pub is_redemption : PulseSource → Bool
is_redemption token_redemption = true
is_redemption direct_pay = false

abbrev pub with_name_of : Pulse → Option Machine → List RecentRedemption → List RecentRedemption
with_name_of p none rest = rest
with_name_of p (some m) rest = record { pulse = p; machine_name = m.name } ∷ rest

abbrev pub join_machines : List Machine → List Pulse → List RecentRedemption
join_machines machines [] = []
join_machines machines (p ∷ ps) =
    with_name_of p (find (has_machine_id p.machine_id) machines) (join_machines machines ps)

unfoldable pub recent_redemptions : ℤ → Action (List RecentRedemption)
recent_redemptions n = query λ d. limit n (
    order_desc (λ (r : RecentRedemption). r.pulse.id)
      (join_machines d.machines (select (λ (p : Pulse). is_redemption p.source) d.pulses)))
