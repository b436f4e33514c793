-- ===== src/Web/Overview.antt =====
-- internal/web/admin_routes.go: the dashboard and the list of deposits. What the node answers is a
-- parameter.
use dogecade.Common.{Bool, List, Option, none, pos, ℕ, ℤ}
use dogecade.Store.{Action, Alert, Board, pure, ◌>>=◌}
use dogecade.Alerts.{list_unacked}
use dogecade.Pool.{counts_by_state}
use dogecade.Boards.{list_boards}
use dogecade.NodeHealth.{NodeState, check_node}
use dogecade.DepositList.{ListedDeposit, RecentRedemption, list_deposits, recent_redemptions}
use dogecade.Session.{Session}
use dogecade.Web.{Handler, render}

pub record AdminDashboard : Type 0 where
  pub node_state : NodeState
  pub pool_counts : ℕ × ℕ × ℕ
  pub boards : List Board
  pub alerts : List Alert
  pub deposits : List ListedDeposit
  pub redemptions : List RecentRedemption

abbrev pub dashboard_recent_limit : ℤ
dashboard_recent_limit = pos 20

abbrev pub deposits_limit : ℤ
deposits_limit = pos 200

unfoldable pub load_dashboard : Option (Option Bool) → ℕ → Action AdminDashboard
load_dashboard answer now = do
  node_state ← check_node answer now
  pool_counts ← counts_by_state
  boards ← list_boards
  alerts ← list_unacked
  deposits ← list_deposits "" dashboard_recent_limit
  redemptions ← recent_redemptions dashboard_recent_limit
  pure (record {
    node_state = node_state;
    pool_counts = pool_counts;
    boards = boards;
    alerts = alerts;
    deposits = deposits;
    redemptions = redemptions;
  })

unfoldable pub handle_admin_dashboard : Option (Option Bool) → Session → Handler
handle_admin_dashboard answer sess r now =
    render (load_dashboard answer now) "admin_dashboard.html" none

unfoldable pub handle_admin_deposits_show : Session → Handler
handle_admin_deposits_show sess r now =
    render (list_deposits (r.query "state") deposits_limit) "admin_deposits.html" none
