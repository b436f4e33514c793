-- ===== src/Web/ReadOnly.antt =====
-- The pages of the admin console that are only looked at.
use dogecade.Common.{Bool, Option, String, false, none, refl, some, true, ℕ}
use dogecade.Store.{
  Action, IsReadOnly, Result, bind-Moves, caught-Moves, err, no_change, ok, pure, query-Moves,
  ◌>>=◌, ◌>>◌,
}
use dogecade.Alerts.{list_unacked}
use dogecade.Pool.{counts_by_state}
use dogecade.Boards.{list_boards}
use dogecade.NodeHealth.{check_node}
use dogecade.DepositList.{list_deposits, recent_redemptions}
use dogecade.Session.{Session}
use dogecade.Web.{Request, branch, internal_error, page, render}
use dogecade.Web.Overview.{handle_admin_dashboard, handle_admin_deposits_show, load_dashboard}

render-IsReadOnly :
    {A : Type 0} (load : Action A) (name : String) (message : Option String)
    → IsReadOnly load
    → IsReadOnly (render load name message)
render-IsReadOnly load name message h =
    bind-Moves no_change _ _ (caught-Moves no_change load h) (λ r. answered r)
  where
    answered :
        {A : Type 0} (r : Result A)
        → IsReadOnly (branch r (λ _. pure (page name message)) (λ _. pure internal_error))
    answered (ok a) w = refl
    answered (err e) w = refl

-- The checker that the server makes writes no alert, whatever the node answers.
check_node-IsReadOnly :
    (answer : Option (Option Bool)) (now : ℕ) → IsReadOnly (check_node answer now)
unfolding ◌>>=◌ ◌>>◌
check_node-IsReadOnly none now w = refl
check_node-IsReadOnly (some none) now w = refl
check_node-IsReadOnly (some (some true)) now w = refl
check_node-IsReadOnly (some (some false)) now w = refl

load_dashboard-IsReadOnly :
    (answer : Option (Option Bool)) (now : ℕ) → IsReadOnly (load_dashboard answer now)
unfolding load_dashboard counts_by_state list_boards list_unacked list_deposits recent_redemptions
load_dashboard-IsReadOnly answer now =
    bind-Moves no_change _ _ (check_node-IsReadOnly answer now) λ state.
      bind-Moves no_change _ _ (query-Moves no_change _) λ counts.
        bind-Moves no_change _ _ (query-Moves no_change _) λ boards.
          bind-Moves no_change _ _ (query-Moves no_change _) λ alerts.
            bind-Moves no_change _ _ (query-Moves no_change _)
              λ deposits. bind-Moves no_change _ _ (query-Moves no_change _) λ redemptions w. refl

-- The dashboard and the list of deposits change no table, for every answer of the node and every
-- failing statement.
overview-IsReadOnly :
    (answer : Option (Option Bool)) (sess : Session) (r : Request) (now : ℕ)
    → IsReadOnly (handle_admin_dashboard answer sess r now)
      × IsReadOnly (handle_admin_deposits_show sess r now)
unfolding handle_admin_dashboard handle_admin_deposits_show list_deposits
overview-IsReadOnly answer sess r now = (
  render-IsReadOnly _ _ _ (load_dashboard-IsReadOnly answer now),
  render-IsReadOnly _ _ _ (query-Moves no_change _),
)
