-- ===== src/NodeHealth.antt =====
-- internal/chain/health.go: the state of the node. Its answer is a parameter: whether it is still
-- downloading blocks, or an error.
use dogecade.Common.{Bool, Option, false, none, some, true, ℕ}
use dogecade.Store.{Action, AlertKind, caught, node_syncing, node_unreachable, pure, ◌>>=◌, ◌>>◌}
use dogecade.Alerts.{insert_alert_if_not_exists}

pub data NodeState : Type 0 where
  unconfigured unreachable syncing healthy : NodeState

-- The alerts are for a checker with a database; their failures are passed over.
abbrev pub alert_if : Bool → AlertKind → ℕ → Action (Unit {0})
alert_if false kind now = pure tt
alert_if true kind now = do _ ← caught (insert_alert_if_not_exists kind now); pure tt

-- `Check`, with a database or without; without a client, `none`, nothing is asked.
abbrev pub check_with : Bool → Option (Option Bool) → ℕ → Action NodeState
check_with has_db none now = pure unconfigured
check_with has_db (some none) now = do alert_if has_db node_unreachable now; pure unreachable
check_with has_db (some (some true)) now = do alert_if has_db node_syncing now; pure syncing
check_with has_db (some (some false)) now = pure healthy

-- The checker that NewNodeHealthChecker makes has no database.
abbrev pub check_node : Option (Option Bool) → ℕ → Action NodeState
check_node = check_with false
