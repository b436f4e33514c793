-- ===== src/BoardHealth.antt =====
-- internal/relay/health.go: every active board is asked for its status, and what is silent is
-- reported. Which boards answer, and when each is asked, are parameters.
pub mod Reported
use dogecade.Common.{Bool, List, [], if◌then◌else◌, select, some, update_if, ℕ, ◌∷◌}
use dogecade.Store.{
  Action, AlertKind, Board, Db, caught, modify, pure, query, relay_board_offline, ◌>>=◌, ◌>>◌,
}
use dogecade.Alerts.{insert_alert_if_not_exists, is_open}
use dogecade.Boards.{has_board_id}

-- `alertKind`.
abbrev pub offline : ℕ → AlertKind
offline board = relay_board_offline board

abbrev pub set_seen : ℕ → ℕ → Db → Db
set_seen now id d = record d {
  boards = update_if (has_board_id id) (λ b. record b { last_seen_at = some now }) d.boards;
}

abbrev pub ack_offline : ℕ → ℕ → Db → Db
ack_offline now id d = record d {
  alerts = update_if (is_open (offline id)) (λ a. record a { acked_at = some now }) d.alerts;
}

module _ (responds : Board → Bool) (clock : Board → ℕ) where
  -- Errors of the statements are only logged.
  abbrev pub note_answer : Board → Action (Unit {0})
  note_answer b = do
    _ ← caught (modify (set_seen (clock b) b.id))
    _ ← caught (modify (ack_offline (clock b) b.id))
    pure tt

  abbrev pub note_silence : Board → Action (Unit {0})
  note_silence b = do _ ← caught (insert_alert_if_not_exists (offline b.id) (clock b)); pure tt

  abbrev pub check_board : Board → Action (Unit {0})
  check_board b = if responds b then note_answer b else note_silence b

  unfoldable pub check_boards : List Board → Action (Unit {0})
  check_boards [] = pure tt
  check_boards (b ∷ bs) = check_board b >> check_boards bs

  unfoldable pub check_all_boards : Action (Unit {0})
  check_all_boards = do
    boards ← query (λ d. select (λ (b : Board). b.is_active) d.boards)
    check_boards boards
