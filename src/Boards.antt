-- ===== src/Boards.antt =====
-- internal/services/relays.go: relay boards and the binding of machines to their channels.
pub mod Bindings
use dogecade.Common.{
  Bool, List, Option, String, [], any, false, find, if◌then◌else◌, ltb_ℤ, none, order_by, pos,
  pos_part, some, str_eq, text_before, true, update_if, ℕ, ℤ, ◌&&◌, ◌++◌, ◌==◌, ◌∷◌,
}
use dogecade.Store.{
  Action, Board, Db, Machine, Relay, Result, binding_conflict, board_name_taken, constraint_failed,
  err, exec, modify, next_id, ok, query,
}
use dogecade.Machines.{has_machine_id}

abbrev pub has_board_id : ℕ → Board → Bool
has_board_id id b = b.id == id

abbrev pub has_binding_id : ℕ → Relay → Bool
has_binding_id id r = r.id == id

abbrev pub board_row : String → String → ℕ → Board
board_row name base_url id = record {
  id = id;
  name = name;
  base_url = base_url;
  last_seen_at = none;
  is_active = true;
}

-- The INSERT into relay_boards, whose name is UNIQUE.
unfoldable pub create_board : String → String → Action ℕ
create_board name base_url = exec λ d.
    let id = next_id (λ (b : Board). b.id) d.boards in
    if any (λ (b : Board). str_eq b.name name) d.boards
    then (err board_name_taken, d)
    else (ok id, record d { boards = d.boards ++ board_row name base_url id ∷ [] })

pub set_board_active : ℕ → Bool → Action (Unit {0})
set_board_active id active = modify λ d. record d {
  boards = update_if (has_board_id id) (λ b. record b { is_active = active }) d.boards;
}

-- `ORDER BY name`.
unfoldable pub list_boards : Action (List Board)
list_boards = query (λ d. order_by (λ (a b : Board). text_before a.name b.name) d.boards)

abbrev pub relay_row : ℕ → ℕ → ℕ → ℕ → Relay
relay_row machine board number id = record {
  id = id;
  machine_id = machine;
  board_id = board;
  relay_number = number;
  is_active = true;
}

-- A machine's binding that is in force.
abbrev pub binds : ℕ → Relay → Bool
binds machine r = r.machine_id == machine && r.is_active

-- The INSERT into machine_relays: the CHECK on the number, the index that allows a machine one
-- active binding, and the foreign keys, which are checked last.
unfoldable pub insert_relay : ℕ → ℕ → ℤ → Db → Result ℕ × Db
insert_relay machine board number d =
    let id = next_id (λ (r : Relay). r.id) d.relays in
    if ltb_ℤ number (pos 1)
    then (err constraint_failed, d)
    else if any (binds machine) d.relays
    then (err binding_conflict, d)
    else if any (has_machine_id machine) d.machines && any (has_board_id board) d.boards
    then (
      ok id,
      record d { relays = d.relays ++ relay_row machine board (pos_part number) id ∷ [] },
    )
    else (err constraint_failed, d)

pub bind : ℕ → ℕ → ℤ → Action ℕ
bind machine board number = exec (insert_relay machine board number)

pub unbind : ℕ → Action (Unit {0})
unbind id = modify λ d. record d {
  relays = update_if (has_binding_id id) (λ r. record r { is_active = false }) d.relays;
}

-- A row of machine_relays with the names of its machine and its board.
pub record MachineRelay : Type 0 where
  pub relay : Relay
  pub machine_name : String
  pub board_name : String

abbrev pub joined : Relay → Option Machine → Option Board → List MachineRelay
joined r (some m) (some b) = record { relay = r; machine_name = m.name; board_name = b.name } ∷ []
joined r _ _ = []

abbrev pub joins : List Machine → List Board → List Relay → List MachineRelay
joins machines boards [] = []
joins machines boards (r ∷ rs) =
    joined r (find (has_machine_id r.machine_id) machines) (find (has_board_id r.board_id) boards)
    ++ joins machines boards rs

unfoldable pub list_bindings : Action (List MachineRelay)
list_bindings = query λ d.
    order_by (λ a b. text_before a.machine_name b.machine_name) (joins d.machines d.boards d.relays)
