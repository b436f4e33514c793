-- ===== src/Commands.antt =====
-- cmd/dogecade/main.go: the commands beside `serve`, from their arguments behind the flags to what
-- they come to. Reading the environment, opening the database and printing are left out; of a usage
-- or another refusal, its text.
pub mod Again
pub mod Seeding
use dogecade.Common.{
  Bool, List, Option, String, [], count_if, false, find, holds, if◌then◌else◌, length, ltb_ℤ, none,
  not, pos, pos_part, some, str_eq, sub_ℕ, suc, true, zero, ℕ, ℤ, ◌&&◌, ◌||◌, ◌∷◌,
}
use dogecade.Store.{
  Action, Address, Board, Error, Machine, Result, World, binding_conflict, board_name_taken, bound,
  caught, err, is_null, no_rows, ok, or_raise, pure, query, slug_taken, ◌>>=◌, ◌>>◌,
}
use dogecade.Settings.Decimal.{parse_int}
use dogecade.Machines.{create, has_slug}
use dogecade.Chain.Delivery.{listed}
use dogecade.Users.{get_or_create_by_subject_hash}
use dogecade.Boards.{bind, create_board}
use dogecade.AddressBatch.{import_batch, is_no_address}
use dogecade.Relay.{test_fire}
use dogecade.Web.{bytes}
use dogecade.Web.Accounts.{is_purpose, split_lines}
use dogecade.SignIn.{AdminSubject, parse_admin_subjects, subject_hash}

-- How a command ends: done, done already, or with an error, which the shell sees.
pub data Outcome : Type 0 where
  did already refused : Outcome
  broke : Error → Outcome

-- The service's answer, where one error says that there is nothing to do.
abbrev pub outcome_of : {A : Type 0} → (Error → Bool) → Result A → Outcome
outcome_of known (ok a) = did
outcome_of known (err e) = if known e then already else broke e

abbrev pub is_slug_taken : Error → Bool
is_slug_taken slug_taken = true
is_slug_taken _ = false

abbrev pub is_board_name_taken : Error → Bool
is_board_name_taken board_name_taken = true
is_board_name_taken _ = false

abbrev pub is_binding_conflict : Error → Bool
is_binding_conflict binding_conflict = true
is_binding_conflict _ = false

abbrev pub never : Error → Bool
never e = false

-- `machines create <slug> <name>`; further arguments are passed over.
unfoldable pub cmd_machines_create : List String → Action Outcome
cmd_machines_create (slug ∷ name ∷ rest) = do
  created ← caught (create slug name)
  pure (outcome_of is_slug_taken created)
cmd_machines_create _ = pure refused

abbrev pub cmd_machines : List String → Action Outcome
cmd_machines [] = pure refused
cmd_machines (subcommand ∷ args) =
    if str_eq subcommand "create" then cmd_machines_create args else pure refused

-- `relays create-board <name> <base-url>`.
unfoldable pub cmd_relays_create_board : List String → Action Outcome
cmd_relays_create_board (name ∷ base_url ∷ rest) = do
  created ← caught (create_board name base_url)
  pure (outcome_of is_board_name_taken created)
cmd_relays_create_board _ = pure refused

abbrev pub id_of_machine : Option Machine → Option ℕ
id_of_machine none = none
id_of_machine (some m) = some m.id

abbrev pub id_of_board : Option Board → Option ℕ
id_of_board none = none
id_of_board (some b) = some b.id

abbrev pub machine_by_slug : String → Action ℕ
machine_by_slug slug = do
  found ← query (λ d. id_of_machine (find (has_slug slug) d.machines))
  or_raise found no_rows

abbrev pub board_by_name : String → Action ℕ
board_by_name name = do
  found ← query (λ d. id_of_board (find (λ (b : Board). str_eq b.name name) d.boards))
  or_raise found no_rows

abbrev pub bind_named : String → String → ℤ → Action ℕ
bind_named slug name number = do
  machine ← machine_by_slug slug
  board ← board_by_name name
  bind machine board number

abbrev pub bind_numbered : String → String → Option ℤ → Action Outcome
bind_numbered slug name none = pure refused
bind_numbered slug name (some number) = do
  bound ← caught (bind_named slug name number)
  pure (outcome_of is_binding_conflict bound)

-- `relays bind <machine-slug> <board-name> <relay-number>`.
pub cmd_relays_bind : List String → Action Outcome
cmd_relays_bind (slug ∷ name ∷ number ∷ rest) = bind_numbered slug name (parse_int (bytes number))
cmd_relays_bind _ = pure refused

module _ (answers : String → ℕ → World → Bool) (took : World → ℕ) (unrepresentable : ℤ) where
  -- `relays test-fire <machine-slug>`, with the dispatcher's pulse past the queue.
  pub cmd_relays_test_fire : List String → Action Outcome
  cmd_relays_test_fire [] = pure refused
  cmd_relays_test_fire (slug ∷ rest) = do
    fired ← caught (machine_by_slug slug >>= test_fire answers took unrepresentable)
    pure (outcome_of never fired)

  abbrev pub cmd_relays : List String → Action Outcome
  cmd_relays [] = pure refused
  cmd_relays (subcommand ∷ args) =
      if str_eq subcommand "test-fire"
      then cmd_relays_test_fire args
      else if str_eq subcommand "create-board"
      then cmd_relays_create_board args
      else if str_eq subcommand "bind"
      then cmd_relays_bind args
      else pure refused

module _ (hash : List ℕ → String) where
  unfoldable pub seed_all : List AdminSubject → Action (Unit {0})
  seed_all [] = pure tt
  seed_all (s ∷ rest) = do
    _ ← get_or_create_by_subject_hash (subject_hash hash s.issuer s.subject) "Admin" true
    seed_all rest

  -- `users seed-admins`, with the configured list of admins.
  unfoldable pub cmd_users_seed_admins : String → Action Outcome
  cmd_users_seed_admins listed = do
    seeded ← caught (seed_all (parse_admin_subjects listed))
    pure (outcome_of never seeded)

  abbrev pub cmd_users : String → List String → Action Outcome
  cmd_users listed [] = pure refused
  cmd_users listed (subcommand ∷ args) =
      if str_eq subcommand "seed-admins" then cmd_users_seed_admins listed else pure refused

module _ (validate : String → Bool) (range : ℕ → List String → List String) where
  -- How many of a batch the node has, and how many of the lines it has not.
  abbrev pub registered_in : ℕ → Address → Bool
  registered_in batch a = holds a.batch_id batch && not (is_null a.node_registered_at)

  abbrev pub import_summary :
      Option (String → Bool) → String → List String → String → ℕ → Action (ℕ × ℤ)
  import_summary node path addrs purpose now = do
    batch ← import_batch validate range path addrs node purpose now
    registered ← query (λ d. count_if (registered_in batch) d.addresses)
    pure (registered, sub_ℕ (length addrs) registered)

  abbrev pub import_text :
      Option (String → Bool) → String → Option String → String → ℕ → Action Outcome
  import_text importer path none purpose now = pure refused
  import_text importer path (some text) purpose now =
      let addrs = split_lines text in
      if is_no_address addrs then pure refused else do
        imported ← caught (import_summary importer path addrs purpose now)
        pure (outcome_of never imported)

  -- `addresses import <file>`: what the file holds, if it can be read, and the node, if one is
  -- configured, are parameters.
  pub cmd_addresses_import :
      Option (String → Bool) → (String → Option String) → List String → String → ℕ → Action Outcome
  cmd_addresses_import importer read_file [] purpose now = pure refused
  cmd_addresses_import importer read_file (path ∷ rest) purpose now =
      if not (is_purpose purpose)
      then pure refused
      else import_text importer path (read_file path) purpose now

  abbrev pub with_address_made : Option String → Option (List String) → Option (List String)
  with_address_made (some s) (some rest) = some (s ∷ rest)
  with_address_made _ _ = none

  -- The node makes the addresses one by one, until it fails at one.
  abbrev pub generated : (ℕ → Option String) → ℕ → ℕ → Option (List String)
  generated new_address zero i = some []
  generated new_address (suc left) i =
      with_address_made (new_address i) (generated new_address left (suc i))

  abbrev pub import_generated : (String → Bool) → Option (List String) → String → ℕ → Action Outcome
  import_generated takes none purpose now = pure refused
  import_generated takes (some addrs) purpose now = do
    imported ←
        caught (import_batch validate range "addresses generate" addrs (some takes) purpose now)
    pure (outcome_of never imported)

  -- `addresses generate`, with a node that makes addresses and takes them; without one it is
  -- refused.
  pub cmd_addresses_generate :
      Option ((ℕ → Option String) × (String → Bool)) → ℤ → String → ℕ → Action Outcome
  cmd_addresses_generate none count purpose now = pure refused
  cmd_addresses_generate (some (new_address, takes)) count purpose now =
      if not (is_purpose purpose) || ltb_ℤ count (pos 1)
      then pure refused
      else import_generated takes (generated new_address (pos_part count) 0) purpose now
