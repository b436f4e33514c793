-- ===== src/Tests/Setup.antt =====
-- Sign-in, the commands and the configuration.
use dogecade.Common.{
  Bool, List, String, [], false, if◌then◌else◌, length, none, refl, some, str_eq, ℕ, ◌==◌, ◌∷◌, ◌≡◌,
}
use dogecade.Store.{ok, statements}
use dogecade.Settings.Decimal.{read_digits, read_unsigned}
use dogecade.Machines.{create}
use dogecade.Users.{found_or_created, get_or_create_by_subject_hash, insert_user}
use dogecade.Boards.{create_board}
use dogecade.SignIn.{
  AdminSubject, FlowCookies, Provider, callback, exchange, parse_admin_subjects, signed_in,
}
use dogecade.SignIn.Callback.{SignedInOrNot, callback-SignedInOrNot}
use dogecade.Commands.{
  cmd_machines_create, cmd_relays_create_board, cmd_users_seed_admins, did, seed_all,
}
use dogecade.Commands.Again.{IsRepeatable, created-IsRepeatable}
use dogecade.Commands.Seeding.{IsSeeded, cmd_users_seed_admins-IsSeeded}
use dogecade.Config.{Net, load, loaded, read_config}
use dogecade.Config.Environment.{LoadedAs, load-LoadedAs}
use dogecade.Tests.{day}

-- A provider whose tokens carry the value "n".
abbrev provider : Provider
provider = record {
  auth_code_url = λ state fresh. state;
  token_for = λ code. some (some code);
  verify = λ raw.
      some (record {
        issuer = "https://id";
        subject = raw;
        nonce = "n";
        extra = some ("mail", "Name");
      });
}

abbrev hashed : List ℕ → String
hashed s = if length s == 12 then "twelve" else "other"

abbrev listed : String
listed = "https://id|a, https://id|b,,bad"

abbrev admins : List AdminSubject
admins =
    record { issuer = "https://id"; subject = "a" }
    ∷ record { issuer = "https://id"; subject = "b" }
    ∷ []

-- The list as it is read.
listed_read : parse_admin_subjects listed ≡ admins
unfolding parse_admin_subjects
listed_read = refl

abbrev flow : FlowCookies
flow = record { state = some "s"; nonce = some "n"; target = none }

abbrev token : ℕ → Bool → ℕ → List ℕ
token user is_admin now = user ∷ now ∷ []

-- The sign-in comes to its end, as an account that is new.
signed_in_new :
    (callback (some provider) hashed admins token flow "s" "a" 50 day).0
    ≡ ok (signed_in (2 ∷ 50 ∷ []) "/")
unfolding callback exchange get_or_create_by_subject_hash found_or_created insert_user statements
signed_in_new = refl

callback-SignedInOrNot_example :
    SignedInOrNot
      (some provider)
      hashed
      admins
      token
      flow
      "s"
      "a"
      50
      day.db
      (callback (some provider) hashed admins token flow "s" "a" 50 day)
callback-SignedInOrNot_example =
    callback-SignedInOrNot (some provider) hashed admins token flow "s" "a" 50 day

machine_made : (cmd_machines_create ("new" ∷ "New" ∷ []) day).0 ≡ ok did
unfolding cmd_machines_create create statements
machine_made = refl

board_made : (cmd_relays_create_board ("New" ∷ "http" ∷ []) day).0 ≡ ok did
unfolding cmd_relays_create_board create_board statements
board_made = refl

created-IsRepeatable_example :
    IsRepeatable (cmd_machines_create ("new" ∷ "New" ∷ [])) day
    × IsRepeatable (cmd_relays_create_board ("New" ∷ "http" ∷ [])) day
created-IsRepeatable_example = created-IsRepeatable "new" "New" "http" day machine_made board_made

seeding_done : (cmd_users_seed_admins hashed listed day).0 ≡ ok did
unfolding cmd_users_seed_admins seed_all parse_admin_subjects get_or_create_by_subject_hash
    found_or_created insert_user statements
seeding_done = refl

cmd_users_seed_admins-IsSeeded_example :
    IsSeeded hashed listed day.db (cmd_users_seed_admins hashed listed day).1.db
cmd_users_seed_admins-IsSeeded_example =
    cmd_users_seed_admins-IsSeeded hashed listed day seeding_done

-- A network that reads every URL as one of the arcade, and an environment without a provider.
abbrev net : Net
net = record {
  parse_url = λ u. some ("https", "arcade");
  split_host_port = λ a. some ("", "8080");
  is_ip = λ h. false;
}

abbrev environment : String → String
environment name =
    if str_eq name "DOGECADE_DB_PATH"
    then "arcade.db"
    else if str_eq name "DOGECADE_BASE_URL"
    then "https://arcade"
    else ""

load_succeeds : load net environment ≡ loaded (read_config environment)
unfolding read_unsigned read_digits
load_succeeds = refl

load-LoadedAs_example : LoadedAs net (read_config environment) (load net environment)
load-LoadedAs_example = load-LoadedAs net environment
