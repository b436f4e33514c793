-- ===== src/Users.antt =====
-- internal/services/users.go: accounts, found or created at sign-in, and the merge of a lost one.
pub mod Merge
use dogecade.Common.{
  Bool, Option, String, [], any, find, holds, if◌then◌else◌, none, not, select, some, str_eq,
  update_if, ℕ, ◌&&◌, ◌++◌, ◌==◌, ◌||◌, ◌∷◌,
}
use dogecade.Store.{
  Action, Address, Audit, Db, Entry, Pulse, Result, User, atomically, cannot_merge_same_user,
  constraint_failed, err, exec, next_id, no_rows, ok, or_raise, pure, query, raise_if, ◌>>=◌, ◌>>◌,
}
use dogecade.Pool.{update_addresses}

abbrev pub has_subject : String → User → Bool
has_subject subject u = str_eq u.subject_hash subject

abbrev pub has_user_id : ℕ → User → Bool
has_user_id id u = u.id == id

abbrev pub user_row : String → String → Bool → ℕ → User
user_row subject name is_admin id = record {
  id = id;
  subject_hash = subject;
  display_name = name;
  is_admin = is_admin;
}

-- The INSERT into users, whose subject_hash is UNIQUE.
unfoldable pub insert_user : String → String → Bool → Db → Result User × Db
insert_user subject name is_admin d =
    if any (has_subject subject) d.users
    then (err constraint_failed, d)
    else let u = user_row subject name is_admin (next_id (λ (u : User). u.id) d.users) in
      (ok u, record d { users = d.users ++ u ∷ [] })

-- The row that was found, or a new one.
unfoldable pub found_or_created : String → String → Bool → Option User → Action User
found_or_created subject name is_admin (some u) = pure u
found_or_created subject name is_admin none = exec (insert_user subject name is_admin)

unfoldable pub get_or_create_by_subject_hash : String → String → Bool → Action User
get_or_create_by_subject_hash subject name is_admin = do
  found ← query (λ d. find (has_subject subject) d.users)
  found_or_created subject name is_admin found

unfoldable pub get_by_id : ℕ → Action User
get_by_id id = do found ← query (λ d. find (has_user_id id) d.users); or_raise found no_rows

-- An UPDATE of a column that refers to users, from one user to another: where it affects a row, the
-- other has to exist.
abbrev pub refers_after : Bool → ℕ → Db → Bool
refers_after affected to d = not affected || any (has_user_id to) d.users

abbrev pub entry_of : ℕ → Entry → Bool
entry_of user e = e.user_id == user

abbrev pub address_of : ℕ → Address → Bool
address_of user a = holds a.user_id user

abbrev pub pulse_of : ℕ → Pulse → Bool
pulse_of user p = holds p.user_id user

abbrev pub audit_of : ℕ → Audit → Bool
audit_of user a = a.user_id == user

-- The four statements of a merge. The column of addresses is no foreign key, but an index of the
-- table allows a user one assigned address for each purpose.
unfoldable pub reassign_entries : ℕ → ℕ → Db → Result (Unit {0}) × Db
reassign_entries from to d =
    if refers_after (any (entry_of from) d.entries) to d
    then (
      ok tt,
      record d { entries = update_if (entry_of from) (λ e. record e { user_id = to }) d.entries },
    )
    else (err constraint_failed, d)

unfoldable pub reassign_addresses : ℕ → ℕ → Db → Result ℕ × Db
reassign_addresses from to =
    update_addresses (address_of from) (λ a. record a { user_id = some to })

unfoldable pub reassign_pulses : ℕ → ℕ → Db → Result (Unit {0}) × Db
reassign_pulses from to d =
    if refers_after (any (pulse_of from) d.pulses) to d
    then (
      ok tt,
      record d {
        pulses = update_if (pulse_of from) (λ p. record p { user_id = some to }) d.pulses;
      },
    )
    else (err constraint_failed, d)

-- A row that another table refers to is not deleted.
unfoldable pub delete_user : ℕ → Db → Result (Unit {0}) × Db
delete_user id d =
    if any (has_user_id id) d.users
      && (any (entry_of id) d.entries || any (pulse_of id) d.pulses || any (audit_of id) d.audits)
    then (err constraint_failed, d)
    else (ok tt, record d { users = select (λ u. not (has_user_id id u)) d.users })

unfoldable pub merge : ℕ → ℕ → Action (Unit {0})
merge from to = do
  raise_if (from == to) cannot_merge_same_user
  atomically do
    exec (reassign_entries from to)
    _ ← exec (reassign_addresses from to)
    exec (reassign_pulses from to)
    exec (delete_user from)
