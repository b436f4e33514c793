-- ===== src/Machines.antt =====
-- internal/services/machines.go: the machines, as the admin edits them. The UNIQUE index on the
-- slug is checked by the statements that write it.
pub mod Slugs
use dogecade.Common.{
  Bool, List, Option, String, [], any, false, find, if◌then◌else◌, ltb_ℤ, none, not, order_by, pos,
  select, some, str_eq, text_before, true, update_if, ℕ, ℤ, ◌&&◌, ◌++◌, ◌==◌, ◌∷◌,
}
use dogecade.Store.{
  Action, Db, Machine, Result, err, exec, machine_not_found, modify, next_id, ok, or_raise, query,
  slug_taken, ◌>>=◌, ◌>>◌,
}

abbrev pub has_machine_id : ℕ → Machine → Bool
has_machine_id id m = m.id == id

abbrev pub has_slug : String → Machine → Bool
has_slug slug m = str_eq m.slug slug

abbrev pub distinct_slugs : List Machine → Bool
distinct_slugs [] = true
distinct_slugs (m ∷ ms) = not (any (has_slug m.slug) ms) && distinct_slugs ms

abbrev pub machine_row : String → String → ℕ → Machine
machine_row slug name id = record {
  id = id;
  slug = slug;
  name = name;
  direct_pay_enabled = false;
  direct_play_price_koinu = none;
  is_active = true;
}

-- A write of the table, undone where two rows have one slug.
abbrev pub write_machines : {A : Type 0} → A → List Machine → Db → Result A × Db
write_machines a rows d =
    if distinct_slugs rows then (ok a, record d { machines = rows }) else (err slug_taken, d)

unfoldable pub create : String → String → Action ℕ
create slug name = exec λ d.
    let id = next_id (λ (m : Machine). m.id) d.machines in
    write_machines id (d.machines ++ machine_row slug name id ∷ []) d

pub update : ℕ → String → String → Action (Unit {0})
update id slug name = exec λ d.
    write_machines tt
      (update_if (has_machine_id id) (λ m. record m { slug = slug; name = name }) d.machines) d

abbrev pub update_machine : ℕ → (Machine → Machine) → Db → Db
update_machine id f d = record d { machines = update_if (has_machine_id id) f d.machines }

pub set_active : ℕ → Bool → Action (Unit {0})
set_active id active = modify (update_machine id (λ m. record m { is_active = active }))

-- The price where it is positive, and NULL where it is not.
abbrev pub price_arg : ℤ → Option ℤ
price_arg price = if ltb_ℤ (pos 0) price then some price else none

-- Disabling leaves the price alone.
pub set_direct_pay : ℕ → Bool → ℤ → Action (Unit {0})
set_direct_pay id false price =
    modify (update_machine id (λ m. record m { direct_pay_enabled = false }))
set_direct_pay id true price = modify (
    update_machine id
      (λ m. record m { direct_pay_enabled = true; direct_play_price_koinu = price_arg price }))

unfoldable pub get_by_slug : String → Action Machine
get_by_slug slug = do
  found ← query (λ d. find (has_slug slug) d.machines)
  or_raise found machine_not_found

pub get_by_id : ℕ → Action Machine
get_by_id id = do
  found ← query (λ d. find (has_machine_id id) d.machines)
  or_raise found machine_not_found

-- `ORDER BY name`.
unfoldable pub list_all : Action (List Machine)
list_all = query (λ d. order_by (λ (a b : Machine). text_before a.name b.name) d.machines)

unfoldable pub list_active : Action (List Machine)
list_active = query λ d.
    order_by (λ (a b : Machine). text_before a.name b.name) (select (λ m. m.is_active) d.machines)
