-- ===== src/Machines/Slugs.antt =====
-- The slugs of machines stay distinct.
use dogecade.Common.{
  Bool, Bool-cases, List, String, [], any, false, inl, inr, refl, true, update_if, ℕ, ℤ, ◌++◌, ◌∙◌,
  ◌∷◌, ◌≡◌,
}
use dogecade.Store.{Db, Machine, World, exec_keeps, modify, next_id}
use dogecade.Machines.{
  create, distinct_slugs, has_machine_id, has_slug, machine_row, set_active, set_direct_pay, update,
  write_machines,
}

abbrev pub HasDistinctSlugs : Db → Type 0
HasDistinctSlugs d = distinct_slugs d.machines ≡ true

write_machines-HasDistinctSlugs :
    {A : Type 0} (a : A) (rows : List Machine) (d : Db)
    → HasDistinctSlugs d
    → HasDistinctSlugs (write_machines a rows d).1
write_machines-HasDistinctSlugs a rows d h = elim (Bool-cases (distinct_slugs rows)) [
  | inl e ↦ rw e e
  | inr e ↦ rw e h
]

same_slugs :
    (id : ℕ) (f : Machine → Machine) (slug : String) (rows : List Machine)
    → ((m : Machine) → (f m).slug ≡ m.slug)
    → any (has_slug slug) (update_if (has_machine_id id) f rows) ≡ any (has_slug slug) rows
same_slugs id f slug [] h = refl
same_slugs id f slug (m ∷ rows) h = elim (Bool-cases (has_machine_id id m)) [
  | inl e ↦ rw (e, h m, same_slugs id f slug rows h) refl
  | inr e ↦ rw (e, same_slugs id f slug rows h) refl
]

update_machine-HasDistinctSlugs :
    (id : ℕ) (f : Machine → Machine) (rows : List Machine)
    → ((m : Machine) → (f m).slug ≡ m.slug)
    → distinct_slugs (update_if (has_machine_id id) f rows) ≡ distinct_slugs rows
update_machine-HasDistinctSlugs id f [] h = refl
update_machine-HasDistinctSlugs id f (m ∷ rows) h = elim (Bool-cases (has_machine_id id m)) [
  | inl e ↦
      rw (e, h m, same_slugs id f m.slug rows h, update_machine-HasDistinctSlugs id f rows h) refl
  | inr e ↦ rw (e, same_slugs id f m.slug rows h, update_machine-HasDistinctSlugs id f rows h) refl
]

-- Where the slugs are distinct, every edit of the machines leaves them so, whichever statement
-- fails: creating one, renaming one, switching one on or off, and setting its direct pay.
pub edits-HasDistinctSlugs :
    (id : ℕ) (slug name : String) (active : Bool) (price : ℤ) (w : World)
    → HasDistinctSlugs w.db
    → HasDistinctSlugs (create slug name w).1.db
      × HasDistinctSlugs (update id slug name w).1.db
      × HasDistinctSlugs (set_active id active w).1.db
      × HasDistinctSlugs (set_direct_pay id active price w).1.db
unfolding create update set_active set_direct_pay modify
edits-HasDistinctSlugs id slug name active price w h = (
  exec_keeps HasDistinctSlugs _ w h (
      write_machines-HasDistinctSlugs {A = ℕ} fresh
        (w.db.machines ++ machine_row slug name fresh ∷ []) w.db h),
  exec_keeps HasDistinctSlugs _ w h (
      write_machines-HasDistinctSlugs {A = Unit} tt
        (update_if (has_machine_id id) (λ m. record m { slug = slug; name = name }) w.db.machines)
        w.db h),
  exec_keeps HasDistinctSlugs _ w h
      (update_machine-HasDistinctSlugs id _ w.db.machines (λ m. refl) ∙ h),
  direct active,
)
  where
    fresh : ℕ
    fresh = next_id (λ (m : Machine). m.id) w.db.machines

    direct : (b : Bool) → HasDistinctSlugs (set_direct_pay id b price w).1.db
    direct true =
        exec_keeps HasDistinctSlugs _ w h
          (update_machine-HasDistinctSlugs id _ w.db.machines (λ m. refl) ∙ h)
    direct false =
        exec_keeps HasDistinctSlugs _ w h
          (update_machine-HasDistinctSlugs id _ w.db.machines (λ m. refl) ∙ h)
