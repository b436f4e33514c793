-- ===== src/Commands/Seeding.antt =====
-- The admins that the configuration lists have accounts after they have been seeded.
use dogecade.Common.{
  All, Bool-cases, List, Option-cases, String, [], arith, eq_refl, find, if◌then◌else◌, inl, inr,
  none, refl, some, suc, sym, true, ℕ, ◌++◌, ◌∙◌, ◌∷◌, ◌≡◌, ◌⊎◌,
}
use dogecade.Store.{
  Db, Ensures, User, World, bind_Ensures, calm, map_Ensures, ok, statements, weaken,
}
use dogecade.Chain.Delivery.{listed}
use dogecade.Users.{found_or_created, get_or_create_by_subject_hash, has_subject}
use dogecade.SignIn.{AdminSubject, parse_admin_subjects, subject_hash}
use dogecade.SignIn.Callback.{IsAccount, get_or_create-IsAccount}
use dogecade.Commands.{cmd_users_seed_admins, did, never, seed_all}
use dogecade.Commands.Again.{did_lem}

module _ (hash : List ℕ → String) where
  abbrev pub key_of : AdminSubject → String
  key_of s = subject_hash hash s.issuer s.subject

  -- The identity has an account after the command: the one that it had before, as it was, or, where
  -- it had none, one that is an admin's.
  abbrev pub HasAccount : Db → Db → AdminSubject → Type 0
  HasAccount d d' s =
      (u : User) × (find (has_subject (key_of s)) d'.users ≡ some u)
      × ((find (has_subject (key_of s)) d.users ≡ some u)
          ⊎ ((find (has_subject (key_of s)) d.users ≡ none) × (u.is_admin ≡ true)))

  -- No account is lost or changed, and every account that is added is an admin's.
  abbrev pub Grown : Db → Db → Type 0
  Grown d d' =
      (key : String)
      → (find (has_subject key) d'.users ≡ find (has_subject key) d.users)
        ⊎ ((u : User) × (find (has_subject key) d.users ≡ none)
            × (find (has_subject key) d'.users ≡ some u)
            × (u.is_admin ≡ true))

  Grown-same : (d : Db) → Grown d d
  Grown-same d key = inl refl

  Grown-trans : (a b c : Db) → Grown a b → Grown b c → Grown a c
  Grown-trans a b c h g key = elim (h key) [
    | inl e ↦ elim (g key) [
      | inl e' ↦ inl (e' ∙ e)
      | inr (u, missing, there, admin) ↦ inr (u, sym e ∙ missing, there, admin)
    ]
    | inr (u, missing, there, admin) ↦ elim (g key) [
      | inl e' ↦ inr (u, missing, e' ∙ there, admin)
      | inr (v, absent, _, _) ↦ (cc)
    ]
  ]

  find-last :
      (key : String) (us : List User) (u : User)
      → find (has_subject key) (us ++ u ∷ []) ≡ (elim (find (has_subject key) us) [
        | some v ↦ some v
        | none ↦ if has_subject key u then some u else none
      ])
  find-last key [] u = ground arith
  find-last key (v ∷ us) u = ground (arith, find-last key us u)

  abbrev Present : AdminSubject → Db → Type 0
  Present s d = (u : User) × (find (has_subject (key_of s)) d.users ≡ some u)

  one-Ensures :
      (s : AdminSubject) (w : World)
      → Ensures
          (λ _ d'. Present s d' × Grown w.db d')
          (get_or_create_by_subject_hash (key_of s) "Admin" true w)
  one-Ensures s w =
      map_Ensures _ (IsAccount (key_of s) "Admin" true w.db)
        (get_or_create_by_subject_hash (key_of s) "Admin" true w) made
        (weaken (IsAccount (key_of s) "Admin" true w.db) w.db
          (get_or_create_by_subject_hash (key_of s) "Admin" true w)
          (get_or_create-IsAccount (key_of s) "Admin" true w))
    where
      made :
          (u : User) (d' : Db)
          → IsAccount (key_of s) "Admin" true w.db u d'
          → Present s d' × Grown w.db d'
      made u d' (inl (there, same)) = rw same ((u, there), Grown-same w.db)
      made u d' (inr (new, row, same)) = rw same (
        (u, rw (find-last (key_of s) w.db.users u, new, mine) refl),
        λ key. elim (Option-cases (find (has_subject key) w.db.users)) [
          | inr (v, e) ↦ inl (rw (find-last key w.db.users u, e) refl)
          | inl e ↦ elim (Bool-cases (has_subject key u)) [
            | inl h ↦ inr (u, e, rw (find-last key w.db.users u, e, h) refl, rw row refl)
            | inr h ↦ inl (rw (find-last key w.db.users u, e, h) refl)
          ]
        ],
      )
        where
          mine : has_subject (key_of s) u ≡ true
          mine = rw row (eq_refl (key_of s))

  Present-Grown : (s : AdminSubject) (d d' : Db) → Present s d → Grown d d' → Present s d'
  Present-Grown s d d' (u, p) g = elim (g (key_of s)) [
    | inl e ↦ (u, e ∙ p)
    | inr (v, _, there, _) ↦ (v, there)
  ]

  All-HasAccount :
      (ss : List AdminSubject) (d d' : Db)
      → All (λ s. Present s d') ss
      → Grown d d'
      → All (HasAccount d d') ss
  All-HasAccount [] d d' h g = tt
  All-HasAccount (s ∷ ss) d d' ((u, p), h) g = (
    elim (g (key_of s)) [
      | inl e ↦ (u, p, inl (sym e ∙ p))
      | inr (v, missing, there, admin) ↦ (v, there, inr (missing, admin))
    ],
    All-HasAccount ss d d' h g,
  )

  seed-Ensures :
      (ss : List AdminSubject) (w : World)
      → Ensures (λ _ d'. All (λ s. Present s d') ss × Grown w.db d') (seed_all hash ss w)
  unfolding seed_all
  seed-Ensures [] w = (tt, Grown-same w.db)
  seed-Ensures (s ∷ ss) w =
      bind_Ensures (λ _ d'. All (λ s. Present s d') (s ∷ ss) × Grown w.db d')
        (λ _ d'. Present s d' × Grown w.db d') _ _ w (one-Ensures s w)
        (λ u w' h.
          map_Ensures _ (λ _ d'. All (λ s. Present s d') ss × Grown w'.db d') (seed_all hash ss w')
            (λ _ d' g. ((Present-Grown s w'.db d' h.0 g.1, g.0), Grown-trans w.db w'.db d' h.1 g.1))
            (seed-Ensures ss w'))

  seed_again :
      (ss : List AdminSubject) (d : Db) (n : ℕ)
      → All (λ s. Present s d) ss
      → (m : ℕ) × (seed_all hash ss (calm d n) ≡ (ok tt, calm d m))
  unfolding seed_all get_or_create_by_subject_hash found_or_created statements
  seed_again [] d n h = (n, refl)
  seed_again (s ∷ ss) d n ((u, there), h) =
      let rest = seed_again ss d (suc n) h in (rest.0, rw there rest.1)

  abbrev pub IsSeeded : String → Db → Db → Type 0
  IsSeeded listed d d' =
      All (HasAccount d d') (parse_admin_subjects listed)
      × Grown d d'
      × ((n : ℕ) → (m : ℕ) × (cmd_users_seed_admins hash listed (calm d' n) ≡ (ok did, calm d' m)))

-- Once `users seed-admins` has done its work, every identity that the configuration lists has an
-- account: the one that it had before, unchanged, or a new one with the admin's flag. No account is
-- lost or changed, every new one has the flag, and running the command again, with no statement
-- failing, changes nothing.
pub cmd_users_seed_admins-IsSeeded :
    (hash : List ℕ → String) (listed : String) (w : World)
    → (cmd_users_seed_admins hash listed w).0 ≡ ok did
    → IsSeeded hash listed w.db (cmd_users_seed_admins hash listed w).1.db
unfolding cmd_users_seed_admins statements
cmd_users_seed_admins-IsSeeded hash listed w h =
    let subjects : List AdminSubject = parse_admin_subjects listed in
    let done =
      did_lem (λ _ d'. All (λ s. Present hash s d') subjects × Grown hash w.db d') never
        (seed_all hash subjects w) (seed-Ensures hash subjects w) (cc) in
    (
      All-HasAccount hash subjects w.db (seed_all hash subjects w).1.db done.1.0 done.1.1,
      done.1.1,
      λ n.
          let again = seed_again hash subjects (seed_all hash subjects w).1.db n done.1.0 in
          (again.0, rw again.1 refl),
    )
