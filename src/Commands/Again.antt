-- ===== src/Commands/Again.antt =====
-- A command of a set-up script that has succeeded may be run again.
use dogecade.Common.{
  Bool, Bool-cases, List, String, [], any, any-last, arith, eq_iff, eq_refl, false, inl, inr, refl,
  str_eq, suc, true, ℕ, ◌++◌, ◌∷◌, ◌≡◌,
}
use dogecade.Store.{
  Action, Board, Db, Ensures, Error, Machine, Result, World, calm, err, exec-Ensures, next_id, ok,
  statements,
}
use dogecade.Machines.{create, distinct_slugs, has_slug, machine_row}
use dogecade.Boards.{board_row, create_board}
use dogecade.Commands.{
  Outcome, already, broke, cmd_machines_create, cmd_relays_create_board, did, is_board_name_taken,
  is_slug_taken, outcome_of,
}

-- The command has done its work, and done again it finds it done and changes nothing.
abbrev pub IsRepeatable : Action Outcome → World → Type 0
IsRepeatable command w =
    (n : ℕ) → command (calm (command w).1.db n) ≡ (ok already, calm (command w).1.db (suc n))

known_slug :
    (slug name : String) (id : ℕ) (ms : List Machine)
    → any (has_slug slug) ms ≡ true
    → distinct_slugs (ms ++ machine_row slug name id ∷ []) ≡ false
known_slug slug name id [] h = cc
known_slug slug name id (m ∷ ms) h = elim (Bool-cases (str_eq m.slug slug)) [
  | inl e ↦
      let same : m.slug ≡ slug = (eq_iff m.slug slug).0 e in
      let there : any (has_slug m.slug) (ms ++ machine_row slug name id ∷ []) ≡ true =
        rw same (any-last (has_slug slug) ms (machine_row slug name id) (eq_refl slug)) in
      rw there refl
  | inr e ↦ ground (arith, known_slug slug name id ms)
]

created_again :
    (slug name : String) (d : Db) (n : ℕ)
    → any (has_slug slug) d.machines ≡ true
    → cmd_machines_create (slug ∷ name ∷ []) (calm d n) ≡ (ok already, calm d (suc n))
unfolding cmd_machines_create create statements
created_again slug name d n h =
    rw (known_slug slug name (next_id (λ (m : Machine). m.id) d.machines) d.machines h) refl

-- A command that has done its work has had an answer.
pub did_lem :
    {A : Type 0} (Q : A → Db → Type 0) (known : Error → Bool) (r : Result A × World)
    → Ensures Q r
    → outcome_of known r.0 ≡ did
    → (a : A) × Q a r.1.db
did_lem Q known (ok a, w) h e = (a, h)
did_lem Q known (err x, w) h e = elim (Bool-cases (known x)) [
  | inl k ↦ let bad : already ≡ did = rw k at e in cc
  | inr k ↦ let bad : broke x ≡ did = rw k at e in cc
]

create-Ensures :
    (slug name : String) (w : World)
    → Ensures (λ _ d'. any (has_slug slug) d'.machines ≡ true) (create slug name w)
unfolding create
create-Ensures slug name w =
    exec-Ensures _ _ w (elim (Bool-cases (distinct_slugs (w.db.machines ++ row ∷ []))) [
      | inl free ↦ rw free (any-last (has_slug slug) w.db.machines row (eq_refl slug))
      | inr taken ↦ rw taken tt
    ])
  where
    row : Machine
    row = machine_row slug name (next_id (λ (m : Machine). m.id) w.db.machines)

board_again :
    (name url : String) (d : Db) (n : ℕ)
    → any (λ (b : Board). str_eq b.name name) d.boards ≡ true
    → cmd_relays_create_board (name ∷ url ∷ []) (calm d n) ≡ (ok already, calm d (suc n))
unfolding cmd_relays_create_board create_board statements
board_again name url d n h = rw h refl

board-Ensures :
    (name url : String) (w : World)
    → Ensures
        (λ _ d'. any (λ (b : Board). str_eq b.name name) d'.boards ≡ true)
        (create_board name url w)
unfolding create_board
board-Ensures name url w =
    exec-Ensures _ _ w (elim (Bool-cases (any (λ (b : Board). str_eq b.name name) w.db.boards)) [
      | inl taken ↦ rw taken tt
      | inr free ↦
          rw free (any-last (λ (b : Board). str_eq b.name name) w.db.boards row (eq_refl name))
    ])
  where
    row : Board
    row = board_row name url (next_id (λ (b : Board). b.id) w.db.boards)

-- The commands that create a machine and a board may be run again: where each has done its work,
-- whatever was in the tables before, a second run of it in which no statement fails says that the
-- work is done already and changes nothing.
pub created-IsRepeatable :
    (slug name url : String) (w : World)
    → (cmd_machines_create (slug ∷ name ∷ []) w).0 ≡ ok did
    → (cmd_relays_create_board (name ∷ url ∷ []) w).0 ≡ ok did
    → IsRepeatable (cmd_machines_create (slug ∷ name ∷ [])) w
      × IsRepeatable (cmd_relays_create_board (name ∷ url ∷ [])) w
unfolding cmd_machines_create cmd_relays_create_board statements
created-IsRepeatable slug name url w h g = (
  λ n.
      created_again slug name (create slug name w).1.db n
        (did_lem (λ _ d'. any (has_slug slug) d'.machines ≡ true) is_slug_taken (create slug name w)
          (create-Ensures slug name w) (cc)).1,
  λ n.
      board_again name url (create_board name url w).1.db n
        (did_lem (λ _ d'. any (λ (b : Board). str_eq b.name name) d'.boards ≡ true)
          is_board_name_taken (create_board name url w) (board-Ensures name url w) (cc)).1,
)
