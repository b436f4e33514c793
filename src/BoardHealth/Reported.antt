-- ===== src/BoardHealth/Reported.antt =====
-- What a check of the boards leaves in the tables.
use dogecade.Common.{
  All, Bool, Bool-cases, List, [], any, ap, arith, count_if, count_if-append, false, if◌then◌else◌,
  inl, inr, ltb, none, not, refl, select, some, subst, suc, sym, true, update_if, ℕ, ◌&&◌, ◌==◌,
  ◌∙◌, ◌∷◌, ◌≡◌,
}
use dogecade.Store.{Alert, AlertKind, Board, Db, Result, World, calm, next_id, ok, statements}
use dogecade.Alerts.{alert_row, is_open}
use dogecade.Alerts.Dedup.{insert_alert_if_not_exists-calm, raised, raised-boards, raised_lem}
use dogecade.Chain.Account.{quiet}
use dogecade.Boards.{has_board_id}
use dogecade.BoardHealth.{
  ack_offline, check_all_boards, check_board, check_boards, offline, set_seen,
}

abbrev pub distinct_boards : List Board → Bool
distinct_boards [] = true
distinct_boards (b ∷ bs) = not (any (has_board_id b.id) bs) && distinct_boards bs

-- The board, by whether it answered: it has been seen and has no open alert, or it has one.
abbrev pub ReportOf : ℕ → ℕ → Db → Bool → Type 0
ReportOf id now d true =
    (count_if (is_open (offline id)) d.alerts ≡ 0)
    × All (λ (x : Board). (x.id == id) ≡ true → x.last_seen_at ≡ some now) d.boards
ReportOf id now d false = ltb 0 (count_if (is_open (offline id)) d.alerts) ≡ true

acked :
    (kind : AlertKind) (now : ℕ) (rows : List Alert)
    → count_if
        (is_open kind)
        (update_if (is_open kind) (λ a. record a { acked_at = some now }) rows)
      ≡ 0
acked kind now [] = refl
acked kind now (a ∷ rows) = ground (arith, acked kind now rows)

acked_other :
    (id other now : ℕ) (rows : List Alert)
    → (other == id) ≡ false
    → count_if
        (is_open (offline id))
        (update_if (is_open (offline other)) (λ a. record a { acked_at = some now }) rows)
      ≡ count_if (is_open (offline id)) rows
acked_other id other now [] h = refl
acked_other id other now (a ∷ rows) h = ground (arith, acked_other id other now rows h)

raised_other :
    (id other now : ℕ) (d : Db)
    → (other == id) ≡ false
    → count_if (is_open (offline id)) (raised (offline other) now d).alerts
      ≡ count_if (is_open (offline id)) d.alerts
raised_other id other now d h =
    elim (Bool-cases (ltb 0 (count_if (is_open (offline other)) d.alerts))) [
      | inl e ↦ rw e refl
      | inr e ↦
          rw e (count_if-append (is_open (offline id)) d.alerts (row ∷ []) ∙ ground (arith, named))
    ]
  where
    row : Alert
    row = alert_row (offline other) none now (next_id (λ (x : Alert). x.id) d.alerts)

    named : is_open (offline id) row ≡ false
    named = ground arith

seen_now :
    (id now : ℕ) (rows : List Board)
    → All
        (λ (x : Board). (x.id == id) ≡ true → x.last_seen_at ≡ some now)
        (update_if (has_board_id id) (λ b. record b { last_seen_at = some now }) rows)
seen_now id now [] = tt
seen_now id now (b ∷ rows) = elim (Bool-cases (b.id == id)) [
  | inl e ↦ rw e (λ _. refl, seen_now id now rows)
  | inr e ↦ rw e (λ k. let wrong : true ≡ false = sym k ∙ e in cc, seen_now id now rows)
]

seen_other :
    (id other now later : ℕ) (rows : List Board)
    → (other == id) ≡ false
    → All (λ (x : Board). (x.id == id) ≡ true → x.last_seen_at ≡ some now) rows
    → All
        (λ (x : Board). (x.id == id) ≡ true → x.last_seen_at ≡ some now)
        (update_if (has_board_id other) (λ b. record b { last_seen_at = some later }) rows)
seen_other id other now later [] h k = tt
seen_other id other now later (b ∷ rows) h k = elim (Bool-cases (b.id == other)) [
  | inl e ↦
      rw e (
        λ m. let wrong : true ≡ false = ground arith in cc,
        seen_other id other now later rows h k.1,
      )
  | inr e ↦ rw e (k.0, seen_other id other now later rows h k.1)
]

module _ (responds : Board → Bool) (clock : Board → ℕ) where
  abbrev pub IsReported : Db → Board → Type 0
  IsReported d b = ReportOf b.id (clock b) d (responds b)

  -- The tables after the check of one board.
  abbrev pub reported : Db → Board → Db
  reported d b =
      if responds b
      then ack_offline (clock b) b.id (set_seen (clock b) b.id d)
      else raised (offline b.id) (clock b) d

  reported-IsReported : (d : Db) (b : Board) → IsReported (reported d b) b
  reported-IsReported d b = elim (Bool-cases (responds b)) [
    | inl up ↦ rw up (acked (offline b.id) (clock b) d.alerts, seen_now b.id (clock b) d.boards)
    | inr down ↦ rw down (raised_lem (offline b.id) (clock b) d)
  ]

  kept :
      (d : Db) (b : Board) (id now : ℕ) (answered : Bool)
      → (b.id == id) ≡ false
      → ReportOf id now d answered
      → ReportOf id now (reported d b) answered
  kept d b id now true h (quiet, boards) = elim (Bool-cases (responds b)) [
    | inl up ↦ rw up (
      acked_other id b.id (clock b) d.alerts h ∙ quiet,
      seen_other id b.id now (clock b) d.boards h boards,
    )
    | inr down ↦ rw down (raised_other id b.id (clock b) d h ∙ quiet, raised_boards)
  ]
    where
      raised_boards :
          All
            (λ (x : Board). (x.id == id) ≡ true → x.last_seen_at ≡ some now)
            (raised (offline b.id) (clock b) d).boards
      raised_boards =
          subst (λ rows. All (λ (x : Board). (x.id == id) ≡ true → x.last_seen_at ≡ some now) rows)
            (sym (raised-boards (offline b.id) (clock b) d)) boards
  kept d b id now false h open_one = elim (Bool-cases (responds b)) [
    | inl up ↦ rw up (ap (ltb 0) (acked_other id b.id (clock b) d.alerts h) ∙ open_one)
    | inr down ↦ rw down (ap (ltb 0) (raised_other id b.id (clock b) d h) ∙ open_one)
  ]

  abbrev all_reported : Db → List Board → Db
  all_reported d [] = d
  all_reported d (b ∷ bs) = all_reported (reported d b) bs

  all_kept :
      (d : Db) (bs : List Board) (x : Board)
      → any (has_board_id x.id) bs ≡ false
      → IsReported d x
      → IsReported (all_reported d bs) x
  all_kept d [] x h r = r
  all_kept d (b ∷ bs) x h r =
      all_kept (reported d b) bs x (ground arith)
        (kept d b x.id (clock x) (responds x) (ground arith) r)

  all_reported-IsReported :
      (d : Db) (bs : List Board)
      → distinct_boards bs ≡ true
      → All (IsReported (all_reported d bs)) bs
  all_reported-IsReported d [] h = tt
  all_reported-IsReported d (b ∷ bs) h = (
    all_kept (reported d b) bs b (ground arith) (reported-IsReported d b),
    all_reported-IsReported (reported d b) bs (ground arith),
  )

  check_board-calm :
      (b : Board) (d : Db) (n : ℕ)
      → (m : ℕ) × (check_board responds clock b (calm d n) ≡ (ok tt, calm (reported d b) m))
  unfolding statements
  check_board-calm b d n = elim (Bool-cases (responds b)) [
    | inl up ↦ (suc (suc n), rw up refl)
    | inr down ↦
        let one = insert_alert_if_not_exists-calm (offline b.id) (clock b) d n in
        (one.0, rw down (rw one.1 refl))
  ]

  check_boards-calm :
      (bs : List Board) (d : Db) (n : ℕ)
      → (m : ℕ) × (check_boards responds clock bs (calm d n) ≡ (ok tt, calm (all_reported d bs) m))
  unfolding check_boards statements
  check_boards-calm [] d n = (n, refl)
  check_boards-calm (b ∷ bs) d n =
      let one = check_board-calm b d n in
      let rest = check_boards-calm bs (reported d b) one.0 in (rest.0, rw one.1 rest.1)

selected :
    (p : Board → Bool) (i : ℕ) (bs : List Board)
    → any (has_board_id i) bs ≡ false
    → any (has_board_id i) (select p bs) ≡ false
selected p i [] h = refl
selected p i (b ∷ bs) h = ground (arith, selected p i bs)

selected-distinct :
    (p : Board → Bool) (bs : List Board)
    → distinct_boards bs ≡ true
    → distinct_boards (select p bs) ≡ true
selected-distinct p [] h = refl
selected-distinct p (b ∷ bs) h = ground (arith, selected p b.id bs, selected-distinct p bs)

-- When no statement fails and the boards have distinct numbers, a check of all boards succeeds; then
-- every active board that answered has been seen at the time it was asked and has no open alert,
-- and for every active board that was silent an alert of its own is open, whatever the check of the
-- others did.
pub check_all_boards-IsReported :
    (responds : Board → Bool) (clock : Board → ℕ) (d : Db) (n : ℕ)
    → distinct_boards d.boards ≡ true
    → ((check_all_boards responds clock (calm d n)).0 ≡ ok tt)
      × All
          (IsReported responds clock (check_all_boards responds clock (calm d n)).1.db)
          (select (λ (b : Board). b.is_active) d.boards)
unfolding check_all_boards statements
check_all_boards-IsReported responds clock d n distinct =
    let active : List Board = select (λ (b : Board). b.is_active) d.boards in
    let run = check_boards-calm responds clock active d (suc n) in
    (
      ap (λ r. r.0) run.1,
      subst (λ (r : Result (Unit {0}) × World). All (IsReported responds clock r.1.db) active)
          (sym run.1)
          (all_reported-IsReported responds clock d active
            (selected-distinct (λ (b : Board). b.is_active) d.boards distinct)),
    )
