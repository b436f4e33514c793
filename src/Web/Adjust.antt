-- ===== src/Web/Adjust.antt =====
-- What an admin's adjustment of a balance does, from the request to the ledger and the answer.
use dogecade.Common.{
  Bool, Option, String, [], ap, arith, false, if◌then◌else◌, inl, inr, none, refl, some, str_eq,
  subst, true, ℕ, ℤ, ◌++◌, ◌∙◌, ◌∷◌, ◌≡◌, ◌⊎◌,
}
use dogecade.Store.{
  Action, AllOrNothing, Audit, Db, Entry, IsReadOnly, Result, World, bind-Moves, caught, err,
  exec_keeps, next_id, no_change, no_rows, ok, or_raise-Moves, pure, query-Moves, statements, ◌>>=◌,
}
use dogecade.Ledger.{adjust_row, admin_adjust, balance, balance_tx, history, sum_deltas}
use dogecade.Ledger.Balance.{Posted, Posts, admin_adjust-Posted}
use dogecade.Audit.{audit_row, insert_audit, log}
use dogecade.Users.{get_by_id}
use dogecade.Session.{Session}
use dogecade.Web.{
  Request, Response, bad_request, branch, form_int, internal_error, log_admin_action, page, path_id,
  redirect_to_user, render, row_id, with_form, with_number,
}
use dogecade.Web.Accounts.{
  adjust_by, adjust_noted, handle_admin_user_adjust, load_admin_user_detail_data, user_done,
  user_error,
}

abbrev pub is_redirect : Result Response → Bool
is_redirect (ok (redirect_to_user id)) = true
is_redirect _ = false

-- Rendering a page changes no table and is no redirect.
abbrev pub Refused : Db → Result Response × World → Type 0
Refused d (answer, w) = (is_redirect answer ≡ false) × (w.db ≡ d)

render-Refused :
    {A : Type 0} (load : Action A) (name : String) (message : Option String) (w : World)
    → IsReadOnly load
    → Refused w.db (render load name message w)
unfolding ◌>>=◌ caught
render-Refused {A = A} load name message w h = go (load w) (h w)
  where
    go :
        (r : Result A × World)
        → r.1.db ≡ w.db
        → Refused w.db (branch r.0 (λ _. pure (page name message)) (λ _. pure internal_error) r.1)
    go (ok a, w') same = (refl, same)
    go (err e, w') same = (refl, same)

detail-IsReadOnly : (id : ℕ) → IsReadOnly (load_admin_user_detail_data id)
unfolding load_admin_user_detail_data get_by_id balance balance_tx history
detail-IsReadOnly id =
    bind-Moves no_change _ _
      (bind-Moves no_change _ _ (query-Moves no_change _) (λ o. or_raise-Moves no_change o no_rows))
      λ user.
        bind-Moves no_change _ _ (query-Moves no_change _)
          λ funds. bind-Moves no_change _ _ (query-Moves no_change _) λ rows w. refl

user_error-Refused :
    (id : ℤ) (message : String) (w : World) → Refused w.db (user_error id message w)
user_error-Refused id message w =
    render-Refused (load_admin_user_detail_data (row_id id)) "admin_user.html" (some message) w
      (detail-IsReadOnly (row_id id))

insert_audit-entries : (row : ℕ → Audit) (d : Db) → (insert_audit row d).1.entries ≡ d.entries
unfolding insert_audit
insert_audit-entries row d = ground arith

-- The trail is no part of the ledger, and the answer does not depend on it.
user_done_lem :
    (sess : Session) (action : String) (id : ℤ) (now : ℕ) (w : World)
    → ((user_done sess action id now w).0 ≡ ok (redirect_to_user id))
      × ((user_done sess action id now w).1.db.entries ≡ w.db.entries)
unfolding log_admin_action log statements
user_done_lem sess action id now w = (
  refl,
  exec_keeps (λ d. d.entries ≡ w.db.entries)
      (insert_audit (audit_row sess.user_id action (some ("user", id)) now)) w refl
      (insert_audit-entries _ w.db),
)

-- The ledger after the adjustment that the request asks for: one row more, which moves the balance
-- of the user of the path by the form's amount. The form has an amount and a note.
abbrev pub Adjusted : Request → ℕ → Db → Result Response × World → Type 0
Adjusted r now d (answer, w) =
    (id : ℤ) × (delta : ℤ) × (path_id r ≡ some id)
    × (form_int r "delta" ≡ some delta)
    × (str_eq (r.form "note") "" ≡ false)
    × (answer ≡ ok (redirect_to_user id))
    × (w.db.entries
        ≡ d.entries
          ++ adjust_row (row_id id) delta (r.form "note") now (next_id (λ e. e.id) d.entries) ∷ [])
    × Posts (row_id id) delta d w.db

-- The end of a request: it has adjusted a balance, or changed nothing.
abbrev pub AdjustedOrRefused : Request → ℕ → Db → Result Response × World → Type 0
AdjustedOrRefused r now d out = Adjusted r now d out ⊎ Refused d out

module _ (sess : Session) (r : Request) (now : ℕ) (w : World) where
  after_adjust :
      (id delta : ℤ)
      → path_id r ≡ some id
      → form_int r "delta" ≡ some delta
      → str_eq (r.form "note") "" ≡ false
      → AdjustedOrRefused r now w.db (adjust_noted sess id (r.form "note") now delta w)
  unfolding statements
  after_adjust id delta p f n =
      go (admin_adjust (row_id id) delta (r.form "note") now w)
        (admin_adjust-Posted (row_id id) delta (r.form "note") now w)
    where
      row : ℕ → Entry
      row = adjust_row (row_id id) delta (r.form "note") now

      go :
          (out : Result (Unit {0}) × World)
          → AllOrNothing w.db (Posted row (row_id id) delta w.db) out
          → AdjustedOrRefused r now w.db (
              branch out.0
                (λ _. user_done sess "user.adjust" id now)
                (λ _. user_error id "Failed to apply adjustment")
                out.1)
      go (err e, w') same = inr (
          subst (λ d. Refused d (user_error id "Failed to apply adjustment" w')) same
            (user_error-Refused id "Failed to apply adjustment" w'))
      go (ok _, w') (posted, moves) =
          let (answer, kept) = user_done_lem sess "user.adjust" id now w' in
          inl (
            id,
            delta,
            p,
            f,
            n,
            answer,
            kept ∙ ap (λ d. d.entries) posted,
            λ u. ap (sum_deltas u) kept ∙ moves u,
          )

  noted_or_not :
      (id delta : ℤ) (empty : Bool)
      → path_id r ≡ some id
      → form_int r "delta" ≡ some delta
      → str_eq (r.form "note") "" ≡ empty
      → AdjustedOrRefused r now w.db (
          (if empty
              then user_error id "A note is required for manual balance adjustments."
              else adjust_noted sess id (r.form "note") now delta)
            w)
  noted_or_not id delta true p f n = inr (user_error-Refused id _ w)
  noted_or_not id delta false p f n = after_adjust id delta p f n

  adjust_by-Adjusted :
      (id : ℤ) (amount : Option ℤ)
      → path_id r ≡ some id
      → form_int r "delta" ≡ amount
      → AdjustedOrRefused r now w.db (adjust_by sess id (r.form "note") now amount w)
  adjust_by-Adjusted id none p f = inr (user_error-Refused id _ w)
  adjust_by-Adjusted id (some delta) p f = noted_or_not id delta _ p f refl

  form-Adjusted :
      (id : ℤ) (readable : Bool)
      → path_id r ≡ some id
      → AdjustedOrRefused r now w.db (
          (if readable
              then adjust_by sess id (r.form "note") now (form_int r "delta")
              else pure bad_request)
            w)
  form-Adjusted id false p = inr (refl, refl)
  form-Adjusted id true p = adjust_by-Adjusted id _ p refl

  path-Adjusted :
      (o : Option ℤ)
      → path_id r ≡ o
      → AdjustedOrRefused r now w.db (
          with_number o
            (λ id. with_form r (adjust_by sess id (r.form "note") now (form_int r "delta")))
            w)
  path-Adjusted none p = inr (refl, refl)
  path-Adjusted (some id) p = form-Adjusted id r.readable p

-- The handler of an adjustment adds the row that the form asks for and sends the admin back to the
-- user, or it changes no table and shows the page again or an error; whatever statement fails, a
-- redirect means that the balance has moved.
pub handle_admin_user_adjust-Adjusted :
    (sess : Session) (r : Request) (now : ℕ) (w : World)
    → Adjusted r now w.db (handle_admin_user_adjust sess r now w)
      ⊎ ((is_redirect (handle_admin_user_adjust sess r now w).0 ≡ false)
          × ((handle_admin_user_adjust sess r now w).1.db ≡ w.db))
unfolding handle_admin_user_adjust
handle_admin_user_adjust-Adjusted sess r now w = path-Adjusted sess r now w (path_id r) refl
