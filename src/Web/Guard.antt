-- ===== src/Web/Guard.antt =====
-- Who gets past the guard of the admin console.
use dogecade.Common.{
  Bool, Bool-cases, Option, false, find, if◌then◌else◌, inl, inr, none, refl, some, true, ℕ, ◌≡◌,
  ◌⊎◌,
}
use dogecade.Store.{
  Action, Db, Error, Result, User, World, caught, next, no_rows, ok, or_raise, pure, statements,
  ◌>>=◌,
}
use dogecade.Users.{get_by_id, has_user_id}
use dogecade.Session.{Session}
use dogecade.Web.{
  Handler, Request, Response, forbidden, is_admin_row, redirect_to_login, require_admin,
  require_auth, with_session,
}

abbrev flag_of : Option User → Bool
flag_of none = false
flag_of (some u) = u.is_admin

-- The flag in the table of users.
abbrev pub is_admin_in : ℕ → Db → Bool
is_admin_in id d = flag_of (find (has_user_id id) d.users)

-- Without a session the request is sent to the login page; without an admin's flag in the table it
-- is refused; otherwise the handler answers it. In the first two cases the tables stay as they are.
abbrev pub Guarded : (Session → Handler) → Request → ℕ → World → Result Response × World → Type 0
Guarded next_handler r now w out =
    (out ≡ (ok redirect_to_login, w))
    ⊎ (out ≡ (ok forbidden, next w))
    ⊎ ((sess : Session) × (r.session ≡ some sess)
        × (is_admin_in sess.user_id w.db ≡ true)
        × (out ≡ next_handler sess r now (next w)))

guarded_row :
    (o : Option User) (e : Error) (w : World) (k : Action Response)
    → (((caught (or_raise o e) >>= λ user. if is_admin_row user then k else pure forbidden) w)
        ≡ (ok forbidden, w))
      ⊎ ((flag_of o ≡ true)
          × (((caught (or_raise o e) >>= λ user. if is_admin_row user then k else pure forbidden) w)
              ≡ k w))
unfolding statements
guarded_row none e w k = inl refl
guarded_row (some u) e w k = elim (Bool-cases u.is_admin) [
  | inl admin ↦ inr (admin, rw admin refl)
  | inr other ↦ inl (rw other refl)
]

-- A request to the admin console reaches its handler only with the session of a user whose row has
-- the admin's flag at that moment, whatever flag the session has; every other request changes no
-- table and is sent to the login page or refused.
pub require_admin-Guarded :
    (next_handler : Session → Handler) (r : Request) (now : ℕ) (w : World)
    → Guarded next_handler r now w (require_admin next_handler r now w)
unfolding require_admin require_auth get_by_id statements
require_admin-Guarded next_handler r now w = go r.session refl
  where
    go :
        (s : Option Session)
        → r.session ≡ s
        → Guarded next_handler r now w (
            with_session s
              (λ sess. do
                user ← caught (get_by_id sess.user_id)
                if is_admin_row user then next_handler sess r now else pure forbidden)
              w)
    go none e = inl refl
    go (some sess) e = elim (Bool-cases (w.fails w.count)) [
      | inl down ↦ inr (inl (rw down refl))
      | inr up ↦
          elim (guarded_row (find (has_user_id sess.user_id) w.db.users) no_rows (next w)
            (next_handler sess r now)) [
              | inl denied ↦ inr (inl (rw up denied))
              | inr (admin, passed) ↦ inr (inr (sess, e, admin, rw up passed))
            ]
    ]
