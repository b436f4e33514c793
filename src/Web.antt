-- ===== src/Web.antt =====
-- internal/web and internal/auth: requests, answers, and who may see what. A page is its template
-- and the message on it; what else it shows is read before it is rendered.
pub mod Guard
pub mod Settings
pub mod Machines
pub mod Accounts
pub mod Customer
pub mod Adjust
pub mod Redeem
pub mod Newest
pub mod Status
pub mod Overview
pub mod ReadOnly
use dogecade.Common.{
  Bool, List, Option, String, [], false, if◌then◌else◌, ltb, negsuc, none, pos, some, ℕ, ℤ, ◌%◌,
  ◌++◌, ◌+◌, ◌/◌, ◌∷◌,
}
use dogecade.Store.{
  Action, DepositState, Error, Result, User, caught, err, next, ok, pure, ◌>>=◌, ◌>>◌,
}
use dogecade.Settings.Decimal.{parse_int}
use dogecade.Audit.{log}
use dogecade.Users.{get_by_id}
use dogecade.Session.{Session}
use Prim.Native.Char.{code}

-- What the page of a purchase is told; without a deposit, the state is `none`: waiting.
pub record DepositStatus : Type 0 where
  pub state : Option DepositState
  pub confirmations : ℤ
  pub min_confirmations : ℤ
  pub amount_koinu : ℤ

pub data Response : Type 0 where
  page : String → Option String → Response
  redirect : String → Response
  redirect_to_user : ℤ → Response
  redirect_to_login : Response
  json : DepositStatus → Response
  bad_request not_found forbidden internal_error : Response

-- The UTF-8 of a character's number.
abbrev pub char_bytes : ℕ → List ℕ
char_bytes n =
    let low = 0x80 + n % 0x40 in
    let middle = 0x80 + n / 0x40 % 0x40 in
    let high = 0x80 + n / 0x1000 % 0x40 in
    if ltb n 0x80
    then n ∷ []
    else if ltb n 0x800
    then (0xc0 + n / 0x40) ∷ low ∷ []
    else if ltb n 0x1_0000
    then (0xe0 + n / 0x1000) ∷ middle ∷ low ∷ []
    else (0xf0 + n / 0x4_0000) ∷ high ∷ middle ∷ low ∷ []

abbrev pub bytes : String → List ℕ
bytes String.[] = []
bytes (String.◌∷◌ c s) = char_bytes (code c) ++ bytes s

-- The session that the cookie carries, if it was accepted; the `id` and the `slug` of the path; the
-- query; the form, if it can be read. A field that is not there is the empty text.
pub record Request : Type 0 where
  pub session : Option Session
  pub path_id : String
  pub slug : String
  pub query : String → String
  pub readable : Bool
  pub form : String → String

unfoldable pub path_id : Request → Option ℤ
path_id r = parse_int (bytes r.path_id)

unfoldable pub form_int : Request → String → Option ℤ
form_int r name = parse_int (bytes (r.form name))

-- Ids start at 1, so that 0, like a negative number, is no row's.
abbrev pub row_id : ℤ → ℕ
row_id (pos n) = n
row_id (negsuc n) = 0

abbrev pub Handler : Type 0
Handler = Request → ℕ → Action Response

-- `RequireAuth`: without a session the request is sent to the login page.
abbrev pub with_session : Option Session → (Session → Action Response) → Action Response
with_session none k = pure redirect_to_login
with_session (some sess) k = k sess

unfoldable pub require_auth : (Session → Handler) → Handler
require_auth next r now = with_session r.session (λ sess. next sess r now)

abbrev pub is_admin_row : Result User → Bool
is_admin_row (ok u) = u.is_admin
is_admin_row (err e) = false

-- `RequireAdmin`: the flag in the table decides, not the one in the session.
unfoldable pub require_admin : (Session → Handler) → Handler
require_admin next = require_auth λ sess r now. do
  user ← caught (get_by_id sess.user_id)
  if is_admin_row user then next sess r now else pure forbidden

-- `logAdminAction`: a failure to write the trail is logged, and the request goes on.
unfoldable pub log_admin_action : Session → String → Option (String × ℤ) → ℕ → Action (Unit {0})
log_admin_action sess action target now = do
  _ ← caught (log sess.user_id action target now)
  pure tt

-- A handler that goes on with the answer of a call, or with its error.
abbrev pub branch :
    {A : Type 0} → Result A → (A → Action Response) → (Error → Action Response) → Action Response
branch (ok a) k h = k a
branch (err e) k h = h e

abbrev pub with_number : Option ℤ → (ℤ → Action Response) → Action Response
with_number none k = pure bad_request
with_number (some n) k = k n

-- `ParseForm`.
abbrev pub with_form : Request → Action Response → Action Response
with_form r k = if r.readable then k else pure bad_request

-- What a page shows is read; where that fails the page is not rendered.
abbrev pub render : {A : Type 0} → Action A → String → Option String → Action Response
render load name message = do
  loaded ← caught load
  branch loaded (λ _. pure (page name message)) (λ _. pure internal_error)
