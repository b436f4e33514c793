-- ===== src/SignIn.antt =====
-- internal/auth: sign-in with an identity provider (handlers.go, provider.go) and the list of admins
-- (admin_subjects.go). The provider's answers, the random tokens and the hash are parameters. A
-- refusal is its status; the text after it is left out.
pub mod Callback
use dogecade.Common.{
  Bool, List, Option, String, [], any, cut, false, if◌then◌else◌, none, not, some, split_at, str_eq,
  trim_left, trim_right, ℕ, ◌&&◌, ◌++◌, ◌==◌, ◌||◌, ◌∷◌,
}
use dogecade.Keyring.Digits.{value}
use dogecade.Store.{Action, Result, User, caught, err, ok, pure, ◌>>=◌, ◌>>◌}
use dogecade.Users.{get_or_create_by_subject_hash}
use dogecade.Web.{bytes}
use Prim.Native.Char.{code}

pub record AdminSubject : Type 0 where
  pub issuer : String
  pub subject : String

abbrev pub is_empty_text : String → Bool
is_empty_text s = str_eq s ""

-- A pair without an issuer or a subject is passed over.
abbrev pub add_subject : Option (String × String) → List AdminSubject → List AdminSubject
add_subject none rest = rest
add_subject (some (issuer, subject)) rest =
    if is_empty_text issuer || is_empty_text subject
    then rest
    else record { issuer = issuer; subject = subject } ∷ rest

-- An empty entry is passed over too: it has no bar.
abbrev pub admin_subjects_in : List String → List AdminSubject
admin_subjects_in [] = []
admin_subjects_in (entry ∷ entries) =
    let rest = admin_subjects_in entries in
    let trimmed = trim_right (trim_left entry) in
    if is_empty_text trimmed then rest else add_subject (cut b'|' trimmed) rest

unfoldable pub parse_admin_subjects : String → List AdminSubject
parse_admin_subjects raw = admin_subjects_in (split_at b',' raw)

abbrev pub is_admin_subject : List AdminSubject → String → String → Bool
is_admin_subject subjects issuer subject =
    any (λ (s : AdminSubject). str_eq s.issuer issuer && str_eq s.subject subject) subjects

pub record IdClaims : Type 0 where
  pub issuer : String
  pub subject : String
  pub email : String
  pub name : String

-- A token that the verifier has accepted; its further claims may not be readable.
pub record IdToken : Type 0 where
  pub issuer : String
  pub subject : String
  pub nonce : String
  pub extra : Option (String × String)

-- What the provider's libraries answer: the address of its login page, the token for a code, which
-- may come without an ID token, and the verified content of an ID token.
pub record Provider : Type 0 where
  pub auth_code_url : String → String → String
  pub token_for : String → Option (Option String)
  pub verify : String → Option IdToken

abbrev pub claims_with : IdToken → Option (String × String) → Option IdClaims
claims_with t none = none
claims_with t (some (email, name)) =
    some (record { issuer = t.issuer; subject = t.subject; email = email; name = name })

abbrev pub claims_of : String → Option IdToken → Option IdClaims
claims_of nonce none = none
claims_of nonce (some t) = if str_eq t.nonce nonce then claims_with t t.extra else none

abbrev pub verified_claims : Provider → String → Option (Option String) → Option IdClaims
verified_claims p nonce none = none
verified_claims p nonce (some none) = none
verified_claims p nonce (some (some raw)) = claims_of nonce (p.verify raw)

unfoldable pub exchange : Provider → String → String → Option IdClaims
exchange p code nonce = verified_claims p nonce (p.token_for code)

-- The three cookies of a sign-in under way, of a request or of an answer.
pub record FlowCookies : Type 0 where
  pub state : Option String
  pub nonce : Option String
  pub target : Option String

-- An answer: a refusal with its status, the way to the provider with the cookies set, or the way
-- back with the value of the session's cookie.
pub data Reply : Type 0 where
  http_error : ℕ → Reply
  to_provider : String → FlowCookies → Reply
  signed_in : List ℕ → String → Reply

-- The first byte is a slash.
abbrev pub is_local : String → Bool
is_local String.[] = false
is_local (String.◌∷◌ c s) = code c == b'/'

abbrev pub or_home : String → String
or_home target = if is_local target then target else "/"

abbrev pub login_with : Provider → Option String → Option String → String → Reply
login_with p none fresh target = http_error 500
login_with p (some state) none target = http_error 500
login_with p (some state) (some fresh) target =
    to_provider (p.auth_code_url state fresh)
      (record { state = some state; nonce = some fresh; target = some (or_home target) })

-- `state` and `fresh` are random tokens, if they could be made; `target` is the query's redirect.
unfoldable pub login : Option Provider → Option String → Option String → String → Reply
login none state fresh target = http_error 503
login (some p) state fresh target = login_with p state fresh target

-- The cookie is there, is not empty and equals the query's.
abbrev pub is_state : Option String → String → Bool
is_state none asked = false
is_state (some value) asked = not (is_empty_text value) && str_eq value asked

abbrev pub filled : Option String → Option String
filled none = none
filled (some value) = if is_empty_text value then none else some value

abbrev pub target_of : Option String → String
target_of none = "/"
target_of (some value) = value

abbrev pub display_name_of : IdClaims → String
display_name_of c = if is_empty_text c.name then c.email else c.name

-- SHA-256 of `issuer|subject` in hexadecimal.
abbrev pub subject_hash : (List ℕ → String) → String → String → String
subject_hash hash issuer subject = hash (bytes issuer ++ b'|' ∷ bytes subject)

module _ (provider : Option Provider) (hash : List ℕ → String) (admins : List AdminSubject)
    (issue_session : ℕ → Bool → ℕ → List ℕ) where
  abbrev pub account_of : IdClaims → Action User
  account_of c =
      get_or_create_by_subject_hash (subject_hash hash c.issuer c.subject) (display_name_of c)
        (is_admin_subject admins c.issuer c.subject)

  -- Issuing a session fails only where json.Marshal fails on it, which it does for no session of a
  -- number, a flag and a time before the year 10000; so here it always succeeds.
  abbrev pub session_for : Result User → String → ℕ → Action Reply
  session_for (err e) target now = pure (http_error 500)
  session_for (ok u) target now = pure (signed_in (issue_session u.id u.is_admin now) target)

  abbrev pub resolve : Option IdClaims → String → ℕ → Action Reply
  resolve none target now = pure (http_error 502)
  resolve (some c) target now = do user ← caught (account_of c); session_for user target now

  abbrev pub complete : Provider → Option String → String → String → ℕ → Action Reply
  complete p none code target now = pure (http_error 400)
  complete p (some nonce) code target now =
      if is_empty_text code
      then pure (http_error 400)
      else resolve (exchange p code nonce) target now

  abbrev pub callback_of : Option Provider → FlowCookies → String → String → ℕ → Action Reply
  callback_of none cookies state code now = pure (http_error 503)
  callback_of (some p) cookies state code now =
      if not (is_state cookies.state state)
      then pure (http_error 400)
      else complete p (filled cookies.nonce) code (target_of (filled cookies.target)) now

  -- `state` and `code` are the query's.
  unfoldable pub callback : FlowCookies → String → String → ℕ → Action Reply
  callback = callback_of provider
