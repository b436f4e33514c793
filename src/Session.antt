-- ===== src/Session.antt =====
-- internal/auth/session.go: signed session cookies. The encodings of the standard library are
-- parameters: JSON (`marshal`, `unmarshal`), unpadded base64url (`b64`, `unb64`) and HMAC-SHA256
-- with the server's secret (`hmac`). Times are seconds.
pub mod Signed
use dogecade.Common.{
  Bool, List, Option, [], if◌then◌else◌, ltb, none, some, ℕ, ◌*◌, ◌++◌, ◌+◌, ◌==◌, ◌∷◌,
}
use dogecade.Keyring.{bytes_equal}

pub record Session : Type 0 where
  pub user_id : ℕ
  pub is_admin : Bool
  pub expires_at : ℕ

-- Thirty days.
abbrev pub session_ttl : ℕ
session_ttl = 30 * 24 * 60 * 60

-- What stands before and behind the last dot.
abbrev pub behind : ℕ → List ℕ → Option (List ℕ × List ℕ) → Option (List ℕ × List ℕ)
behind c cs (some (front, back)) = some (c ∷ front, back)
behind c cs none = if c == b'.' then some ([], cs) else none

unfoldable pub split_last_dot : List ℕ → Option (List ℕ × List ℕ)
split_last_dot [] = none
split_last_dot (c ∷ cs) = behind c cs (split_last_dot cs)

module _ (marshal : Session → List ℕ) (unmarshal : List ℕ → Option Session) (b64 : List ℕ → List ℕ)
    (unb64 : List ℕ → Option (List ℕ)) (hmac : List ℕ → List ℕ) where
  unfoldable pub encode : Session → List ℕ
  encode sess = let payload = b64 (marshal sess) in payload ++ b'.' ∷ b64 (hmac payload)

  -- The session of a payload, where the signature is the payload's.
  -- The session of a decoded payload.
  abbrev pub read_payload : Option (List ℕ) → Option Session
  read_payload none = none
  read_payload (some payload) = unmarshal payload

  abbrev pub verified : List ℕ → Option (List ℕ) → Option Session
  verified payload none = none
  verified payload (some sig) =
      if bytes_equal sig (hmac payload) then read_payload (unb64 payload) else none

  abbrev pub decode_parts : Option (List ℕ × List ℕ) → Option Session
  decode_parts none = none
  decode_parts (some (payload, sig)) = verified payload (unb64 sig)

  unfoldable pub decode : List ℕ → Option Session
  decode token = decode_parts (split_last_dot token)

  -- The value of the cookie that is set.
  abbrev pub issue : ℕ → Bool → ℕ → List ℕ
  issue user is_admin now =
      encode (record { user_id = user; is_admin = is_admin; expires_at = now + session_ttl })

  abbrev pub unexpired : ℕ → Option Session → Option Session
  unexpired now none = none
  unexpired now (some sess) = if ltb sess.expires_at now then none else some sess

  -- By the cookie's value, if the request has the cookie.
  unfoldable pub from_request : Option (List ℕ) → ℕ → Option Session
  from_request none now = none
  from_request (some token) now = unexpired now (decode token)
