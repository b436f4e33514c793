-- ===== src/Session/Signed.antt =====
-- A session survives its cookie, and only a signed payload is read.
use dogecade.Common.{
  ==_iff, All, Bool, Bool-cases, List, Option, Option-cases, [], ap, arith, false, if◌then◌else◌,
  inl, inr, ltb, none, refl, some, ℕ, ◌++◌, ◌+◌, ◌==◌, ◌∷◌, ◌≡◌, ◌≤◌,
}
use dogecade.Keyring.{bytes_equal}
use dogecade.Keyring.Addresses.{bytes_equal_refl, bytes_equal_sound}
use dogecade.Session.{
  Session, behind, decode, decode_parts, encode, from_request, issue, read_payload, session_ttl,
  split_last_dot, unexpired, verified,
}

abbrev pub HasNoDot : List ℕ → Type 0
HasNoDot = All (λ c. (c == b'.') ≡ false)

-- The last dot stands in front of a text without dots.
split-dotless : (s : List ℕ) → HasNoDot s → split_last_dot s ≡ none
unfolding split_last_dot
split-dotless [] h = refl
split-dotless (c ∷ s) (other, h) = rw (split-dotless s h, other) refl

split-signed :
    (payload sig : List ℕ)
    → HasNoDot sig
    → split_last_dot (payload ++ b'.' ∷ sig) ≡ some (payload, sig)
unfolding split_last_dot
split-signed [] sig h = rw (split-dotless sig h) refl
split-signed (c ∷ payload) sig h = rw (split-signed payload sig h) refl

last :
    (c : ℕ) (s front back : List ℕ)
    → behind c s none ≡ some (front, back)
    → c ∷ s ≡ front ++ b'.' ∷ back
last c s front back h = elim (Bool-cases (c == b'.')) [
  | inr other ↦
      let bad : ◌≡◌ {A = Option (List ℕ × List ℕ)} none (some (front, back)) = rw other at h in cc
  | inl dot ↦
      let f : ◌≡◌ {A = Option (List ℕ × List ℕ)} (some ([], s)) (some (front, back)) =
        rw dot at h in
      let empty : [] ≡ front = cc in
      let rest : s ≡ back = cc in
      let is_dot : c ≡ b'.' = (==_iff c b'.').0 dot in rw (← empty, ← rest, is_dot) refl
]

earlier :
    (c : ℕ) (s front back x y : List ℕ)
    → s ≡ x ++ b'.' ∷ y
    → behind c s (some (x, y)) ≡ some (front, back)
    → c ∷ s ≡ front ++ b'.' ∷ back
earlier c s front back x y e h =
    let f : c ∷ x ≡ front = cc in let g : y ≡ back = cc in rw (← f, ← g, e) refl

-- What was split was joined by a dot.
split-Joined :
    (s front back : List ℕ) → split_last_dot s ≡ some (front, back) → s ≡ front ++ b'.' ∷ back
unfolding split_last_dot
split-Joined [] front back h = cc
split-Joined (c ∷ s) front back h = elim (Option-cases (split_last_dot s)) [
  | inl e ↦ last c s front back (rw e at h)
  | inr ((x, y), e) ↦ earlier c s front back x y (split-Joined s x y e) (rw e at h)
]

module _ (marshal : Session → List ℕ) (unmarshal : List ℕ → Option Session) (b64 : List ℕ → List ℕ)
    (unb64 : List ℕ → Option (List ℕ)) (hmac : List ℕ → List ℕ) where
  -- A cookie that was issued is read back until thirty days after and no longer, for a JSON and a
  -- base64 that can be decoded and a base64 without dots.
  pub from_request-issue :
      ((sess : Session) → unmarshal (marshal sess) ≡ some sess)
      → ((bytes : List ℕ) → unb64 (b64 bytes) ≡ some bytes)
      → ((bytes : List ℕ) → HasNoDot (b64 bytes))
      → (user : ℕ) (is_admin : Bool) (now later : ℕ)
      → from_request marshal unmarshal b64 unb64 hmac
          (some (issue marshal unmarshal b64 unb64 hmac user is_admin now))
          later
        ≡ (if ltb (now + session_ttl) later
            then none
            else some
                (record { user_id = user; is_admin = is_admin; expires_at = now + session_ttl }))
  unfolding from_request decode encode
  from_request-issue json base64 dotless user is_admin now later =
      let sess : Session = record {
        user_id = user;
        is_admin = is_admin;
        expires_at = now + session_ttl;
      } in
      let payload : List ℕ = b64 (marshal sess) in
      rw
        (
          split-signed payload (b64 (hmac payload)) (dotless (hmac payload)),
          base64 (hmac payload),
          bytes_equal_refl (hmac payload),
          base64 (marshal sess),
          json sess,
        )
        refl

  -- A payload, a dot and a signature, and a session that is the payload's.
  abbrev pub Accepted : List ℕ → ℕ → Session → Type 0
  Accepted token now sess =
      (payload : List ℕ) × (sig : List ℕ) × (token ≡ payload ++ b'.' ∷ sig)
      × (unb64 sig ≡ some (hmac payload))
      × (read_payload marshal unmarshal b64 unb64 hmac (unb64 payload) ≡ some sess)
      × (now ≤ sess.expires_at)

  alive_of :
      (now : ℕ) (o : Option Session) (sess : Session)
      → unexpired marshal unmarshal b64 unb64 hmac now o ≡ some sess
      → (o ≡ some sess) × (now ≤ sess.expires_at)
  alive_of now none sess h = cc
  alive_of now (some x) sess h = elim (Bool-cases (ltb x.expires_at now)) [
    | inl over ↦ let bad : ◌≡◌ {A = Option Session} none (some sess) = rw over at h in cc
    | inr lasts ↦
        let met : some x ≡ some sess = rw lasts at h in
        let same : x.expires_at ≡ sess.expires_at = cc in
        let early : now ≤ x.expires_at = ground arith in (met, omega (arith, early, same))
  ]

  verified_of :
      (payload : List ℕ) (o : Option (List ℕ)) (sess : Session)
      → verified marshal unmarshal b64 unb64 hmac payload o ≡ some sess
      → (o ≡ some (hmac payload))
        × (read_payload marshal unmarshal b64 unb64 hmac (unb64 payload) ≡ some sess)
  verified_of payload none sess h = cc
  verified_of payload (some sig) sess h = elim (Bool-cases (bytes_equal sig (hmac payload))) [
    | inr wrong ↦ let bad : ◌≡◌ {A = Option Session} none (some sess) = rw wrong at h in cc
    | inl right ↦ (ap some (bytes_equal_sound sig (hmac payload) right), rw right at h)
  ]

  accepted_parts :
      (now : ℕ) (sess : Session) (payload sig : List ℕ)
      → unexpired marshal unmarshal b64 unb64 hmac now
          (decode_parts marshal unmarshal b64 unb64 hmac (some (payload, sig)))
        ≡ some sess
      → (unb64 sig ≡ some (hmac payload))
        × (read_payload marshal unmarshal b64 unb64 hmac (unb64 payload) ≡ some sess)
        × (now ≤ sess.expires_at)
  accepted_parts now sess payload sig h =
      let (met, alive) =
        alive_of now (decode_parts marshal unmarshal b64 unb64 hmac (some (payload, sig))) sess h in
      let (good, read) = verified_of payload (unb64 sig) sess met in (good, read, alive)

  -- A cookie that is accepted is a payload, a dot and a signature that decodes to the payload's
  -- HMAC; its session is the one of the payload and has not expired.
  pub from_request-Accepted :
      (token : List ℕ) (now : ℕ) (sess : Session)
      → from_request marshal unmarshal b64 unb64 hmac (some token) now ≡ some sess
      → Accepted token now sess
  unfolding from_request decode
  from_request-Accepted token now sess h = elim (Option-cases (split_last_dot token)) [
    | inl e ↦ let bad : ◌≡◌ {A = Option Session} none (some sess) = rw e at h in cc
    | inr ((payload, sig), e) ↦
        let (good, read, alive) = accepted_parts now sess payload sig (rw e at h) in
        (payload, sig, split-Joined token payload sig e, good, read, alive)
  ]
