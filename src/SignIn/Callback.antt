-- ===== src/SignIn/Callback.antt =====
-- Who is given a session, and for which account.
use dogecade.Common.{
  Bool, Bool-cases, List, Option, String, [], any, ap, arith, eq_iff, false, find, inl, inr, none,
  refl, some, str_eq, subst, sym, true, ℕ, ◌++◌, ◌∷◌, ◌≡◌, ◌⊎◌,
}
use dogecade.Keyring.Digits.{value}
use dogecade.Store.{
  AllOrNothing, Db, Result, User, World, err, exec_lem, next, next_id, ok, query-AllOrNothing,
  statements,
}
use dogecade.Users.{
  found_or_created, get_or_create_by_subject_hash, has_subject, insert_user, user_row,
}
use dogecade.SignIn.{
  AdminSubject, FlowCookies, IdClaims, IdToken, Provider, Reply, account_of, callback, callback_of,
  claims_of, claims_with, complete, display_name_of, exchange, filled, is_admin_subject, is_state,
  resolve, session_for, signed_in, subject_hash, target_of, verified_claims,
}

-- The account of an identity: the row that was there, as it was, or a new one whose flag says whether
-- the list of admins has the identity.
abbrev pub IsAccount : String → String → Bool → Db → User → Db → Type 0
IsAccount key name is_admin d u d' =
    ((find (has_subject key) d.users ≡ some u) × (d' ≡ d))
    ⊎ ((find (has_subject key) d.users ≡ none)
        × (u ≡ user_row key name is_admin (next_id (λ (u : User). u.id) d.users))
        × (d' ≡ record d { users = d.users ++ u ∷ [] }))

pub get_or_create-IsAccount :
    (key name : String) (is_admin : Bool) (w : World)
    → AllOrNothing w.db
        (IsAccount key name is_admin w.db)
        (get_or_create_by_subject_hash key name is_admin w)
unfolding get_or_create_by_subject_hash insert_user found_or_created
get_or_create-IsAccount key name is_admin w =
    query-AllOrNothing Q _ _ w (go (find (has_subject key) w.db.users) refl)
  where
    Q : User → Db → Type 0
    Q = IsAccount key name is_admin w.db

    go :
        (o : Option User)
        → find (has_subject key) w.db.users ≡ o
        → AllOrNothing w.db Q (found_or_created key name is_admin o (next w))
    go (some u) e = inl (e, refl)
    go none e =
        exec_lem Q (insert_user key name is_admin) (next w)
          (elim (Bool-cases (any (has_subject key) w.db.users)) [
            | inl taken ↦ rw taken refl
            | inr free ↦ rw free (inr (e, refl, refl))
          ])

-- The claims of a token that was asked for with this value against replay.
abbrev pub IsVerified : Provider → String → String → IdClaims → Type 0
IsVerified p code fresh c =
    (raw : String) × (t : IdToken) × (p.token_for code ≡ some (some raw))
    × (p.verify raw ≡ some t)
    × (t.nonce ≡ fresh)
    × (c.issuer ≡ t.issuer)
    × (c.subject ≡ t.subject)

exchange-IsVerified :
    (p : Provider) (code fresh : String) (c : IdClaims)
    → exchange p code fresh ≡ some c
    → IsVerified p code fresh c
unfolding exchange
exchange-IsVerified p code fresh c h = token (p.token_for code) refl h
  where
    extra :
        (raw : String) (t : IdToken) (o : Option (String × String))
        → p.token_for code ≡ some (some raw)
        → p.verify raw ≡ some t
        → str_eq t.nonce fresh ≡ true
        → claims_with t o ≡ some c
        → IsVerified p code fresh c
    extra raw t none e v n h = cc
    extra raw t (some (email, name)) e v n h =
        let same : ◌≡◌ {A = IdClaims}
            (record { issuer = t.issuer; subject = t.subject; email = email; name = name }) c =
          cc in
        (
          raw,
          t,
          e,
          v,
          (eq_iff t.nonce fresh).0 n,
          ap (λ x. x.issuer) (sym same),
          ap (λ x. x.subject) (sym same),
        )

    verified :
        (raw : String) (o : Option IdToken)
        → p.token_for code ≡ some (some raw)
        → p.verify raw ≡ o
        → claims_of fresh o ≡ some c
        → IsVerified p code fresh c
    verified raw none e v h = cc
    verified raw (some t) e v h = elim (Bool-cases (str_eq t.nonce fresh)) [
      | inl n ↦ extra raw t t.extra e v n (rw n at h)
      | inr other ↦ let bad : ◌≡◌ {A = Option IdClaims} none (some c) = rw other at h in cc
    ]

    token :
        (o : Option (Option String))
        → p.token_for code ≡ o
        → verified_claims p fresh o ≡ some c
        → IsVerified p code fresh c
    token none e h = cc
    token (some none) e h = cc
    token (some (some raw)) e h = verified raw (p.verify raw) e refl h

module _ (provider : Option Provider) (hash : List ℕ → String) (admins : List AdminSubject)
    (issue_session : ℕ → Bool → ℕ → List ℕ) where
  -- A session is given for the account of a verified token, to the browser that has the cookies of
  -- this sign-in; without one no table changes.
  abbrev pub SignedInOrNot : FlowCookies → String → String → ℕ → Db → Result Reply × World → Type 0
  SignedInOrNot cookies state code now d (ok (signed_in token target), w) =
      (p : Provider) × (fresh : String) × (c : IdClaims) × (u : User) × (provider ≡ some p)
      × (cookies.state ≡ some state)
      × (str_eq state "" ≡ false)
      × (cookies.nonce ≡ some fresh)
      × IsVerified p code fresh c
      × IsAccount (subject_hash hash c.issuer c.subject) (display_name_of c)
          (is_admin_subject admins c.issuer c.subject) d u w.db
      × (token ≡ issue_session u.id u.is_admin now)
  SignedInOrNot cookies state code now d (answer, w) = w.db ≡ d

  state_lem :
      (o : Option String) (state : String)
      → is_state o state ≡ true
      → (o ≡ some state) × (str_eq state "" ≡ false)
  state_lem none state h = cc
  state_lem (some value) state h =
      let same : str_eq value state ≡ true = ground arith in
      let filled : str_eq value "" ≡ false = ground arith in
      let e : value ≡ state = (eq_iff value state).0 same in
      (ap some e, subst (λ v. str_eq v "" ≡ false) e filled)

  filled_lem : (o : Option String) (s : String) → filled o ≡ some s → o ≡ some s
  filled_lem none s h = cc
  filled_lem (some value) s h = elim (Bool-cases (str_eq value "")) [
    | inl empty ↦ let bad : ◌≡◌ {A = Option String} none (some s) = rw empty at h in cc
    | inr full ↦ rw full at h
  ]

  resolve-SignedInOrNot :
      (p : Provider) (cookies : FlowCookies) (state code fresh target : String) (now : ℕ)
      (o : Option IdClaims) (w : World)
      → provider ≡ some p
      → is_state cookies.state state ≡ true
      → filled cookies.nonce ≡ some fresh
      → exchange p code fresh ≡ o
      → SignedInOrNot cookies state code now w.db
          (resolve provider hash admins issue_session o target now w)
  unfolding statements
  resolve-SignedInOrNot p cookies state code fresh target now none w e s n h = refl
  resolve-SignedInOrNot p cookies state code fresh target now (some c) w e s n h =
      go (account_of provider hash admins issue_session c w) (
        get_or_create-IsAccount (subject_hash hash c.issuer c.subject) (display_name_of c)
          (is_admin_subject admins c.issuer c.subject) w)
    where
      go :
          (r : Result User × World)
          → AllOrNothing w.db
              (IsAccount
                (subject_hash hash c.issuer c.subject)
                (display_name_of c)
                (is_admin_subject admins c.issuer c.subject)
                w.db)
              r
          → SignedInOrNot cookies state code now w.db
              (session_for provider hash admins issue_session r.0 target now r.1)
      go (err x, w') k = k
      go (ok u, w') k =
          let same = state_lem cookies.state state s in
          (
            p,
            fresh,
            c,
            u,
            e,
            same.0,
            same.1,
            filled_lem cookies.nonce fresh n,
            exchange-IsVerified p code fresh c h,
            k,
            refl,
          )

  complete-SignedInOrNot :
      (p : Provider) (cookies : FlowCookies) (state code target : String) (now : ℕ)
      (o : Option String) (w : World)
      → provider ≡ some p
      → is_state cookies.state state ≡ true
      → filled cookies.nonce ≡ o
      → SignedInOrNot cookies state code now w.db
          (complete provider hash admins issue_session p o code target now w)
  complete-SignedInOrNot p cookies state code target now none w e s n = refl
  complete-SignedInOrNot p cookies state code target now (some fresh) w e s n =
      elim (Bool-cases (str_eq code "")) [
        | inl empty ↦ rw empty refl
        | inr full ↦ rw full (
            resolve-SignedInOrNot p cookies state code fresh target now (exchange p code fresh) w e
              s n refl)
      ]

-- Whatever statement fails, the end of a sign-in gives a session only where a provider is
-- configured, the browser's state cookie is not empty and equals the query's, the provider's
-- library has verified a token for the query's code, and the token carries the value of the
-- browser's other cookie. The session is then for the account of the token's issuer and subject:
-- the row that was there, as it was and with its own flag, or a new one that is an admin's exactly
-- if the list has the identity. In every other case no table changes.
pub callback-SignedInOrNot :
    (provider : Option Provider) (hash : List ℕ → String) (admins : List AdminSubject)
    (issue_session : ℕ → Bool → ℕ → List ℕ) (cookies : FlowCookies) (state code : String) (now : ℕ)
    (w : World)
    → SignedInOrNot provider hash admins issue_session cookies state code now w.db
        (callback provider hash admins issue_session cookies state code now w)
unfolding callback
callback-SignedInOrNot provider hash admins issue_session cookies state code now w =
    go provider refl
  where
    go :
        (o : Option Provider)
        → provider ≡ o
        → SignedInOrNot provider hash admins issue_session cookies state code now w.db
            (callback_of provider hash admins issue_session o cookies state code now w)
    go none e = refl
    go (some p) e = elim (Bool-cases (is_state cookies.state state)) [
      | inl right ↦ rw right (
          complete-SignedInOrNot provider hash admins issue_session p cookies state code
            (target_of (filled cookies.target)) now (filled cookies.nonce) w e right refl)
      | inr wrong ↦ rw wrong refl
    ]
