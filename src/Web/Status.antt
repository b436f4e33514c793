-- ===== src/Web/Status.antt =====
-- Whose deposits a player is told of.
use dogecade.Common.{
  All, Bool, Bool-cases, List, String, [], any, arith, eq_iff, false, if◌then◌else◌, inl, inr, none,
  pos, refl, some, str_eq, subst, true, ℕ, ℤ, ◌&&◌, ◌==◌, ◌∷◌, ◌≡◌, ◌≤◌, ◌⊎◌,
}
use dogecade.Store.{
  Address, AllOrNothing, Db, Deposit, Result, World, caught, err, next, ok, pure, statements,
  token_deposit, ◌>>=◌,
}
use dogecade.Settings.{get_min_confirmations, key_min_confirmations}
use dogecade.Settings.RoundTrip.{get_min_confirmations_lem, number_in}
use dogecade.Purchase.Start.{holds_lem, purpose_lem}
use dogecade.Session.{Session}
use dogecade.Web.{DepositStatus, Request, Response, bad_request, branch, internal_error, json}
use dogecade.Web.Customer.{
  address_belongs_to_user, bought_at, handle_buy_status, latest_deposit_status, owned_status,
  paid_to, status_for, status_of,
}
use dogecade.Web.Newest.{All-map, IsFirst, IsNewest, Some, Some-any, any-Some, order_desc-IsFirst}

-- The address belongs to the player, for purchases.
abbrev pub IsOwned : String → ℕ → Db → Type 0
IsOwned address user d =
    Some
      (λ (a : Address).
        (a.address ≡ address) × (a.user_id ≡ some user) × (a.purpose ≡ token_deposit))
      d.addresses

-- The deposit is one to the address.
abbrev pub IsPaidTo : String → Db → Deposit → Type 0
IsPaidTo address d x =
    Some (λ (a : Address). (a.id ≡ x.address_id) × (a.address ≡ address)) d.addresses

-- The status tells of the deposit to the address with the greatest number, or, where there is none,
-- that there is none.
abbrev pub Tells : String → Db → ℤ → DepositStatus → Type 0
Tells address d min_conf status =
    (All (λ x. ¬ IsPaidTo address d x) d.deposits
      × (status ≡ record {
        state = none;
        confirmations = pos 0;
        min_confirmations = min_conf;
        amount_koinu = pos 0;
      }))
    ⊎ ((x : Deposit) × IsNewest (λ (y : Deposit). y.id) (IsPaidTo address d) x d.deposits
        × (status ≡ record {
          state = some x.state;
          confirmations = x.confirmations;
          min_confirmations = min_conf;
          amount_koinu = x.amount_koinu;
        }))

-- A status is told for the player's own address only, with the setting in force.
abbrev pub IsTold : Session → String → Db → Result Response → Type 0
IsTold sess address d (ok (json status)) =
    IsOwned address sess.user_id d
    × ((min_conf : ℤ) × (number_in key_min_confirmations (pos 1) d ≡ ok min_conf)
        × Tells address d min_conf status)
IsTold sess address d _ = Unit {0}

abbrev pub ToldOwn : Session → String → Db → Result Response × World → Type 0
ToldOwn sess address d (answer, w) = (w.db ≡ d) × IsTold sess address d answer

bought_at-IsOwned :
    (address : String) (user : ℕ) (d : Db)
    → any (bought_at address user) d.addresses ≡ true
    → IsOwned address user d
bought_at-IsOwned address user d = any-Some (bought_at address user) _ d.addresses λ a h. (
  (eq_iff a.address address).0 (ground arith),
  holds_lem a.user_id user (ground arith),
  purpose_lem a.purpose (ground arith),
)

paid_to-IsPaidTo :
    (address : String) (d : Db) (x : Deposit)
    → paid_to address d.addresses x ≡ true
    → IsPaidTo address d x
paid_to-IsPaidTo address d x =
    any-Some (λ (a : Address). a.id == x.address_id && str_eq a.address address) _ d.addresses
      λ a h. (ground arith, (eq_iff a.address address).0 (ground arith))

IsPaidTo-paid_to :
    (address : String) (d : Db) (x : Deposit)
    → IsPaidTo address d x
    → paid_to address d.addresses x ≡ true
IsPaidTo-paid_to address d x =
    Some-any (λ (a : Address). a.id == x.address_id && str_eq a.address address) _ d.addresses
      λ a h.
        let same : str_eq a.address address ≡ true = (eq_iff a.address address).1 h.1 in
        ground arith

status_of-Tells :
    (address : String) (d : Db) (min_conf : ℤ) (l : List Deposit)
    → IsFirst (λ (y : Deposit). y.id) (paid_to address d.addresses) d.deposits l
    → Tells address d min_conf (status_of min_conf l)
status_of-Tells address d min_conf [] h = inl (
  All-map (λ x. paid_to address d.addresses x ≡ false) _ d.deposits
      (λ x no p. let yes = IsPaidTo-paid_to address d x p in cc) h,
  refl,
)
status_of-Tells address d min_conf (x ∷ l) h = inr (
  x,
  (
    h.0,
    paid_to-IsPaidTo address d x h.1,
    All-map (λ y. paid_to address d.addresses y ≡ true → y.id ≤ x.id) _ d.deposits
        (λ y below p. below (IsPaidTo-paid_to address d y p)) h.2,
  ),
  refl,
)

module _ (sess : Session) (address : String) (d : Db) where
  abbrev Owned : Type 0
  Owned = any (bought_at address sess.user_id) d.addresses ≡ true

  abbrev InForce : ℤ → Type 0
  InForce min_conf = number_in key_min_confirmations (pos 1) d ≡ ok min_conf

  status_for-ToldOwn :
      (min_conf : ℤ) (w : World)
      → w.db ≡ d
      → Owned
      → InForce min_conf
      → ToldOwn sess address d (status_for address min_conf w)
  unfolding latest_deposit_status statements
  status_for-ToldOwn min_conf w same owned read = elim (Bool-cases (w.fails w.count)) [
    | inl down ↦ rw down (same, tt)
    | inr up ↦
        rw (up, same)
          (
            refl,
            (
              bought_at-IsOwned address sess.user_id d owned,
              (
                min_conf,
                read,
                status_of-Tells address d min_conf _ (
                    order_desc-IsFirst (λ (y : Deposit). y.id) (paid_to address d.addresses)
                      d.deposits),
              ),
            ),
          )
  ]

  after_setting :
      (out : Result ℤ × World)
      → AllOrNothing d (λ z d'. (d' ≡ d) × InForce z) out
      → Owned
      → ToldOwn sess address d (branch out.0 (status_for address) (λ _. pure internal_error) out.1)
  after_setting (err e, w) same owned = (same, tt)
  after_setting (ok min_conf, w) (same, read) owned = status_for-ToldOwn min_conf w same owned read

  owned_status-ToldOwn :
      (owned : Bool) (w : World)
      → w.db ≡ d
      → any (bought_at address sess.user_id) d.addresses ≡ owned
      → ToldOwn sess address d (owned_status address owned w)
  unfolding ◌>>=◌ caught
  owned_status-ToldOwn false w same e = (same, tt)
  owned_status-ToldOwn true w same e =
      after_setting (get_min_confirmations w)
        (subst
          (λ t.
            AllOrNothing t (λ z d'. (d' ≡ t) × (number_in key_min_confirmations (pos 1) t ≡ ok z))
              (get_min_confirmations w))
          same (get_min_confirmations_lem w))
        e

-- The status of a purchase is told only to a player whom the address belongs to, for purchases; it
-- is that of the deposit to the address with the greatest number, or says that there is none, with
-- the number of confirmations that the settings ask for. No table changes, and any other answer tells
-- no status.
pub handle_buy_status-ToldOwn :
    (sess : Session) (r : Request) (now : ℕ) (w : World)
    → ToldOwn sess (r.query "address") w.db (handle_buy_status sess r now w)
unfolding handle_buy_status address_belongs_to_user statements
handle_buy_status-ToldOwn sess r now w = go (str_eq (r.query "address") "")
  where
    go :
        (empty : Bool)
        → ToldOwn sess (r.query "address") w.db (
            (if empty
                then pure bad_request
                else (caught (address_belongs_to_user (r.query "address") sess.user_id) >>= λ owned.
                    branch owned (owned_status (r.query "address")) (λ _. pure internal_error)))
              w)
    go true = (refl, tt)
    go false = elim (Bool-cases (w.fails w.count)) [
      | inl down ↦ rw down (refl, tt)
      | inr up ↦ rw up (
          owned_status-ToldOwn sess (r.query "address") w.db
            (any (bought_at (r.query "address") sess.user_id) w.db.addresses) (next w) refl refl)
    ]
