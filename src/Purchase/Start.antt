-- ===== src/Purchase/Start.antt =====
-- Starting a purchase: one address for each user, the same one for as long as it is assigned.
use dogecade.Common.{
  All, List, Option, Option-cases, String, [], arith, count_if, false, find, find_holds, holds, inl,
  inr, none, refl, some, true, update_if, ℕ, ◌∷◌, ◌≡◌,
}
use dogecade.Store.{
  Address, AddressState, AllOrNothing, Db, Ensures, Purpose, Result, World, assigned,
  atomically_lem, bind_Ensures, calm, err, exec-Ensures, is_assigned, is_pool, machine_direct, next,
  ok, or_raise-Ensures, pool_empty, query-Ensures, raise_if-Ensures, retired, same_purpose,
  statements, token_deposit, weaken,
}
use dogecade.Pool.{is_free, oldest, still_pooled, update_addresses}
use dogecade.Pool.Keys.{oldest-IsOldest}
use dogecade.Pool.Claim.{Stands, claim_count, find-claim, find-none-All, no_clash-claim}
use dogecade.Pool.WellFormed.{In-IsUnbound, IsUnbound, IsWellFormed, update_addresses-IsWellFormed}
use dogecade.Purchase.{bind_user, claim_for_user, is_users, reuse_or_claim, start_purchase}

pub purpose_lem : (p : Purpose) → same_purpose p token_deposit ≡ true → p ≡ token_deposit
purpose_lem token_deposit h = refl
purpose_lem machine_direct h = cc

pub holds_lem : (o : Option ℕ) (n : ℕ) → holds o n ≡ true → o ≡ some n
holds_lem none n h = cc
holds_lem (some m) n h = ground arith

state_lem : (s : AddressState) → is_assigned s ≡ true → s ≡ assigned
state_lem assigned h = refl
state_lem AddressState.pool h = cc
state_lem retired h = cc

-- The row is assigned to the user, for purchases.
abbrev pub IsUsers : ℕ → Address → Type 0
IsUsers user a = (a.user_id ≡ some user) × (a.purpose ≡ token_deposit) × (a.state ≡ assigned)

is_users-IsUsers : (user : ℕ) (a : Address) → is_users user a ≡ true → IsUsers user a
is_users-IsUsers user a h = (
  holds_lem a.user_id user (ground arith),
  purpose_lem a.purpose (ground arith),
  state_lem a.state (ground arith),
)

-- The address is that of the first row that is assigned to the user.
abbrev pub Holds : ℕ → String → Db → Type 0
Holds user addr d =
    (a : Address) × (find (is_users user) d.addresses ≡ some a)
    × (a.address ≡ addr)
    × IsUsers user a

-- A row that is bound to the user clashes with none, where no row was assigned to the user.
bind_user-Stands :
    (user now : ℕ) (row : Address)
    → is_free token_deposit row ≡ true
    → IsUnbound row
    → (rows : List Address) → All (λ b. is_users user b ≡ false) rows
    → Stands (bind_user user now row) rows
bind_user-Stands user now row free u [] h = tt
bind_user-Stands user now row free u (x ∷ rows) h =
    (ground (arith, u (ground arith)), bind_user-Stands user now row free u rows h.1)

-- What a call for an address ensures: a row is assigned to the user, its address is the answer, and
-- the table is in order.
abbrev pub Started : ℕ → String → Db → Type 0
Started user addr d = Holds user addr d × IsWellFormed d.addresses

claim_for_user-Started :
    (user now : ℕ) (w : World)
    → find (is_users user) w.db.addresses ≡ none
    → IsWellFormed w.db.addresses
    → Ensures (Started user) (claim_for_user user now w)
unfolding claim_for_user
claim_for_user-Started user now w e v = query-Ensures (Started user) _ _ w (
    or_raise-Ensures (Started user) _ _ _ (next w) λ row found.
      bind_Ensures (Started user) (P row) _ _ (next w)
        (exec-Ensures (P row) _ (next w) (
          weaken (P row) w.db _
            (update_addresses-IsWellFormed _ _ w.db (next (next w)) (λ a. refl) (λ a h. cc) v)))
        λ n w' p. raise_if-Ensures (Started user) _ _ _ w' λ _. finish row w'.db found n p)
  where
    P : Address → ℕ → Db → Type 0
    P row n d' =
        (d' ≡ record w.db {
          addresses = update_if (still_pooled row.id) (bind_user user now) w.db.addresses;
        })
        × (n ≡ count_if (still_pooled row.id) w.db.addresses)
        × IsWellFormed d'.addresses

    finish :
        (row : Address) (d' : Db)
        → oldest (is_free token_deposit) w.db.addresses ≡ some row
        → (n : ℕ) → P row n d'
        → Started user row.address d'
    finish row d' found n (same, _, v') =
        let (i, free, _) = oldest-IsOldest (is_free token_deposit) w.db.addresses row found in
        (
          (
            bind_user user now row,
            rw same (
                find-claim row (ground arith) (bind_user user now) (is_users user) w.db.addresses
                  (ground arith) v.keyed i e),
            refl,
            (refl, purpose_lem row.purpose (ground arith), refl),
          ),
          v',
        )

-- Whatever fails, starting a purchase on a table that is in order answers the address that is then
-- assigned to the user, paid or not, and keeps the table in order, or it leaves the tables as they
-- were.
pub start_purchase-Started :
    (user now : ℕ) (w : World)
    → IsWellFormed w.db.addresses
    → AllOrNothing w.db (Started user) (start_purchase user now w)
unfolding start_purchase
start_purchase-Started user now w v =
    atomically_lem (Started user) _ w (
      query-Ensures (Started user) _ _ (next w) (chosen (find (is_users user) w.db.addresses) refl))
  where
    chosen :
        (o : Option Address)
        → find (is_users user) w.db.addresses ≡ o
        → Ensures (Started user) (reuse_or_claim user now o (next (next w)))
    chosen (some a) e =
        ((a, e, refl, is_users-IsUsers user a (find_holds (is_users user) w.db.addresses a e)), v)
    chosen none e = claim_for_user-Started user now (next (next w)) e v

-- A user with an assigned address is given that address again, paid or not, and nothing is written,
-- whatever statement fails.
pub start_purchase_again :
    (user now : ℕ) (addr : String) (w : World)
    → Holds user addr w.db
    → AllOrNothing w.db (λ b d'. (b ≡ addr) × (d' ≡ w.db)) (start_purchase user now w)
unfolding start_purchase
start_purchase_again user now addr w (a, e, same, _) =
    atomically_lem Q _ w (query-Ensures Q _ _ (next w) (rw e (same, refl)))
  where
    Q : String → Db → Type 0
    Q b d' = (b ≡ addr) × (d' ≡ w.db)

-- The address that a call owes: the one assigned to the user already, or the oldest in the pool.
abbrev pub due : ℕ → List Address → Result String
due user rows = elim (find (is_users user) rows) [
  | some a ↦ ok a.address
  | none ↦ elim (oldest (is_free token_deposit) rows) [
    | some a ↦ ok a.address
    | none ↦ err pool_empty
  ]
]

-- When no statement fails and the table is in order, the answer is the one that is owed: the
-- address that is assigned to the user already, paid or not, else the oldest free one, else that the
-- pool is empty. No index is ever broken, and the guard of the UPDATE never fails.
pub start_purchase-due :
    (user now : ℕ) (d : Db) (n : ℕ)
    → IsWellFormed d.addresses
    → (start_purchase user now (calm d n)).0 ≡ due user d.addresses
unfolding start_purchase claim_for_user update_addresses statements
start_purchase-due user now d n v = elim (Option-cases (find (is_users user) d.addresses)) [
  | inr (a, e) ↦ ground arith
  | inl e ↦ elim (Option-cases (oldest (is_free token_deposit) d.addresses)) [
    | inl empty ↦ ground arith
    | inr (row, found) ↦
        let (i, free, _) = oldest-IsOldest (is_free token_deposit) d.addresses row found in
        let pooled : is_pool row.state ≡ true = ground arith in
        ground (
          arith,
          claim_count row pooled d.addresses v.keyed i,
          no_clash-claim row pooled (bind_user user now) d.addresses v.keyed i
              (bind_user-Stands user now row free (In-IsUnbound row d.addresses i v.unbound)
                d.addresses (find-none-All (is_users user) d.addresses e))
              v.indexed,
        )
  ]
]
