-- ===== src/Purchase.antt =====
-- internal/services/purchase.go: an address for a purchase, and the credit of what is paid to it.
pub mod Start
pub mod Credit
use dogecade.Common.{
  Bool, Option, String, find, holds, if◌then◌else◌, leb_ℤ, ltb_ℤ, none, pos, pos_part, quot, rem,
  some, update_if, ℕ, ℤ, ◌&&◌, ◌==◌,
}
use dogecade.Store.{
  Action, Address, Db, Deposit, assigned, atomically, bad_price, exec, is_assigned, modify, no_rows,
  or_raise, pool_empty, pure, query, raise_if, same_purpose, token_deposit, ◌>>=◌, ◌>>◌,
}
use dogecade.Ledger.{credit_purchase_tx}
use dogecade.Settings.{get_token_price_koinu}
use dogecade.Pool.{has_id, is_free, oldest, still_pooled, update_addresses}

-- An address that is assigned to the user for purchases, whether or not it has been paid.
abbrev pub is_users : ℕ → Address → Bool
is_users user a =
    holds a.user_id user && same_purpose a.purpose token_deposit && is_assigned a.state

abbrev pub bind_user : ℕ → ℕ → Address → Address
bind_user user now a = record a { state = assigned; assigned_at = some now; user_id = some user }

pub claim_for_user : ℕ → ℕ → Action String
claim_for_user user now = do
  found ← query (λ d. oldest (is_free token_deposit) d.addresses)
  row ← or_raise found pool_empty
  affected ← exec (update_addresses (still_pooled row.id) (bind_user user now))
  raise_if (affected == 0) pool_empty
  pure row.address

abbrev pub reuse_or_claim : ℕ → ℕ → Option Address → Action String
reuse_or_claim user now (some a) = pure a.address
reuse_or_claim user now none = claim_for_user user now

pub start_purchase : ℕ → ℕ → Action String
start_purchase user now =
    atomically
      do existing ← query (λ d. find (is_users user) d.addresses); reuse_or_claim user now existing

abbrev pub deposit_has : ℕ → Deposit → Bool
deposit_has id x = x.id == id

-- `UPDATE deposits SET f WHERE id = ?`.
abbrev pub update_deposit : ℕ → (Deposit → Deposit) → Db → Db
update_deposit id f d = record d { deposits = update_if (deposit_has id) f d.deposits }

abbrev pub set_remainder : ℤ → Deposit → Deposit
set_remainder r x = record x { remainder_koinu = some r }

-- The tokens of the deposit go to the user, if there is one and they are more than none.
abbrev pub credit_user : Option ℕ → ℕ → ℤ → ℕ → Action (Unit {0})
credit_user none deposit tokens now = pure tt
credit_user (some user) deposit tokens now =
    if ltb_ℤ (pos 0) tokens then credit_purchase_tx user deposit tokens now else pure tt

-- The hook of NewPurchaseCreditHook.
unfoldable pub purchase_credit_hook : ℕ → ℕ → Action (Unit {0})
purchase_credit_hook deposit now = do
  row? ← query (λ d. find (deposit_has deposit) d.deposits)
  row ← or_raise row? no_rows
  address? ← query (λ d. find (has_id row.address_id) d.addresses)
  address ← or_raise address? no_rows
  price ← get_token_price_koinu
  raise_if (leb_ℤ price (pos 0)) bad_price
  atomically do
    modify (update_deposit deposit (set_remainder (rem row.amount_koinu (pos_part price))))
    credit_user address.user_id deposit (quot row.amount_koinu (pos_part price)) now
