-- ===== src/Tests/Admin.antt =====
-- The admin console: sessions, the guard, and the changes behind it.
use dogecade.Common.{
  Bool, Bool-cases, List, Option, String, [], ap, arith, false, if◌then◌else◌, inl, inr, none, pos,
  refl, some, str_eq, suc, true, zero, ℕ, ◌+◌, ◌-◌, ◌∷◌, ◌≡◌,
}
use dogecade.Keyring.{bytes_equal, validate_address}
use dogecade.Store.{AllOrNothing, User, World, calm, confirmed}
use dogecade.Users.{merge}
use dogecade.Users.Merge.{Merged, merge-Merged}
use dogecade.Boards.{bind, unbind}
use dogecade.Boards.Bindings.{HasOneBinding, bindings-HasOneBinding}
use dogecade.AddressBatch.{import_batch}
use dogecade.AddressBatch.Atomic.{Imported, import_batch-Imported}
use dogecade.Session.{Session, decode, encode, from_request, issue, session_ttl, split_last_dot}
use dogecade.Session.Signed.{Accepted, HasNoDot, from_request-Accepted, from_request-issue}
use dogecade.Web.{Request, bytes, require_admin}
use dogecade.Web.Guard.{Guarded, require_admin-Guarded}
use dogecade.Web.Accounts.{handle_admin_user_adjust}
use dogecade.Web.Customer.{handle_buy_status, handle_machine_redeem}
use dogecade.Web.Adjust.{AdjustedOrRefused, handle_admin_user_adjust-Adjusted}
use dogecade.Web.Redeem.{RedeemedAsSaid, handle_machine_redeem-AsSaid}
use dogecade.Web.Status.{ToldOwn, handle_buy_status-ToldOwn}
use dogecade.Tests.{arcade, day, player}
use dogecade.Tests.Keys.{sevens}

abbrev lost : User
lost = record { id = 2; subject_hash = "lost"; display_name = "Lost"; is_admin = false }

-- The arcade with a second account, and the first user an admin.
abbrev office : World
office =
    calm (record (arcade confirmed) { users = record player { is_admin = true } ∷ lost ∷ [] }) 0

merge-Merged_example : AllOrNothing office.db (Merged 1 2 office.db) (merge 1 2 office)
merge-Merged_example = merge-Merged 1 2 office

-- Stand-ins for the encodings.
abbrev flag : Bool → ℕ
flag true = 1
flag false = 0

abbrev fields : Session → List ℕ
fields sess = flag sess.is_admin ∷ sess.user_id ∷ sess.expires_at ∷ []

abbrev session_of : List ℕ → Option Session
session_of (zero ∷ user ∷ until ∷ []) =
    some (record { user_id = user; is_admin = false; expires_at = until })
session_of (suc zero ∷ user ∷ until ∷ []) =
    some (record { user_id = user; is_admin = true; expires_at = until })
session_of _ = none

session_of-fields : (sess : Session) → session_of (fields sess) ≡ some sess
session_of-fields sess = elim (Bool-cases sess.is_admin) [ inl e ↦ rw e refl | inr e ↦ rw e refl ]

-- Bytes above the dot.
abbrev raised : List ℕ → List ℕ
raised [] = []
raised (c ∷ s) = (c + 100) ∷ raised s

abbrev lowered : List ℕ → List ℕ
lowered [] = []
lowered (c ∷ s) = (c - 100) ∷ lowered s

lowered-raised : (s : List ℕ) → lowered (raised s) ≡ s
lowered-raised [] = refl
lowered-raised (c ∷ s) = let e : c + 100 - 100 ≡ c = omega arith in rw (e, lowered-raised s) refl

raised-HasNoDot : (s : List ℕ) → HasNoDot (raised s)
raised-HasNoDot [] = tt
raised-HasNoDot (c ∷ s) = (ground arith, raised-HasNoDot s)

abbrev signature : List ℕ → List ℕ
signature s = 7 ∷ s

abbrev cookie : List ℕ
cookie = issue fields session_of raised (λ s. some (lowered s)) signature 1 true 40

abbrev signed_in : Session
signed_in = record { user_id = 1; is_admin = true; expires_at = 40 + session_ttl }

from_request-issue_example :
    from_request fields session_of raised (λ s. some (lowered s)) signature (some cookie) 50
    ≡ some signed_in
from_request-issue_example =
    from_request-issue fields session_of raised (λ s. some (lowered s)) signature session_of-fields
      (λ s. ap some (lowered-raised s)) raised-HasNoDot 1 true 40 50

cookie_read :
    from_request fields session_of raised (λ s. some (lowered s)) signature (some cookie) 50
    ≡ some signed_in
unfolding from_request decode encode split_last_dot bytes_equal
cookie_read = refl

from_request-Accepted_example :
    Accepted fields session_of raised (λ s. some (lowered s)) signature cookie 50 signed_in
from_request-Accepted_example =
    from_request-Accepted fields session_of raised (λ s. some (lowered s)) signature cookie 50
      signed_in cookie_read

-- A request to give the second account three tokens.
abbrev gift_form : String → String
gift_form name =
    if str_eq name "delta" then "3" else if str_eq name "note" then "found them" else ""

abbrev gift : Request
gift = record {
  session = some signed_in;
  path_id = "2";
  slug = "cabinet";
  query = λ name. "";
  readable = true;
  form = gift_form;
}

require_admin-Guarded_example :
    Guarded handle_admin_user_adjust gift 50 office
      (require_admin handle_admin_user_adjust gift 50 office)
require_admin-Guarded_example = require_admin-Guarded handle_admin_user_adjust gift 50 office

handle_admin_user_adjust-Adjusted_example :
    AdjustedOrRefused gift 50 office.db (handle_admin_user_adjust signed_in gift 50 office)
handle_admin_user_adjust-Adjusted_example =
    handle_admin_user_adjust-Adjusted signed_in gift 50 office

bindings-HasOneBinding_example :
    HasOneBinding (bind 1 1 (pos 1) office).1.db × HasOneBinding (unbind 1 office).1.db
bindings-HasOneBinding_example =
    bindings-HasOneBinding 1 1 1 (pos 1) office (λ machine. omega arith)

-- Addresses are valid as the keyring says, with the stand-in for SHA-256.
abbrev is_valid : String → Bool
is_valid s = validate_address sevens (bytes s)

import_batch-Imported_example :
    AllOrNothing day.db
      (Imported is_valid (λ loop addrs. addrs) "upload" ("DNew" ∷ "DOther" ∷ []) 50 day.db)
      (import_batch is_valid
        (λ loop addrs. addrs)
        "upload"
        ("DNew" ∷ "DOther" ∷ [])
        (some (λ s. str_eq s "DNew"))
        "token_deposit"
        50
        day)
import_batch-Imported_example =
    import_batch-Imported is_valid (λ loop addrs. addrs) "upload" ("DNew" ∷ "DOther" ∷ [])
      (some (λ s. str_eq s "DNew")) "token_deposit" 50 day

handle_machine_redeem-AsSaid_example :
    RedeemedAsSaid signed_in gift 50 office.db (handle_machine_redeem signed_in gift 50 office)
handle_machine_redeem-AsSaid_example = handle_machine_redeem-AsSaid signed_in gift 50 office

-- The player asks how the payment to an address goes.
abbrev question : Request
question = record gift { query = λ name. if str_eq name "address" then "DPlayer" else "" }

handle_buy_status-ToldOwn_example :
    ToldOwn signed_in "DPlayer" office.db (handle_buy_status signed_in question 50 office)
handle_buy_status-ToldOwn_example = handle_buy_status-ToldOwn signed_in question 50 office
