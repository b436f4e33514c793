-- ===== src/Web/Redeem.antt =====
-- What a player's request to a machine's page does, from the request to the pulse.
use dogecade.Common.{
  Bool, Bool-cases, Option, String, ap, false, find, inl, inr, none, refl, some, subst, sym, true,
  ℕ, ◌∙◌, ◌≡◌, ◌⊎◌,
}
use dogecade.Store.{
  Address, AllOrNothing, Db, Error, IsReadOnly, Machine, Result, World, bind-Moves, bound, caught,
  caught-Moves, err, machine_not_found, next, no_change, ok, or_raise, query-AllOrNothing,
  query-Moves, statements, ◌>>=◌,
}
use dogecade.Ledger.{balance, balance_of, balance_tx}
use dogecade.Redemption.{redeem}
use dogecade.Redemption.Atomic.{Redeemed, redeem-Redeemed}
use dogecade.DirectPay.{active_address}
use dogecade.Machines.{get_by_slug, has_slug}
use dogecade.Session.{Session}
use dogecade.Web.{Request, Response, branch, page}
use dogecade.Web.Customer.{
  direct_pay_page_fields, handle_machine_redeem, is_missing, machine_page, redeem_at,
  redeem_message, redeem_refused, slug_error,
}

abbrev pub says_redeemed : Result Response → Bool
says_redeemed (ok (page name none)) = true
says_redeemed _ = false

-- The page says that the token was redeemed, and it was, at the machine of the path; or it does not
-- say so, and nothing has changed.
abbrev pub RedeemedAsSaid : Session → Request → ℕ → Db → Result Response × World → Type 0
RedeemedAsSaid sess r now d (answer, w) =
    ((answer ≡ ok (page "machine.html" none))
      × ((m : Machine) × (pulse : ℕ) × (find (has_slug r.slug) d.machines ≡ some m)
          × Redeemed sess.user_id m.id now d pulse w.db))
    ⊎ ((says_redeemed answer ≡ false) × (w.db ≡ d))

fields-IsReadOnly : (m : Machine) → IsReadOnly (direct_pay_page_fields m)
unfolding direct_pay_page_fields active_address
fields-IsReadOnly m w = elim (Bool-cases m.direct_pay_enabled) [
  | inl enabled ↦ rw enabled (
      bind-Moves no_change _ _ (caught-Moves no_change _ (query-Moves no_change _))
        (λ active w'. refl) w)
  | inr off ↦ rw off refl
]

-- The page after the redemption: its message, and tables that stay.
machine_page_lem :
    (sess : Session) (message : Option String) (w : World)
    → ((machine_page sess message w).0 ≡ ok (page "machine.html" message))
      × ((machine_page sess message w).1.db ≡ w.db)
unfolding balance balance_tx statements
machine_page_lem sess message w = (refl, query-Moves no_change (balance_of sess.user_id) w)

module _ (sess : Session) (r : Request) (now : ℕ) (d : Db) where
  refused_page :
      (message : Option String) (w : World)
      → w.db ≡ d
      → RedeemedAsSaid sess r now d (redeem_refused sess message w)
  refused_page none w same = inr (refl, same)
  refused_page (some message) w same =
      let (answer, kept) = machine_page_lem sess (some message) w in
      inr (ap says_redeemed answer, kept ∙ same)

  after_redeem :
      (m : Machine) (out : Result ℕ × World)
      → find (has_slug r.slug) d.machines ≡ some m
      → AllOrNothing d (Redeemed sess.user_id m.id now d) out
      → RedeemedAsSaid sess r now d (
          branch out.0
            (λ _. machine_page sess none)
            (λ e. redeem_refused sess (redeem_message e))
            out.1)
  after_redeem m (err e, w) found same = refused_page (redeem_message e) w same
  after_redeem m (ok pulse, w) found done =
      let (answer, kept) = machine_page_lem sess none w in
      inl
        (answer, (m, pulse, found, subst (Redeemed sess.user_id m.id now d pulse) (sym kept) done))

  redeem_at-AsSaid :
      (m : Machine) (w : World)
      → w.db ≡ d
      → find (has_slug r.slug) d.machines ≡ some m
      → RedeemedAsSaid sess r now d (redeem_at sess now m w)
  unfolding ◌>>=◌ caught
  redeem_at-AsSaid m w same found = go (direct_pay_page_fields m w) (fields-IsReadOnly m w ∙ same)
    where
      go :
          (out : Result (Option Address) × World)
          → out.1.db ≡ d
          → RedeemedAsSaid sess r now d (
              bound
                (λ _. caught (redeem sess.user_id m.id now) >>= λ redeemed.
                  branch redeemed
                    (λ _. machine_page sess none)
                    (λ e. redeem_refused sess (redeem_message e)))
                out)
      go (err e, w') same' = inr (refl, same')
      go (ok a, w') same' = after_redeem m (redeem sess.user_id m.id now w') found (
          subst
            (λ t.
              AllOrNothing t (Redeemed sess.user_id m.id now t) (redeem sess.user_id m.id now w'))
            same' (redeem-Redeemed sess.user_id m.id now w'))

  slug_refused : (e : Error) (w : World) → w.db ≡ d → RedeemedAsSaid sess r now d (slug_error e w)
  slug_refused e w same = elim (Bool-cases (is_missing e)) [
    | inl missing ↦ rw missing (inr (refl, same))
    | inr other ↦ rw other (inr (refl, same))
  ]

  after_slug :
      (out : Result Machine × World)
      → AllOrNothing d (λ m d'. (d' ≡ d) × (find (has_slug r.slug) d.machines ≡ some m)) out
      → RedeemedAsSaid sess r now d (branch out.0 (redeem_at sess now) slug_error out.1)
  after_slug (ok m, w) (same, found) = redeem_at-AsSaid m w same found
  after_slug (err e, w) same = slug_refused e w same

or_raise-found :
    {A : Type 0} (o : Option A) (e : Error) (w : World)
    → AllOrNothing w.db (λ a d'. (d' ≡ w.db) × (o ≡ some a)) (or_raise o e w)
unfolding or_raise
or_raise-found none e w = refl
or_raise-found (some a) e w = (refl, refl)

get_by_slug-found :
    (slug : String) (w : World)
    → AllOrNothing w.db
        (λ m d'. (d' ≡ w.db) × (find (has_slug slug) w.db.machines ≡ some m))
        (get_by_slug slug w)
unfolding get_by_slug
get_by_slug-found slug w =
    query-AllOrNothing
      (λ (m : Machine) d'. (d' ≡ w.db) × (find (has_slug slug) w.db.machines ≡ some m)) _ _ w
      (or_raise-found (find (has_slug slug) w.db.machines) machine_not_found (next w))

-- What the player is told is what happened, whatever statement fails: the page says that a token
-- was redeemed exactly when the machine of the path has a new pulse and the player one token less,
-- and in every other case nothing has changed.
pub handle_machine_redeem-AsSaid :
    (sess : Session) (r : Request) (now : ℕ) (w : World)
    → RedeemedAsSaid sess r now w.db (handle_machine_redeem sess r now w)
unfolding handle_machine_redeem ◌>>=◌ caught
handle_machine_redeem-AsSaid sess r now w =
    after_slug sess r now w.db (get_by_slug r.slug w) (get_by_slug-found r.slug w)
