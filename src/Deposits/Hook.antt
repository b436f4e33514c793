-- ===== src/Deposits/Hook.antt =====
-- The hook that the server runs touches no setting and no column of a deposit but the remainder.
use dogecade.Common.{
  Bool-cases, List, Option, [], ap, arith, inl, inr, leb_ℤ, ltb_ℤ, none, pos, quot, refl, some, suc,
  update_if, zero, ℕ, ℤ, ◌==◌, ◌∷◌, ◌≡◌,
}
use dogecade.Store.{
  Address, Deposit, Entry, Moves, Pulse, atomically-Moves, bad_price, bind-Moves, exec, exec-Moves,
  if-Moves, machine_direct, modify, modify-Moves, no_rows, or_raise-Moves, pure, query-Moves,
  raise_if-Moves, read-Moves, same_purpose, then-Moves,
}
use dogecade.Settings.{get_direct_pay_max_credits_per_tx, get_token_price_koinu}
use dogecade.Settings.RoundTrip.{get_direct_pay_max_credits_per_tx_lem, get_number_lem}
use dogecade.Ledger.{credit_purchase_tx, insert_entry}
use dogecade.Redemption.{insert_pulse}
use dogecade.Purchase.{
  credit_user, deposit_has, purchase_credit_hook, set_remainder, update_deposit,
}
use dogecade.DirectPay.{
  capped, credit_at, credit_deposit, direct_pay_aware_credit_hook, is_priced, queue_pulses, route,
}
use dogecade.Deposits.Lawful.{IsHarmless, harmless, without_remainders}

remainder-same :
    (id : ℕ) (r : ℤ) (rows : List Deposit)
    → without_remainders (update_if (deposit_has id) (set_remainder r) rows)
      ≡ without_remainders rows
remainder-same id r [] = refl
remainder-same id r (x ∷ rows) = elim (Bool-cases (x.id == id)) [
  | inl e ↦ rw e (ap (λ ys. record x { remainder_koinu = none } ∷ ys) (remainder-same id r rows))
  | inr e ↦ rw e (ap (λ ys. record x { remainder_koinu = none } ∷ ys) (remainder-same id r rows))
]

remainder-harmless :
    (id : ℕ) (r : ℤ) → Moves harmless (modify (update_deposit id (set_remainder r)))
remainder-harmless id r = modify-Moves harmless _ (λ d. (refl, remainder-same id r d.deposits))

nothing-harmless : {A : Type 0} (a : A) → Moves harmless (pure a)
nothing-harmless a w = harmless.stays w.db

insert_entry-harmless : (row : ℕ → Entry) → Moves harmless (exec (insert_entry row))
unfolding insert_entry
insert_entry-harmless row = exec-Moves harmless (insert_entry row) (λ d. ground arith)

insert_pulse-harmless : (row : ℕ → Pulse) → Moves harmless (exec (insert_pulse row))
unfolding insert_pulse
insert_pulse-harmless row = exec-Moves harmless (insert_pulse row) (λ d. ground arith)

credit_user-harmless :
    (user : Option ℕ) (deposit : ℕ) (tokens : ℤ) (now : ℕ)
    → Moves harmless (credit_user user deposit tokens now)
unfolding credit_purchase_tx
credit_user-harmless none deposit tokens now = nothing-harmless tt
credit_user-harmless (some user) deposit tokens now =
    if-Moves harmless (ltb_ℤ (pos 0) tokens) _ _ (insert_entry-harmless _) (nothing-harmless tt)

get_token_price_koinu-harmless : Moves harmless get_token_price_koinu
unfolding get_token_price_koinu
get_token_price_koinu-harmless = read-Moves harmless _ _ (get_number_lem _ _)

purchase_credit_hook-IsHarmless : IsHarmless purchase_credit_hook
unfolding purchase_credit_hook
purchase_credit_hook-IsHarmless id now = bind-Moves harmless _ _ (query-Moves harmless _) λ row?.
    bind-Moves harmless _ _ (or_raise-Moves harmless row? no_rows) λ row.
      bind-Moves harmless _ _ (query-Moves harmless _) λ address?.
        bind-Moves harmless _ _ (or_raise-Moves harmless address? no_rows) λ address.
          bind-Moves harmless _ _ get_token_price_koinu-harmless λ price.
            then-Moves harmless _ _ (raise_if-Moves harmless (leb_ℤ price (pos 0)) bad_price) (
              atomically-Moves harmless _ (
                then-Moves harmless _ _ (remainder-harmless id _)
                  (credit_user-harmless address.user_id id _ now)))

queue_pulses-harmless : (n machine now : ℕ) → Moves harmless (queue_pulses n machine now)
unfolding queue_pulses
queue_pulses-harmless zero machine now = nothing-harmless tt
queue_pulses-harmless (suc n) machine now =
    bind-Moves harmless _ _ (insert_pulse-harmless _) λ id. queue_pulses-harmless n machine now

credit_at-harmless :
    (deposit address machine now : ℕ) (x : Deposit) (price : ℕ)
    → Moves harmless (credit_at deposit address machine now x price)
credit_at-harmless deposit address machine now x price =
    bind-Moves harmless _ _
      (read-Moves harmless _ get_direct_pay_max_credits_per_tx
        get_direct_pay_max_credits_per_tx_lem)
      λ limit. atomically-Moves harmless _ (
        then-Moves harmless _ _ (remainder-harmless deposit _) (
          if-Moves harmless (ltb_ℤ (pos 0) (capped (quot x.amount_koinu price) limit)) _ _
            (then-Moves harmless _ _ (queue_pulses-harmless _ machine now)
              (modify-Moves harmless _ (λ d. harmless.stays d)))
            (nothing-harmless tt)))

credit_deposit-harmless :
    (deposit address machine now : ℕ) → Moves harmless (credit_deposit deposit address machine now)
unfolding credit_deposit
credit_deposit-harmless deposit address machine now =
    bind-Moves harmless _ _ (query-Moves harmless _) λ row?.
      bind-Moves harmless _ _ (or_raise-Moves harmless row? no_rows) λ x.
        bind-Moves harmless _ _ (query-Moves harmless _) λ machine?.
          bind-Moves harmless _ _ (or_raise-Moves harmless machine? no_rows) λ m.
            if-Moves harmless (is_priced m.direct_play_price_koinu) _ _
              (credit_at-harmless deposit address machine now x _) (nothing-harmless tt)

route-harmless :
    (deposit now : ℕ) (a : Address) (machine : Option ℕ)
    → Moves harmless (route deposit now a machine)
route-harmless deposit now a none = purchase_credit_hook-IsHarmless deposit now
route-harmless deposit now a (some machine) =
    if-Moves harmless (same_purpose a.purpose machine_direct) _ _
      (credit_deposit-harmless deposit a.id machine now)
      (purchase_credit_hook-IsHarmless deposit now)

pub direct_pay_aware_credit_hook-IsHarmless : IsHarmless direct_pay_aware_credit_hook
unfolding direct_pay_aware_credit_hook
direct_pay_aware_credit_hook-IsHarmless deposit now =
    bind-Moves harmless _ _ (query-Moves harmless _) λ row?.
      bind-Moves harmless _ _ (or_raise-Moves harmless row? no_rows) λ x.
        bind-Moves harmless _ _ (query-Moves harmless _) λ address?.
          bind-Moves harmless _ _ (or_raise-Moves harmless address? no_rows)
            λ a. route-harmless deposit now a a.machine_id
