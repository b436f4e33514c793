-- ===== src/DirectPay/Credit.antt =====
-- What a payment to a machine's address queues.
use dogecade.Common.{
  All, Bool-cases, List, Option, [], ap, arith, false, find, if◌then◌else◌, inl, inr, leb_ℤ, length,
  limit, ltb_ℤ, negsuc, none, pos, pos_part, quot, refl, rem, some, subst, suc, sym, true,
  update_if, zero, ℕ, ℤ, ◌++◌, ◌==◌, ◌∙◌, ◌∷◌, ◌≡◌,
}
use dogecade.Store.{
  Action, AllOrNothing, Db, Deposit, Ensures, Machine, Pulse, World, atomically, atomically_lem,
  bind_Ensures, exec-Ensures, map_AllOrNothing, map_Ensures, modify, modify-Ensures, next, next_id,
  ok, or_raise-AllOrNothing, pure, query-AllOrNothing, read_AllOrNothing, then_Ensures, ◌>>◌,
}
use dogecade.Settings.{key_direct_pay_max_credits_per_tx}
use dogecade.Settings.RoundTrip.{get_direct_pay_max_credits_per_tx_lem, number_in}
use dogecade.Redemption.Atomic.{insert_pulse_lem, with_pulse}
use dogecade.Purchase.{deposit_has, set_remainder, update_deposit}
use dogecade.DirectPay.{
  capped, count_use, credit_at, credit_deposit, direct_row, is_priced, price_of, queue_credits,
  queue_pulses,
}

abbrev pub IsDirect : ℕ → ℕ → Pulse → Type 0
IsDirect machine now p = p ≡ direct_row machine now p.id

-- `n` pulses of the machine's have been queued behind all others, and nothing else has changed.
abbrev pub Queued : ℕ → ℕ → ℕ → Db → Db → Type 0
Queued n machine now d d' =
    (added : List Pulse) × (d' ≡ record d { pulses = d.pulses ++ added })
    × (length added ≡ n)
    × All (IsDirect machine now) added

append_nil : {A : Type 0} (xs : List A) → xs ++ [] ≡ xs
append_nil [] = refl
append_nil (x ∷ xs) = ap (λ ys. x ∷ ys) (append_nil xs)

append_assoc : {A : Type 0} (xs ys zs : List A) → (xs ++ ys) ++ zs ≡ xs ++ (ys ++ zs)
append_assoc [] ys zs = refl
append_assoc (x ∷ xs) ys zs = ap (λ us. x ∷ us) (append_assoc xs ys zs)

queue_pulses-Queued :
    (n machine now : ℕ) (w : World)
    → Ensures (λ _. Queued n machine now w.db) (queue_pulses n machine now w)
unfolding queue_pulses
queue_pulses-Queued zero machine now w =
    ([], ap (λ ps. record w.db { pulses = ps }) (sym (append_nil w.db.pulses)), refl, tt)
queue_pulses-Queued (suc n) machine now w =
    bind_Ensures Q Inserted _ _ w
      (exec-Ensures Inserted _ w (insert_pulse_lem (direct_row machine now) w.db (next w)))
      λ id w1 h.
        map_Ensures Q (λ _. Queued n machine now w1.db) _ (λ _ d' g. finish id w1.db d' h.1 g)
          (queue_pulses-Queued n machine now w1)
  where
    Q : Unit {0} → Db → Type 0
    Q _ = Queued (suc n) machine now w.db

    Inserted : ℕ → Db → Type 0
    Inserted id d' =
        (id ≡ next_id (λ (p : Pulse). p.id) w.db.pulses)
        × (d' ≡ with_pulse w.db (direct_row machine now id))

    finish :
        (id : ℕ) (d1 d' : Db)
        → d1 ≡ with_pulse w.db (direct_row machine now id)
        → Queued n machine now d1 d'
        → Queued (suc n) machine now w.db d'
    finish id d1 d' e (added, same, count, direct) = (
      direct_row machine now id ∷ added,
      same
          ∙ ap (λ (d : Db). record d { pulses = d.pulses ++ added }) e
          ∙ ap (λ ps. record w.db { pulses = ps })
              (append_assoc w.db.pulses (direct_row machine now id ∷ []) added),
      ap suc count,
      (refl, direct),
    )

-- Of `whole` credits, as many as the limit allows; a limit that is not positive allows all.
abbrev pub allowed : ℤ → ℤ → ℤ
allowed whole (pos zero) = whole
allowed whole (negsuc n) = whole
allowed whole (pos (suc n)) = if leb_ℤ whole (pos (suc n)) then whole else pos (suc n)

capped-allowed : (whole limit : ℤ) → capped whole limit ≡ allowed whole limit
capped-allowed whole (pos zero) = refl
capped-allowed whole (negsuc n) = ground arith
capped-allowed whole (pos (suc n)) = ground arith

-- The deposit `x` has been turned into pulses of the machine: as many as whole prices it pays, up
-- to the limit. Its remainder is recorded, and no table has changed but pulses, deposits and
-- addresses.
pub record DirectCredited (deposit machine now : ℕ) (x : Deposit) (price : ℕ) (limit : ℤ)
    (d d' : Db) : Type 0 where
  pub added : List Pulse
  pub queued : d'.pulses ≡ d.pulses ++ added
  pub number : length added ≡ pos_part (allowed (quot x.amount_koinu price) limit)
  pub direct : All (IsDirect machine now) added
  pub recorded :
      d'.deposits
      ≡ update_if (deposit_has deposit) (set_remainder (rem x.amount_koinu price)) d.deposits
  pub rest : d' ≡ record d { pulses = d'.pulses; deposits = d'.deposits; addresses = d'.addresses }

nothing_due : (credits : ℤ) → ltb_ℤ (pos 0) credits ≡ false → 0 ≡ pos_part credits
nothing_due (pos n) h = ground arith
nothing_due (negsuc n) h = refl

abbrev CreditsQueued : ℤ → ℕ → ℕ → Db → Db → Type 0
CreditsQueued credits machine now d d' =
    (added : List Pulse) × (d' ≡ record d { pulses = d.pulses ++ added; addresses = d'.addresses })
    × (length added ≡ pos_part credits)
    × All (IsDirect machine now) added

queue_credits-CreditsQueued :
    (credits : ℤ) (address machine now : ℕ) (w : World)
    → Ensures
        (λ _. CreditsQueued credits machine now w.db)
        (queue_credits credits address machine now w)
queue_credits-CreditsQueued credits address machine now w =
    elim (Bool-cases (ltb_ℤ (pos 0) credits)) [
      | inr none_due ↦ rw none_due (
        [],
        ap (λ ps. record w.db { pulses = ps }) (sym (append_nil w.db.pulses)),
        nothing_due credits none_due,
        tt,
      )
      | inl some_due ↦ rw some_due (
          then_Ensures Q (λ d'. Queued (pos_part credits) machine now w.db d') _ _ w
            (queue_pulses-Queued (pos_part credits) machine now w)
            λ w1 h.
              modify-Ensures (λ d'. CreditsQueued credits machine now w.db d') (count_use address)
                w1
                (
                  h.0,
                  ap (count_use address) h.1
                      ∙ ap
                          (λ (d : Db). record w.db {
                            pulses = w.db.pulses ++ h.0;
                            addresses = (count_use address d).addresses;
                          })
                          (sym h.1),
                  h.2,
                  h.3,
                ))
    ]
  where
    Q : Unit {0} → Db → Type 0
    Q _ = CreditsQueued credits machine now w.db

-- The limit in force, and the credit at it.
abbrev pub CreditedAt : ℕ → ℕ → ℕ → Deposit → ℕ → Db → Db → Type 0
CreditedAt deposit machine now x price d d' =
    (limit : ℤ) × (number_in key_direct_pay_max_credits_per_tx (pos 10) d ≡ ok limit)
    × DirectCredited deposit machine now x price limit d d'

module _ (deposit address machine now : ℕ) (x : Deposit) (price : ℕ) where
  settle_direct : ℤ → Action (Unit {0})
  settle_direct limit = do
    modify (update_deposit deposit (set_remainder (rem x.amount_koinu price)))
    queue_credits (capped (quot x.amount_koinu price) limit) address machine now

  settle_direct-DirectCredited :
      (limit : ℤ) (w : World)
      → Ensures (λ _. DirectCredited deposit machine now x price limit w.db) (settle_direct limit w)
  unfolding settle_direct
  settle_direct-DirectCredited limit w =
      then_Ensures Q (λ d'. d' ≡ noted) _ _ w (modify-Ensures (λ d'. d' ≡ noted) _ w refl)
        λ w1 same.
          map_Ensures Q (λ _. CreditsQueued credits machine now w1.db) _
            (λ _ d' h. finish d' (rw same at h))
            (queue_credits-CreditsQueued credits address machine now w1)
    where
      Q : Unit {0} → Db → Type 0
      Q _ = DirectCredited deposit machine now x price limit w.db

      credits : ℤ
      credits = capped (quot x.amount_koinu price) limit

      noted : Db
      noted = update_deposit deposit (set_remainder (rem x.amount_koinu price)) w.db

      finish :
          (d' : Db)
          → CreditsQueued credits machine now noted d'
          → DirectCredited deposit machine now x price limit w.db d'
      finish d' (added, same, number, direct) = record {
        added = added;
        queued = ap (λ (d : Db). d.pulses) same;
        number = number ∙ ap pos_part (capped-allowed (quot x.amount_koinu price) limit);
        direct = direct;
        recorded = ap (λ (d : Db). d.deposits) same;
        rest = rw same refl;
      }

  credit_at-CreditedAt :
      (w : World)
      → AllOrNothing w.db
          (λ _. CreditedAt deposit machine now x price w.db)
          (credit_at deposit address machine now x price w)
  unfolding settle_direct
  credit_at-CreditedAt w =
      read_AllOrNothing Q (λ z. number_in key_direct_pay_max_credits_per_tx (pos 10) w.db ≡ ok z) _
        _ w (get_direct_pay_max_credits_per_tx_lem w)
        λ limit w' same read.
          subst (λ d. AllOrNothing d Q (atomically (settle_direct limit) w')) same
            (atomically_lem Q _ w' (
              map_Ensures Q (λ _. DirectCredited deposit machine now x price limit w'.db) _
                (λ _ d' c. (limit, read, rw same at c))
                (settle_direct-DirectCredited limit (next w'))))
    where
      Q : Unit {0} → Db → Type 0
      Q _ = CreditedAt deposit machine now x price w.db

-- What a price does: only one that is set and positive makes pulses of a deposit.
abbrev pub PaidAt : Option ℤ → ℕ → ℕ → ℕ → Deposit → Db → Db → Type 0
PaidAt none deposit machine now x d d' = d' ≡ d
PaidAt (some (negsuc n)) deposit machine now x d d' = d' ≡ d
PaidAt (some (pos zero)) deposit machine now x d d' = d' ≡ d
PaidAt (some (pos (suc n))) deposit machine now x d d' =
    CreditedAt deposit machine now x (suc n) d d'

paid-PaidAt :
    (price : Option ℤ) (deposit address machine now : ℕ) (x : Deposit) (w : World)
    → AllOrNothing w.db
        (λ _. PaidAt price deposit machine now x w.db)
        ((if is_priced price
            then credit_at deposit address machine now x (price_of price)
            else pure tt)
          w)
paid-PaidAt none deposit address machine now x w = refl
paid-PaidAt (some (negsuc n)) deposit address machine now x w =
    let free : is_priced (some (negsuc n)) ≡ false = ground arith in rw free refl
paid-PaidAt (some (pos zero)) deposit address machine now x w = refl
paid-PaidAt (some (pos (suc n))) deposit address machine now x w =
    let priced : is_priced (some (pos (suc n))) ≡ true = ground arith in
    rw priced (credit_at-CreditedAt deposit address machine now x (suc n) w)

-- A credit of a deposit to a machine, by the machine's price.
abbrev pub DirectPaid : ℕ → ℕ → ℕ → Db → Unit {0} → Db → Type 0
DirectPaid deposit machine now d _ d' =
    (x : Deposit) × (m : Machine) × (find (deposit_has deposit) d.deposits ≡ some x)
    × (find (λ (c : Machine). c.id == machine) d.machines ≡ some m)
    × PaidAt m.direct_play_price_koinu deposit machine now x d d'

-- Whatever statement fails, crediting a deposit to a machine with a positive price either queues one
-- pulse for each whole price that the deposit pays, up to the limit where one is set, with the
-- remainder recorded and no token moved, or leaves the tables as they were; for a machine without
-- one it leaves them in any case.
pub credit_deposit-DirectPaid :
    (deposit address machine now : ℕ) (w : World)
    → AllOrNothing w.db
        (DirectPaid deposit machine now w.db)
        (credit_deposit deposit address machine now w)
unfolding credit_deposit
credit_deposit-DirectPaid deposit address machine now w = query-AllOrNothing Q _ _ w (
    or_raise-AllOrNothing Q _ _ _ (next w) λ x found. query-AllOrNothing Q _ _ (next w) (
      or_raise-AllOrNothing Q _ _ _ (next (next w)) λ m known.
        map_AllOrNothing (λ _. PaidAt m.direct_play_price_koinu deposit machine now x w.db) Q w.db _
          (λ _ d' c. (x, m, found, known, c))
          (paid-PaidAt m.direct_play_price_koinu deposit address machine now x (next (next w)))))
  where
    Q : Unit {0} → Db → Type 0
    Q = DirectPaid deposit machine now w.db
