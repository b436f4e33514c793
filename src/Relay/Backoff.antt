-- ===== src/Relay/Backoff.antt =====
-- The delay before a pulse is tried again, and where its arithmetic in int64 wraps around.
use dogecade.Common.{
  Bool, Bool-cases, arith, false, inl, inr, int_arithmetic, min, negsuc, pos, refl, suc, true, zero,
  ℕ, ℤ, ◌&&◌, ◌*◌, ◌+◌, ◌<◌, ◌==◌, ◌^◌, ◌≡◌,
}
use dogecade.Relay.{backoff_base, backoff_cap, backoff_duration}

abbrev all_below : (ℕ → Bool) → ℕ → Bool
all_below p zero = true
all_below p (suc n) = p n && all_below p n

all_below_lem : (p : ℕ → Bool) (k n : ℕ) → all_below p k ≡ true → n < k → p n ≡ true
all_below_lem p zero n h lt = ground arith
all_below_lem p (suc k) n h lt = elim (Bool-cases (n == k)) [
  | inl e ↦ ground arith
  | inr e ↦ all_below_lem p k n (ground arith) (ground arith)
]

abbrev pub doubled : ℕ → ℕ
doubled n = min (backoff_base * 2 ^ n) backoff_cap

abbrev is_pos : ℤ → ℕ → Bool
is_pos (pos m) n = m == n
is_pos (negsuc m) n = false

is_pos_lem : (z : ℤ) (n : ℕ) → is_pos z n ≡ true → z ≡ pos n
is_pos_lem (pos m) n h = ground arith
is_pos_lem (negsuc m) n h = ground arith

doubled_table : (u : ℤ) → all_below (λ n. is_pos (backoff_duration u (suc n)) (doubled n)) 35 ≡ true
unfolding backoff_duration int_arithmetic
doubled_table u = refl

-- Up to the attempt 35 the delay is half a second doubled for each attempt after the first, and
-- thirty seconds where that is longer.
pub backoff_duration-doubled :
    (u : ℤ) (n : ℕ) → n < 35 → backoff_duration u (suc n) ≡ pos (doubled n)
backoff_duration-doubled u n h =
    is_pos_lem _ _ (
      all_below_lem (λ k. is_pos (backoff_duration u (suc k)) (doubled k)) 35 n (doubled_table u) h)

overflow_table : (u : ℤ) → all_below (λ n. is_pos (backoff_duration u (suc (56 + n))) 0) 7 ≡ true
unfolding backoff_duration int_arithmetic
overflow_table u = refl

-- From the attempt 57 to the attempt 63 the product wraps around to nothing, and the pulse is tried
-- again without a delay.
pub backoff_duration-overflow : (u : ℤ) (n : ℕ) → n < 7 → backoff_duration u (suc (56 + n)) ≡ pos 0
backoff_duration-overflow u n h =
    is_pos_lem _ _
      (all_below_lem (λ k. is_pos (backoff_duration u (suc (56 + k))) 0) 7 n (overflow_table u) h)
