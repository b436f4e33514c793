-- ===== src/Keyring/Alphabet.antt =====
-- The two directions of the alphabet, and the ones and zeros in front.
use dogecade.Common.{
  ==_iff, Bool, Bool-cases, List, Option, Option-cases, [], ap, arith, false, if◌then◌else◌, inl,
  inr, length, map, none, refl, some, suc, true, zero, ℕ, ◌*◌, ◌++◌, ◌+◌, ◌-◌, ◌<◌, ◌==◌, ◌∷◌, ◌≡◌,
  ◌≤◌,
}
use dogecade.Keyring.Digits.{AreDigits, value}
use dogecade.Keyring.{
  alphabet_map, base58_alphabet, byte_at, char_of, decode_value, drop, leading, position, replicate,
}
use native.Mathlib.Nat.{mul-pos}

abbrev is_position : Option ℕ → ℕ → Bool
is_position none d = false
is_position (some e) d = e == d

is_position_sound : (o : Option ℕ) (d : ℕ) → is_position o d ≡ true → o ≡ some d
is_position_sound none d h = cc
is_position_sound (some e) d h = ap some ((==_iff e d).0 h)

-- The test of the numbers up to a bound.
holds_up_to : ℕ → (ℕ → Bool) → Bool
holds_up_to zero test = true
holds_up_to (suc d) test = let others = holds_up_to d test in if test d then others else false

held : (test : ℕ → Bool) (n : ℕ) → holds_up_to n test ≡ true → (d : ℕ) → d < n → test d ≡ true
unfolding holds_up_to
held test zero t d h = absurd (omega arith)
held test (suc n) t d h = elim (Bool-cases (test n)) [
  | inr fails ↦ let bad : ◌≡◌ {A = Bool} false true = rw fails at t in cc
  | inl passes ↦ elim (Bool-cases (d == n)) [
    | inl last ↦ let e : d ≡ n = (==_iff d n).0 last in rw e passes
    | inr earlier ↦ held test n (rw passes at t) d (ground arith)
  ]
]

finds : ℕ → Bool
finds d = is_position (alphabet_map (char_of d)) d

finds_all : holds_up_to 58 finds ≡ true
unfolding holds_up_to finds
finds_all = refl

pub alphabet_map-char_of : (d : ℕ) → d < 58 → alphabet_map (char_of d) ≡ some d
unfolding finds
alphabet_map-char_of d h = is_position_sound _ d (held finds 58 finds_all d h)

position-found :
    (c : ℕ) (xs : List ℕ) (i d : ℕ)
    → position c xs i ≡ some d
    → (i ≤ d) × (d < i + length xs) × (byte_at xs (d - i) ≡ c)
position-found c [] i d h = cc
position-found c (x ∷ xs) i d h = elim (Bool-cases (x == c)) [
  | inl found ↦
      let e : i ≡ d = ground arith in
      let z : d - i ≡ 0 = omega arith in
      let same : x ≡ c = (==_iff x c).0 found in (omega arith, omega arith, rw (z, same) refl)
  | inr other ↦
      let k : position c xs (suc i) ≡ some d = ground arith in
      let (low, high, met) = position-found c xs (suc i) d k in
      let step : d - i ≡ suc (d - suc i) = omega arith in
      (omega arith, omega arith, rw (step, met) refl)
]

char_of-alphabet_map : (c d : ℕ) → alphabet_map c ≡ some d → (d < 58) × (char_of d ≡ c)
char_of-alphabet_map c d h =
    let (low, high, met) = position-found c base58_alphabet 0 d h in
    let z : d - 0 ≡ d = omega arith in (high, rw (← z) met)

-- The characters of the digits of a number.
pub decode_value-map :
    (acc : ℕ) (ds : List ℕ)
    → AreDigits 58 ds
    → decode_value acc (map char_of ds) ≡ some (value 58 acc ds)
unfolding decode_value
decode_value-map acc [] h = refl
decode_value-map acc (d ∷ ds) (p, h) =
    rw (decode_value, alphabet_map-char_of d p) (decode_value-map (acc * 58 + d) ds h)

-- Text that decodes is the characters of digits.
pub decode_value-Read :
    (acc : ℕ) (cs : List ℕ) (n : ℕ)
    → decode_value acc cs ≡ some n
    → (ds : List ℕ) × (map char_of ds ≡ cs) × AreDigits 58 ds × (value 58 acc ds ≡ n)
unfolding decode_value
decode_value-Read acc [] n h = ([], refl, tt, cc)
decode_value-Read acc (c ∷ cs) n h = elim (Option-cases (alphabet_map c)) [
  | inl unknown ↦ let bad : ◌≡◌ {A = Option ℕ} none (some n) = rw (decode_value, unknown) at h in cc
  | inr (b, known) ↦
      let k : decode_value (acc * 58 + b) cs ≡ some n = rw (decode_value, known) at h in
      let (ds, m, are, v) = decode_value-Read (acc * 58 + b) cs n k in
      let (below, met) = char_of-alphabet_map c b known in
      (b ∷ ds, rw (met, m) refl, (below, are), v)
]

-- The first element, if there is one, is not `c`.
abbrev pub HasOtherHead : ℕ → List ℕ → Type 0
HasOtherHead c [] = Unit
HasOtherHead c (x ∷ xs) = (x == c) ≡ false

pub leading-replicate :
    (c k : ℕ) (xs : List ℕ) → HasOtherHead c xs → leading c (replicate k c ++ xs) ≡ k
leading-replicate c zero [] h = refl
leading-replicate c zero (x ∷ xs) h = rw h refl
leading-replicate c (suc k) xs h =
    let same : (c == c) ≡ true = ground arith in rw (same, leading-replicate c k xs h) refl

pub drop-replicate : (c k : ℕ) (xs : List ℕ) → drop k (replicate k c ++ xs) ≡ xs
drop-replicate c zero xs = refl
drop-replicate c (suc k) xs = drop-replicate c k xs

-- A list is a run of one element and a rest that begins with another.
pub leading_split :
    (c : ℕ) (xs : List ℕ)
    → (ys : List ℕ) × (xs ≡ replicate (leading c xs) c ++ ys) × HasOtherHead c ys
leading_split c [] = ([], refl, tt)
leading_split c (x ∷ xs) = elim (Bool-cases (x == c)) [
  | inl same ↦
      let (ys, e, h) = leading_split c xs in
      let x≡c : x ≡ c = (==_iff x c).0 same in (ys, rw (same, x≡c) (ap (λ t. c ∷ t) e), h)
  | inr other ↦ (x ∷ xs, rw other refl, other)
]

pub value-replicate : (b k : ℕ) (xs : List ℕ) → value b 0 (replicate k 0 ++ xs) ≡ value b 0 xs
value-replicate b zero xs = refl
value-replicate b (suc k) xs =
    let z : 0 * b + 0 ≡ 0 = omega arith in rw (value, z) (value-replicate b k xs)

value_positive : (b acc : ℕ) (ds : List ℕ) → 1 < b → 0 < acc → 0 < value b acc ds
value_positive b acc [] h k = k
value_positive b acc (d ∷ ds) h k =
    let p : 0 < acc * b = mul-pos k (omega arith) in
    value_positive b (acc * b + d) ds h (omega (arith, p))

pub normal_positive : (b d : ℕ) (ds : List ℕ) → 1 < b → 0 < d → 0 < value b 0 (d ∷ ds)
normal_positive b d ds h k = value_positive b (0 * b + d) ds h (omega arith)
