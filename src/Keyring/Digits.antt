-- ===== src/Keyring/Digits.antt =====
-- Positional numbers, most significant digit first, as math/big reads and writes them.
use dogecade.Common.{
  All, List, Option, [], ap, arith, false, if◌then◌else◌, none, refl, some, suc, sym, zero, ℕ, ◌%◌,
  ◌*◌, ◌++◌, ◌+◌, ◌/◌, ◌<◌, ◌==◌, ◌∙◌, ◌∷◌, ◌≡◌, ◌≤◌,
}
use native.Mathlib.Nat.{
  div-lt_self, div-add-mod', mod-lt, mul-pos, mul-add-div_right, mul-add-mod_self_right,
  div-eq_of_lt, mod-eq_of_lt,
}
use mathlib.Core.List.{append-nil}

-- The number that `ds` continues `acc` to.
abbrev pub value : ℕ → ℕ → List ℕ → ℕ
value b acc [] = acc
value b acc (d ∷ ds) = value b (acc * b + d) ds

-- The digits of `n` in front of `acc`, by division until nothing is left; `none` where the rounds
-- run out.
unfoldable pub digits : ℕ → ℕ → ℕ → List ℕ → Option (List ℕ)
digits b zero n acc = if n == 0 then some acc else none
digits b (suc rounds) n acc =
    let rest = digits b rounds (n / b) ((n % b) ∷ acc) in if n == 0 then some acc else rest

abbrev pub AreDigits : ℕ → List ℕ → Type 0
AreDigits b = All (λ d. d < b)

-- No zero stands in front.
abbrev pub IsNormal : List ℕ → Type 0
IsNormal [] = Unit
IsNormal (d ∷ ds) = 0 < d

-- The digits of a number: they are below the base, the first is not zero, and they make up the
-- number; what stands behind them follows.
abbrev pub Written : ℕ → ℕ → List ℕ → Option (List ℕ) → Type 0
Written b n acc r =
    (ds : List ℕ) × (r ≡ some (ds ++ acc)) × AreDigits b ds × IsNormal ds × (value b 0 ds ≡ n)

append_assoc : (xs ys zs : List ℕ) → xs ++ ys ++ zs ≡ xs ++ (ys ++ zs)
append_assoc [] ys zs = refl
append_assoc (x ∷ xs) ys zs = ap (λ t. x ∷ t) (append_assoc xs ys zs)

value-append : (b acc : ℕ) (ds es : List ℕ) → value b acc (ds ++ es) ≡ value b (value b acc ds) es
value-append b acc [] es = refl
value-append b acc (d ∷ ds) es = value-append b (acc * b + d) ds es

pub AreDigits-append :
    (b : ℕ) (xs ys : List ℕ) → AreDigits b xs → AreDigits b ys → AreDigits b (xs ++ ys)
AreDigits-append b [] ys h k = k
AreDigits-append b (x ∷ xs) ys (p, h) k = (p, AreDigits-append b xs ys h k)

-- The last digit of a positive number goes behind the others.
last_digit :
    (b n : ℕ) (acc ds : List ℕ)
    → 1 < b
    → 0 < n
    → AreDigits b ds
    → IsNormal ds
    → value b 0 ds ≡ n / b
    → Written b n acc (some (ds ++ (n % b) ∷ acc))
last_digit b n acc [] h g are norm v =
    let z : n / b * b ≡ 0 * b = ap (λ t. t * b) (sym v) in
    let e : n % b ≡ n = omega (arith, div-add-mod' n b, z) in
    ((n % b) ∷ [], refl, (mod-lt n (omega arith), tt), omega (arith, e), omega (arith, e))
last_digit b n acc (d ∷ ds) h g are norm v = (
  (d ∷ ds) ++ (n % b) ∷ [],
  rw (append_assoc (d ∷ ds) ((n % b) ∷ []) acc) refl,
  AreDigits-append b (d ∷ ds) ((n % b) ∷ []) are (mod-lt n (omega arith), tt),
  norm,
  value-append b 0 (d ∷ ds) ((n % b) ∷ []) ∙ rw v (div-add-mod' n b),
)

-- As many rounds as the number are enough for every base above one.
pub digits-Written :
    (b rounds n : ℕ) (acc : List ℕ) → 1 < b → n ≤ rounds → Written b n acc (digits b rounds n acc)
unfolding digits
digits-Written b zero zero acc h k = ([], refl, tt, tt, refl)
digits-Written b zero (suc n) acc h k = absurd (omega arith)
digits-Written b (suc rounds) zero acc h k = ([], refl, tt, tt, refl)
digits-Written b (suc rounds) (suc n) acc h k =
    let below : suc n / b < suc n = div-lt_self (omega arith) h in
    let (ds, e, are, norm, v) =
      digits-Written b rounds (suc n / b) ((suc n % b) ∷ acc) h (omega (arith, below)) in
    let more : (suc n == 0) ≡ false = ground arith in
    rw (more, e) (last_digit b (suc n) acc ds h (omega arith) are norm v)

-- The digits `es`, least significant first, in front of `acc`, most significant first.
abbrev from_back : List ℕ → List ℕ → List ℕ
from_back [] acc = acc
from_back (e ∷ es) acc = from_back es (e ∷ acc)

abbrev value_back : ℕ → List ℕ → ℕ
value_back b [] = 0
value_back b (e ∷ es) = value_back b es * b + e

value-from_back :
    (b : ℕ) (es acc : List ℕ) → value b 0 (from_back es acc) ≡ value b (value_back b es) acc
value-from_back b [] acc = refl
value-from_back b (e ∷ es) acc = value-from_back b es (e ∷ acc)

from_back_twice : (xs ys zs : List ℕ) → from_back (from_back xs ys) zs ≡ from_back ys (xs ++ zs)
from_back_twice [] ys zs = refl
from_back_twice (x ∷ xs) ys zs = from_back_twice xs (x ∷ ys) zs

AreDigits-from_back :
    (b : ℕ) (es acc : List ℕ) → AreDigits b es → AreDigits b acc → AreDigits b (from_back es acc)
AreDigits-from_back b [] acc h k = k
AreDigits-from_back b (e ∷ es) acc (p, h) k = AreDigits-from_back b es (e ∷ acc) h (p, k)

value_back_positive :
    (b e : ℕ) (es acc : List ℕ)
    → 1 < b
    → IsNormal (from_back (e ∷ es) acc)
    → 0 < value_back b (e ∷ es)
value_back_positive b e [] acc g h = omega arith
value_back_positive b e (f ∷ es) acc g h =
    let p : 0 < value_back b (f ∷ es) * b =
      mul-pos (value_back_positive b f es (e ∷ acc) g h) (omega arith) in
    omega (arith, p)

digits-from_back :
    (b rounds : ℕ) (es acc : List ℕ)
    → 1 < b
    → AreDigits b es
    → IsNormal (from_back es acc)
    → value_back b es ≤ rounds
    → digits b rounds (value_back b es) acc ≡ some (from_back es acc)
unfolding digits
digits-from_back b zero [] acc g h norm k = refl
digits-from_back b (suc rounds) [] acc g h norm k = refl
digits-from_back b zero (e ∷ es) acc g h norm k =
    absurd (omega (arith, value_back_positive b e es acc g norm))
digits-from_back b (suc rounds) (e ∷ es) acc g (p, h) norm k =
    let n : ℕ = value_back b es * b + e in
    let more : (n == 0) ≡ false = ground (arith, value_back_positive b e es acc g norm) in
    let below : n / b < n = div-lt_self (value_back_positive b e es acc g norm) g in
    let q : n / b ≡ value_back b es =
      mul-add-div_right (omega arith) _ e ∙ omega (arith, div-eq_of_lt p) in
    let r : n % b ≡ e = mul-add-mod_self_right _ b e ∙ mod-eq_of_lt p in
    rw (more, q, r) (digits-from_back b rounds es (e ∷ acc) g h norm (omega (arith, below, q)))

-- Digits without a zero in front are what division finds of their value.
pub digits-value :
    (b rounds : ℕ) (ds : List ℕ)
    → 1 < b
    → AreDigits b ds
    → IsNormal ds
    → value b 0 ds ≤ rounds
    → digits b rounds (value b 0 ds) [] ≡ some ds
digits-value b rounds ds g h norm k =
    let back : from_back (from_back ds []) [] ≡ ds = from_back_twice ds [] [] ∙ append-nil ds in
    let v : value b 0 ds ≡ value_back b (from_back ds []) =
      ap (value b 0) (sym back) ∙ value-from_back b (from_back ds []) [] in
    rw v (
      digits-from_back b rounds (from_back ds []) [] g (AreDigits-from_back b ds [] h tt)
        (rw back norm) (omega (arith, v))
      ∙ ap some back)
