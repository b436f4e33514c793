-- ===== src/Settings/Decimal.antt =====
-- Go's strconv.FormatInt and strconv.ParseInt in base 10, for 64 bits, over bytes.
use dogecade.Common.{
  Bool, Bool-cases, List, Option, [], arith, false, if◌then◌else◌, inl, inr, leb, ltb, negsuc, none,
  pos, refl, some, sub_ℕ, suc, true, zero, ℕ, ℤ, ◌%◌, ◌&&◌, ◌*◌, ◌+◌, ◌-◌, ◌/◌, ◌<◌, ◌==◌, ◌^◌, ◌∙◌,
  ◌∷◌, ◌≡◌,
}
use native.Mathlib.Nat.{pow-suc}

abbrev pub is_empty : List ℕ → Bool
is_empty [] = true
is_empty _ = false

abbrev pub is_digit : ℕ → Bool
is_digit c = leb b'0' c && leb c b'9'

-- The value of a run of digits, after those read already.
unfoldable pub read_digits : List ℕ → ℕ → Option ℕ
read_digits [] acc = some acc
read_digits (c ∷ s) acc =
    let rest = read_digits s (acc * 10 + (c - b'0')) in if is_digit c then rest else none

unfoldable pub read_unsigned : List ℕ → Option ℕ
unfolding read_digits
read_unsigned [] = none
read_unsigned (c ∷ s) = read_digits (c ∷ s) 0

abbrev pub in_range : Bool → ℕ → Option ℤ
in_range true n = if leb n (2 ^ 63) then some (sub_ℕ 0 n) else none
in_range false n = if ltb n (2 ^ 63) then some (pos n) else none

abbrev pub signed : Bool → Option ℕ → Option ℤ
signed negative none = none
signed negative (some n) = in_range negative n

unfoldable pub parse_int : List ℕ → Option ℤ
unfolding read_unsigned
parse_int [] = none
parse_int (c ∷ s) =
    if c == b'-'
    then signed true (read_unsigned s)
    else if c == b'+'
    then signed false (read_unsigned s)
    else signed false (read_unsigned (c ∷ s))

-- The digits of a positive number in front of `out`. Twenty rounds are enough for 64 bits.
pub write_digits : ℕ → ℕ → List ℕ → List ℕ
write_digits zero n out = out
write_digits (suc rounds) n out =
    let rest = write_digits rounds (n / 10) ((b'0' + n % 10) ∷ out) in if n == 0 then out else rest

pub format_unsigned : ℕ → List ℕ
format_unsigned n = if n == 0 then b'0' ∷ [] else write_digits 20 n []

pub format_int : ℤ → List ℕ
unfolding format_unsigned
format_int (pos n) = format_unsigned n
format_int (negsuc n) = b'-' ∷ format_unsigned (suc n)

digit-read :
    (n : ℕ) (out : List ℕ) → read_digits ((b'0' + n % 10) ∷ out) (n / 10) ≡ read_digits out n
unfolding read_digits
digit-read n out =
    let d : is_digit (b'0' + n % 10) ≡ true = ground arith in
    let e : n / 10 * 10 + (b'0' + n % 10 - b'0') ≡ n = omega arith in rw (d, e)

read_digits-write_digits :
    (rounds n : ℕ) (out : List ℕ)
    → n < 10 ^ rounds
    → read_digits (write_digits rounds n out) 0 ≡ read_digits out n
unfolding write_digits
read_digits-write_digits zero n out h = let e : n ≡ 0 = omega arith in rw e refl
read_digits-write_digits (suc rounds) n out h = elim (Bool-cases (n == 0)) [
  | inl zeroed ↦ let e : n ≡ 0 = ground arith in rw e refl
  | inr more ↦ rw more (
      read_digits-write_digits rounds (n / 10) ((b'0' + n % 10) ∷ out)
        (omega (arith, pow-suc 10 rounds))
      ∙ digit-read n out)
]

-- The text begins with a digit.
abbrev IsHeaded : List ℕ → Type 0
IsHeaded [] = ⊥
IsHeaded (c ∷ s) = is_digit c ≡ true

write_digits-IsHeaded :
    (rounds n : ℕ) (out : List ℕ) → IsHeaded out → IsHeaded (write_digits rounds n out)
unfolding write_digits
write_digits-IsHeaded zero n out h = h
write_digits-IsHeaded (suc rounds) n out h = elim (Bool-cases (n == 0)) [
  | inl zeroed ↦ rw zeroed h
  | inr more ↦
      rw more (write_digits-IsHeaded rounds (n / 10) ((b'0' + n % 10) ∷ out) (ground arith))
]

read_unsigned-headed : (s : List ℕ) → IsHeaded s → read_unsigned s ≡ read_digits s 0
unfolding read_unsigned
read_unsigned-headed [] h = absurd h
read_unsigned-headed (c ∷ s) h = refl

format_unsigned-IsHeaded : (n : ℕ) → IsHeaded (format_unsigned n)
unfolding format_unsigned write_digits
format_unsigned-IsHeaded n = elim (Bool-cases (n == 0)) [
  | inl zeroed ↦ rw zeroed refl
  | inr more ↦ rw more (write_digits-IsHeaded 19 (n / 10) ((b'0' + n % 10) ∷ []) (ground arith))
]

read_digits-format_unsigned : (n : ℕ) → n < 10 ^ 20 → read_digits (format_unsigned n) 0 ≡ some n
unfolding format_unsigned
read_digits-format_unsigned n h = elim (Bool-cases (n == 0)) [
  | inl zeroed ↦ let e : n ≡ 0 = ground arith in rw e (unfold read_digits in refl)
  | inr more ↦ rw more (read_digits-write_digits 20 n [] h ∙ unfold read_digits in refl)
]

read_unsigned-format_unsigned : (n : ℕ) → n < 10 ^ 20 → read_unsigned (format_unsigned n) ≡ some n
read_unsigned-format_unsigned n h =
    read_unsigned-headed (format_unsigned n) (format_unsigned-IsHeaded n)
    ∙ read_digits-format_unsigned n h

parse_int-headed : (s : List ℕ) → IsHeaded s → parse_int s ≡ signed false (read_unsigned s)
unfolding parse_int
parse_int-headed [] h = absurd h
parse_int-headed (c ∷ s) h = ground arith

-- The integers of 64 bits.
abbrev pub IsInt64 : ℤ → Type 0
IsInt64 (pos n) = n < 2 ^ 63
IsInt64 (negsuc n) = n < 2 ^ 63

-- What is written for a 64-bit integer is read back as that integer.
pub parse_int-format_int : (z : ℤ) → IsInt64 z → parse_int (format_int z) ≡ some z
unfolding format_int
parse_int-format_int (pos n) h =
    parse_int-headed (format_unsigned n) (format_unsigned-IsHeaded n)
    ∙ rw (read_unsigned-format_unsigned n (omega arith)) (ground arith)
parse_int-format_int (negsuc n) h =
    unfold parse_int in rw (read_unsigned-format_unsigned (suc n) (omega arith)) (ground arith)

headed-nonempty : (s : List ℕ) → IsHeaded s → is_empty s ≡ false
headed-nonempty [] h = absurd h
headed-nonempty (c ∷ s) h = refl

pub format_int-nonempty : (z : ℤ) → is_empty (format_int z) ≡ false
unfolding format_int
format_int-nonempty (pos n) = headed-nonempty (format_unsigned n) (format_unsigned-IsHeaded n)
format_int-nonempty (negsuc n) = refl
