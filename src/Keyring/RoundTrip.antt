-- ===== src/Keyring/RoundTrip.antt =====
-- Base58 text and bytes: each is recovered from the other.
use dogecade.Common.{
  ==_iff, Bool-cases, List, Option, Option-cases, [], ap, arith, false, inl, inr, length, map, none,
  refl, some, subst, suc, sym, zero, ℕ, ◌++◌, ◌<◌, ◌==◌, ◌∙◌, ◌∷◌, ◌≡◌,
}
use dogecade.Keyring.Digits.{AreDigits, IsNormal, digits, digits-Written, digits-value, value}
use dogecade.Keyring.{
  alphabet_map, base58_decode, base58_encode, big_bytes, char_of, decode_value, leading, replicate,
  with_ones, with_zeros,
}
use dogecade.Keyring.Alphabet.{
  HasOtherHead, alphabet_map-char_of, decode_value-Read, decode_value-map, drop-replicate,
  leading-replicate, leading_split, normal_positive, value-replicate,
}
use mathlib.Core.List.{append-nil}

decode_split :
    (k : ℕ) (cs : List ℕ)
    → HasOtherHead b'1' cs
    → base58_decode (replicate k b'1' ++ cs) ≡ with_zeros k (decode_value 0 cs)
unfolding base58_decode
decode_split k cs h = rw (leading-replicate b'1' k cs h, drop-replicate b'1' k cs) refl

decoded_of :
    (k : ℕ) (ds : List ℕ)
    → AreDigits 58 ds
    → HasOtherHead b'1' (map char_of ds)
    → base58_decode (replicate k b'1' ++ map char_of ds)
      ≡ some (replicate k 0 ++ big_bytes (value 58 0 ds))
decoded_of k ds are h = decode_split k (map char_of ds) h ∙ rw (decode_value-map 0 ds are) refl

length-replicate : (k x : ℕ) → length (replicate k x) ≡ k
length-replicate zero x = refl
length-replicate (suc k) x = ap suc (length-replicate k x)

all_zeros : (k : ℕ) → base58_encode (replicate k 0 ++ []) ≡ with_ones k (some [])
unfolding base58_encode
all_zeros zero = refl
all_zeros (suc k) =
    let e : replicate k 0 ++ [] ≡ replicate k 0 = append-nil (replicate k 0) in
    let v : value 256 0 (replicate (suc k) 0 ++ []) ≡ 0 = value-replicate 256 (suc k) [] in
    let l : length (replicate k 0 ++ []) ≡ k = rw e (length-replicate k 0) in
    rw (v, l, append-nil (replicate k b'1')) refl

encoded_by :
    (k n : ℕ) (ys : List ℕ)
    → 0 < n
    → value 256 0 ys ≡ n
    → leading 0 ys ≡ k
    → base58_encode ys ≡ with_ones k (digits 58 n n [])
unfolding base58_encode
encoded_by k n [] p v l = absurd (omega (arith, v))
encoded_by k n (y ∷ ys) p v l = let more : (n == 0) ≡ false = ground arith in rw (v, more, l) refl

-- The bytes of a number behind `k` zeros.
encoded_of :
    (k n : ℕ) (xs : List ℕ)
    → IsNormal xs
    → value 256 0 xs ≡ n
    → base58_encode (replicate k 0 ++ xs) ≡ with_ones k (digits 58 n n [])
unfolding digits
encoded_of k n [] h v = rw (← v) (all_zeros k)
encoded_of k n (x ∷ xs) h v =
    let other : (x == 0) ≡ false = ground arith in
    encoded_by k n (replicate k 0 ++ x ∷ xs)
      (omega (arith, v, normal_positive 256 x xs (omega arith) h))
      (value-replicate 256 k (x ∷ xs) ∙ v) (leading-replicate 0 k (x ∷ xs) other)

IsNormal-of_other : (xs : List ℕ) → HasOtherHead 0 xs → IsNormal xs
IsNormal-of_other [] h = tt
IsNormal-of_other (x ∷ xs) h = ground arith

-- The character of a digit is a one only for the digit zero.
other_than_one : (d : ℕ) → d < 58 → 0 < d → (char_of d == b'1') ≡ false
other_than_one d h p = elim (Bool-cases (char_of d == b'1')) [
  | inr other ↦ other
  | inl one ↦
      let e : char_of d ≡ b'1' = (==_iff _ _).0 one in
      let m : alphabet_map b'1' ≡ some d =
        subst (λ c. alphabet_map c ≡ some d) e (alphabet_map-char_of d h) in
      absurd (omega (arith, some_eq 0 d m))
]
  where
    some_eq : (a b : ℕ) → ◌≡◌ {A = Option ℕ} (some a) (some b) → a ≡ b
    some_eq a b h = cc

headed_of : (ds : List ℕ) → AreDigits 58 ds → IsNormal ds → HasOtherHead b'1' (map char_of ds)
headed_of [] are h = tt
headed_of (d ∷ ds) (p, are) h = other_than_one d p h

other_than_zero : (ds : List ℕ) → HasOtherHead b'1' (map char_of ds) → IsNormal ds
other_than_zero [] h = tt
other_than_zero (zero ∷ ds) h = cc
other_than_zero (suc d ∷ ds) h = omega arith

AreDigits-behind : (b : ℕ) (xs ys : List ℕ) → AreDigits b (xs ++ ys) → AreDigits b ys
AreDigits-behind b [] ys h = h
AreDigits-behind b (x ∷ xs) ys (p, h) = AreDigits-behind b xs ys h

-- The bytes are encoded as some text, and the text is decoded to the bytes.
abbrev pub Restores : List ℕ → Option (List ℕ) → Type 0
Restores bytes text = (s : List ℕ) × (text ≡ some s) × (base58_decode s ≡ some bytes)

-- Every string of bytes is encoded, the loop ending, and decoding the text gives the bytes back.
pub base58_decode-base58_encode :
    (bytes : List ℕ) → AreDigits 256 bytes → Restores bytes (base58_encode bytes)
base58_decode-base58_encode bytes h =
    let k : ℕ = leading 0 bytes in
    let (xs, split, other) = leading_split 0 bytes in
    let n : ℕ = value 256 0 xs in
    let norm : IsNormal xs = IsNormal-of_other xs other in
    let below : AreDigits 256 xs = AreDigits-behind 256 (replicate k 0) xs (rw (← split) h) in
    let (ds, e, are, first, v) = digits-Written 58 n n [] (omega arith) (omega arith) in
    let w : digits 58 n n [] ≡ some ds = e ∙ ap some (append-nil ds) in
    let back : digits 256 n n [] ≡ some xs =
      digits-value 256 n xs (omega arith) below norm (omega arith) in
    subst (λ b. Restores b (base58_encode b)) (sym split)
      (
        replicate k b'1' ++ map char_of ds,
        rw (encoded_of k n xs norm refl, w) refl,
        decoded_of k ds are (headed_of ds are first) ∙ rw (v, back) refl,
      )

-- What a text decodes to.
abbrev Canonical : List ℕ → List ℕ → Type 0
Canonical s bytes = (base58_encode bytes ≡ some s) × AreDigits 256 bytes

AreDigits-replicate : (k : ℕ) (xs : List ℕ) → AreDigits 256 xs → AreDigits 256 (replicate k 0 ++ xs)
AreDigits-replicate zero xs h = h
AreDigits-replicate (suc k) xs h = (omega arith, AreDigits-replicate k xs h)

-- The number behind the ones of a text, and the text of its digits.
reencoded :
    (k n : ℕ) (cs bytes : List ℕ)
    → HasOtherHead b'1' cs
    → decode_value 0 cs ≡ some n
    → with_zeros k (some n) ≡ some bytes
    → Canonical (replicate k b'1' ++ cs) bytes
reencoded k n cs bytes h read e =
    let (ds, m, are, v) = decode_value-Read 0 cs n read in
    let norm : IsNormal ds = other_than_zero ds (rw m h) in
    let (bs, w, small, first, u) = digits-Written 256 n n [] (omega arith) (omega arith) in
    let w' : digits 256 n n [] ≡ some bs = w ∙ ap some (append-nil bs) in
    let found : digits 58 n n [] ≡ some ds =
      subst (λ x. digits 58 n x [] ≡ some ds) v
        (digits-value 58 n ds (omega arith) are norm (omega arith)) in
    let split : bytes ≡ replicate k 0 ++ bs =
      let f : ◌≡◌ {A = Option (List ℕ)} (some (replicate k 0 ++ bs)) (some bytes) = rw w' at e in
      cc in
    rw split (rw (encoded_of k n bs first u, found, m) refl, AreDigits-replicate k bs small)

decode-Canonical : (s bytes : List ℕ) → base58_decode s ≡ some bytes → Canonical s bytes
decode-Canonical s bytes h =
    let k : ℕ = leading b'1' s in
    let (cs, split, other) = leading_split b'1' s in
    let e : with_zeros k (decode_value 0 cs) ≡ some bytes =
      sym (decode_split k cs other) ∙ subst (λ t. base58_decode t ≡ some bytes) split h in
    elim (Option-cases (decode_value 0 cs)) [
      | inl unread ↦ let bad : ◌≡◌ {A = Option (List ℕ)} none (some bytes) = rw unread at e in cc
      | inr (n, read) ↦
          subst (λ t. Canonical t bytes) (sym split)
            (reencoded k n cs bytes other read (rw read at e))
    ]

-- A text that decodes is the one that its bytes are encoded as, so that no two texts stand for the
-- same bytes.
pub base58_encode-base58_decode :
    (s bytes : List ℕ) → base58_decode s ≡ some bytes → base58_encode bytes ≡ some s
base58_encode-base58_decode s bytes h = (decode-Canonical s bytes h).0

pub base58_decode-AreDigits :
    (s bytes : List ℕ) → base58_decode s ≡ some bytes → AreDigits 256 bytes
base58_decode-AreDigits s bytes h = (decode-Canonical s bytes h).1
