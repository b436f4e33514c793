-- ===== src/Keyring/Addresses.antt =====
-- Which texts `validate_address` accepts.
use dogecade.Common.{
  Bool, List, Option, Option-cases, [], ap, arith, false, if◌then◌else◌, inl, inr, length,
  length-append, none, refl, some, suc, sym, take, true, zero, ℕ, ◌&&◌, ◌++◌, ◌==◌, ◌↔◌, ◌∙◌, ◌∷◌,
  ◌≡◌, ◌≤◌,
}
use dogecade.Keyring.Digits.{AreDigits, AreDigits-append, digits}
use dogecade.Keyring.{
  base58_check_decode, base58_check_encode, base58_decode, byte_at, bytes_equal, checked, checksum,
  decode_value, drop, equal_bytes, is_address, valid_version, validate_address,
}
use dogecade.Keyring.RoundTrip.{
  base58_decode-AreDigits, base58_decode-base58_encode, base58_encode-base58_decode,
}

take_append_drop : (n : ℕ) (xs : List ℕ) → take n xs ++ drop n xs ≡ xs
take_append_drop zero xs = refl
take_append_drop (suc n) [] = refl
take_append_drop (suc n) (x ∷ xs) = ap (λ t. x ∷ t) (take_append_drop n xs)

take-append : (xs ys : List ℕ) → take (length xs) (xs ++ ys) ≡ xs
take-append [] ys = refl
take-append (x ∷ xs) ys = ap (λ t. x ∷ t) (take-append xs ys)

drop-append : (xs ys : List ℕ) → drop (length xs) (xs ++ ys) ≡ ys
drop-append [] ys = refl
drop-append (x ∷ xs) ys = drop-append xs ys

length-take : (n : ℕ) (xs : List ℕ) → n ≤ length xs → length (take n xs) ≡ n
length-take zero xs h = refl
length-take (suc n) [] h = absurd (omega arith)
length-take (suc n) (x ∷ xs) h = ap suc (length-take n xs (omega arith))

byte_at-take : (n : ℕ) (xs : List ℕ) → byte_at (take (suc n) xs) 0 ≡ byte_at xs 0
byte_at-take n [] = refl
byte_at-take n (x ∷ xs) = refl

AreDigits-take : (b n : ℕ) (xs : List ℕ) → AreDigits b xs → AreDigits b (take n xs)
AreDigits-take b zero xs h = tt
AreDigits-take b (suc n) [] h = tt
AreDigits-take b (suc n) (x ∷ xs) (p, h) = (p, AreDigits-take b n xs h)

equal_bytes_sound : (xs ys : List ℕ) → length xs ≡ length ys → equal_bytes xs ys ≡ true → xs ≡ ys
equal_bytes_sound [] [] h k = refl
equal_bytes_sound [] (y ∷ ys) h k = absurd (omega arith)
equal_bytes_sound (x ∷ xs) [] h k = absurd (omega arith)
equal_bytes_sound (x ∷ xs) (y ∷ ys) h k =
    let e : x ≡ y = ground arith in
    let f : xs ≡ ys = equal_bytes_sound xs ys (omega arith) (ground arith) in rw (e, f) refl

equal_bytes_refl : (xs : List ℕ) → equal_bytes xs xs ≡ true
equal_bytes_refl [] = refl
equal_bytes_refl (x ∷ xs) = let e : (x == x) ≡ true = ground arith in rw e (equal_bytes_refl xs)

pub bytes_equal_sound : (xs ys : List ℕ) → bytes_equal xs ys ≡ true → xs ≡ ys
unfolding bytes_equal
bytes_equal_sound xs ys h = ground (arith, equal_bytes_sound xs ys)

pub bytes_equal_refl : (xs : List ℕ) → bytes_equal xs xs ≡ true
unfolding bytes_equal
bytes_equal_refl xs =
    let e : (length xs == length xs) ≡ true = ground arith in rw e (equal_bytes_refl xs)

empty_decoded : base58_decode [] ≡ some []
unfolding base58_decode decode_value digits
empty_decoded = refl

some-injective : {xs ys : List ℕ} → ◌≡◌ {A = Option (List ℕ)} (some xs) (some ys) → xs ≡ ys
some-injective h = cc

module _ (sha256 : List ℕ → List ℕ) where
  -- A text that the payload's Base58Check encoding is, where the payload is a version that a
  -- network uses and the twenty bytes of a hash.
  abbrev pub IsAddressOf : List ℕ → List ℕ → Type 0
  IsAddressOf text payload =
      AreDigits 256 payload
      × (length payload ≡ 21)
      × (valid_version (byte_at payload 0) ≡ true)
      × (base58_check_encode sha256 payload ≡ some text)

  -- What the check makes of 25 bytes.
  checked_25 :
      (bytes : List ℕ)
      → length bytes ≡ 25
      → checked sha256 bytes ≡ (
          if bytes_equal (drop 21 bytes) (checksum sha256 (take 21 bytes))
          then some bytes
          else none)
  checked_25 bytes h = rw h refl

  is_address-length :
      (bytes : List ℕ) → is_address (checked sha256 bytes) ≡ true → length bytes ≡ 25
  is_address-length bytes h = ground arith

  is_address-checked :
      (bytes : List ℕ)
      → length bytes ≡ 25
      → is_address (checked sha256 bytes) ≡ (
          bytes_equal (drop 21 bytes) (checksum sha256 (take 21 bytes))
          && valid_version (byte_at bytes 0))
  is_address-checked bytes h = rw (checked_25 bytes h) (ground arith)

  length-checksum :
      ((xs : List ℕ) → length (sha256 xs) ≡ 32) → (xs : List ℕ) → length (checksum sha256 xs) ≡ 4
  length-checksum size xs = length-take 4 (sha256 (sha256 xs)) (omega (arith, size (sha256 xs)))

  validate_address-none :
      (text : List ℕ) → base58_decode text ≡ none → validate_address sha256 text ≡ false
  unfolding validate_address base58_check_decode
  validate_address-none [] e = refl
  validate_address-none (c ∷ cs) e = rw e refl

  validate_address-decoded :
      (text bytes : List ℕ)
      → base58_decode text ≡ some bytes
      → validate_address sha256 text ≡ is_address (checked sha256 bytes)
  unfolding validate_address base58_check_decode
  validate_address-decoded [] bytes e =
      let empty : [] ≡ bytes = some-injective (sym empty_decoded ∙ e) in rw (← empty) refl
  validate_address-decoded (c ∷ cs) bytes e = rw e refl

  -- What stands before the checksum of an accepted text.
  accepted_payload :
      (text bytes : List ℕ)
      → base58_decode text ≡ some bytes
      → validate_address sha256 text ≡ true
      → IsAddressOf text (take 21 bytes)
  unfolding base58_check_encode
  accepted_payload text bytes e h =
      let h' : is_address (checked sha256 bytes) ≡ true =
        sym (validate_address-decoded text bytes e) ∙ h in
      let size : length bytes ≡ 25 = is_address-length bytes h' in
      let both : (bytes_equal (drop 21 bytes) (checksum sha256 (take 21 bytes))
            && valid_version (byte_at bytes 0))
          ≡ true =
        sym (is_address-checked bytes size) ∙ h' in
      let summed : drop 21 bytes ≡ checksum sha256 (take 21 bytes) =
        bytes_equal_sound _ _ (ground arith) in
      let whole : take 21 bytes ++ checksum sha256 (take 21 bytes) ≡ bytes =
        rw (← summed) (take_append_drop 21 bytes) in
      (
        AreDigits-take 256 21 bytes (base58_decode-AreDigits text bytes e),
        length-take 21 bytes (omega arith),
        rw (byte_at-take 20 bytes) (ground arith),
        rw (base58_check_encode, whole) (base58_encode-base58_decode text bytes e),
      )

  module _ (size : (xs : List ℕ) → length (sha256 xs) ≡ 32)
      (below : (xs : List ℕ) → AreDigits 256 (sha256 xs)) where
    encoded_accepted :
        (text payload : List ℕ) → IsAddressOf text payload → validate_address sha256 text ≡ true
    unfolding base58_check_encode
    encoded_accepted text payload (are, len, valid, e) =
        let sum : List ℕ = checksum sha256 payload in
        let (s, f, g) = base58_decode-base58_encode (payload ++ sum) (
          AreDigits-append 256 payload sum are
            (AreDigits-take 256 4 (sha256 (sha256 payload)) (below (sha256 payload)))) in
        let same : s ≡ text = some-injective (sym f ∙ e) in
        let decoded : base58_decode text ≡ some (payload ++ sum) = rw (← same) g in
        let len' : length (payload ++ sum) ≡ 25 =
          omega (arith, length-append payload sum, length-checksum size payload) in
        let front : take 21 (payload ++ sum) ≡ payload = rw (← len) (take-append payload sum) in
        let back : drop 21 (payload ++ sum) ≡ sum = rw (← len) (drop-append payload sum) in
        let first : byte_at (payload ++ sum) 0 ≡ byte_at payload 0 =
          sym (byte_at-take 20 (payload ++ sum)) ∙ ap (λ t. byte_at t 0) front in
        validate_address-decoded text (payload ++ sum) decoded
        ∙ is_address-checked (payload ++ sum) len'
        ∙ rw (front, back, first, bytes_equal_refl sum) valid

    -- A text is accepted exactly if it is the Base58Check encoding of a version byte that a
    -- network uses and the twenty bytes of a hash, for a checksum function that answers 32 bytes.
    pub validate_address-IsAddressOf :
        (text : List ℕ)
        → (validate_address sha256 text ≡ true) ↔ ((payload : List ℕ) × IsAddressOf text payload)
    validate_address-IsAddressOf text = (
      (λ h. elim (Option-cases (base58_decode text)) [
        | inl unread ↦
            let bad : ◌≡◌ {A = Bool} true false = sym h ∙ validate_address-none text unread in cc
        | inr (bytes, e) ↦ (take 21 bytes, accepted_payload text bytes e h)
      ]),
      λ (payload, h). encoded_accepted text payload h,
    )
