-- ===== src/Tests/Keys.antt =====
-- Base58 and addresses on small texts.
use dogecade.Common.{List, [], arith, refl, some, suc, true, zero, ℕ, ◌↔◌, ◌∷◌, ◌≡◌}
use dogecade.Keyring.Digits.{AreDigits, digits}
use dogecade.Keyring.{base58_decode, base58_encode, decode_value, replicate, validate_address}
use dogecade.Keyring.RoundTrip.{Restores, base58_decode-base58_encode, base58_encode-base58_decode}
use dogecade.Keyring.Addresses.{IsAddressOf, validate_address-IsAddressOf}

abbrev short_text : List ℕ
short_text = b'1' ∷ b'5' ∷ b'Q' ∷ []

short_decoded : base58_decode short_text ≡ some (0 ∷ 255 ∷ [])
unfolding base58_decode decode_value digits
short_decoded = refl

-- A stand-in for SHA-256: thirty-two sevens.
abbrev pub sevens : List ℕ → List ℕ
sevens xs = replicate 32 7

sevens-AreDigits : (xs : List ℕ) → AreDigits 256 (sevens xs)
sevens-AreDigits xs = go 32
  where
    go : (k : ℕ) → AreDigits 256 (replicate k 7)
    go zero = tt
    go (suc k) = (omega arith, go k)

base58_decode-base58_encode_example : Restores (0 ∷ 255 ∷ []) (base58_encode (0 ∷ 255 ∷ []))
base58_decode-base58_encode_example =
    base58_decode-base58_encode (0 ∷ 255 ∷ []) (omega arith, (omega arith, tt))

base58_encode-base58_decode_example : base58_encode (0 ∷ 255 ∷ []) ≡ some short_text
base58_encode-base58_decode_example =
    base58_encode-base58_decode short_text (0 ∷ 255 ∷ []) short_decoded

validate_address-IsAddressOf_example :
    (validate_address sevens short_text ≡ true)
    ↔ ((payload : List ℕ) × IsAddressOf sevens short_text payload)
validate_address-IsAddressOf_example =
    validate_address-IsAddressOf sevens (λ xs. refl) sevens-AreDigits short_text
