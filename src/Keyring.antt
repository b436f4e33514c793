-- ===== src/Keyring.antt =====
-- internal/keyring/keyring.go: Base58Check and the validation of an address, over bytes. SHA-256
-- is a parameter.
pub mod Digits
pub mod Alphabet
pub mod RoundTrip
pub mod Addresses
use dogecade.Common.{
  Bool, List, Option, [], false, if◌then◌else◌, length, ltb, map, none, some, suc, take, true, zero,
  ℕ, ◌&&◌, ◌*◌, ◌++◌, ◌+◌, ◌-◌, ◌==◌, ◌||◌, ◌∷◌,
}
use dogecade.Keyring.Digits.{digits, value}

abbrev pub base58_alphabet : List ℕ
base58_alphabet =
    b'1' ∷ b'2' ∷ b'3' ∷ b'4' ∷ b'5' ∷ b'6' ∷ b'7' ∷ b'8' ∷ b'9' ∷ b'A' ∷ b'B' ∷ b'C' ∷ b'D' ∷ b'E'
    ∷ b'F' ∷ b'G' ∷ b'H' ∷ b'J' ∷ b'K' ∷ b'L' ∷ b'M' ∷ b'N' ∷ b'P' ∷ b'Q' ∷ b'R' ∷ b'S' ∷ b'T'
    ∷ b'U' ∷ b'V' ∷ b'W' ∷ b'X' ∷ b'Y' ∷ b'Z' ∷ b'a' ∷ b'b' ∷ b'c' ∷ b'd' ∷ b'e' ∷ b'f' ∷ b'g'
    ∷ b'h' ∷ b'i' ∷ b'j' ∷ b'k' ∷ b'm' ∷ b'n' ∷ b'o' ∷ b'p' ∷ b'q' ∷ b'r' ∷ b's' ∷ b't' ∷ b'u'
    ∷ b'v' ∷ b'w' ∷ b'x' ∷ b'y' ∷ b'z' ∷ []

-- The byte at a position; the code asks for none behind the end.
abbrev pub byte_at : List ℕ → ℕ → ℕ
byte_at [] i = 0
byte_at (c ∷ cs) zero = c
byte_at (c ∷ cs) (suc i) = byte_at cs i

abbrev pub char_of : ℕ → ℕ
char_of d = byte_at base58_alphabet d

-- The map from the characters of the alphabet to their positions.
abbrev pub position : ℕ → List ℕ → ℕ → Option ℕ
position c [] i = none
position c (x ∷ xs) i = let rest = position c xs (suc i) in if x == c then some i else rest

abbrev pub alphabet_map : ℕ → Option ℕ
alphabet_map c = position c base58_alphabet 0

-- How many elements in front are `c`.
abbrev pub leading : ℕ → List ℕ → ℕ
leading c [] = 0
leading c (x ∷ xs) = let rest = leading c xs in if x == c then suc rest else 0

abbrev pub drop : ℕ → List ℕ → List ℕ
drop zero xs = xs
drop (suc n) [] = []
drop (suc n) (x ∷ xs) = drop n xs

abbrev pub replicate : ℕ → ℕ → List ℕ
replicate zero x = []
replicate (suc n) x = x ∷ replicate n x

-- The loop of base58Decode: `none` at a character outside the alphabet.
unfoldable pub decode_value : ℕ → List ℕ → Option ℕ
decode_value acc [] = some acc
decode_value acc (c ∷ cs) = elim (alphabet_map c) [
  | none ↦ none
  | some b ↦ decode_value (acc * 58 + b) cs
]

abbrev pub or_empty : Option (List ℕ) → List ℕ
or_empty none = []
or_empty (some xs) = xs

-- `Bytes` of math/big: most significant byte first, none for zero.
abbrev pub big_bytes : ℕ → List ℕ
big_bytes n = or_empty (digits 256 n n [])

-- As many zero bytes in front of a number's bytes.
abbrev pub with_zeros : ℕ → Option ℕ → Option (List ℕ)
with_zeros k none = none
with_zeros k (some n) = some (replicate k 0 ++ big_bytes n)

unfoldable pub base58_decode : List ℕ → Option (List ℕ)
base58_decode encoded =
    let ones = leading b'1' encoded in with_zeros ones (decode_value 0 (drop ones encoded))

-- As many ones in front of the characters of a number's digits. The code appends the characters
-- and reverses them at the end; `digits` has them in that order.
abbrev pub with_ones : ℕ → Option (List ℕ) → Option (List ℕ)
with_ones k none = none
with_ones k (some ds) = some (replicate k b'1' ++ map char_of ds)

-- `none` would be a loop that has not ended within as many rounds as the number.
unfoldable pub base58_encode : List ℕ → Option (List ℕ)
base58_encode [] = some []
base58_encode (x ∷ xs) =
    let n = value 256 0 (x ∷ xs) in
    if n == 0
    then some (replicate (length (x ∷ xs)) b'1')
    else with_ones (leading 0 (x ∷ xs)) (digits 58 n n [])

-- Equal lengths, and equal bytes at every position.
abbrev pub equal_bytes : List ℕ → List ℕ → Bool
equal_bytes [] t = true
equal_bytes (a ∷ s) [] = true
equal_bytes (a ∷ s) (b ∷ t) = (a == b) && equal_bytes s t

unfoldable pub bytes_equal : List ℕ → List ℕ → Bool
bytes_equal a b = if length a == length b then equal_bytes a b else false

-- The version bytes of mainnet, testnet and regtest addresses.
abbrev pub valid_version : ℕ → Bool
valid_version v = (v == 0x1e) || (v == 0x16) || (v == 0x71) || (v == 0xc4) || (v == 0x6f)

abbrev pub is_address : Option (List ℕ) → Bool
is_address none = false
is_address (some decoded) =
    if length decoded == 25 then valid_version (byte_at decoded 0) else false

module _ (sha256 : List ℕ → List ℕ) where
  abbrev pub checksum : List ℕ → List ℕ
  checksum payload = take 4 (sha256 (sha256 payload))

  -- The data, where their last four bytes are the checksum of the others.
  abbrev pub checked : List ℕ → Option (List ℕ)
  checked decoded =
      let split = length decoded - 4 in
      if ltb (length decoded) 4
      then none
      else if bytes_equal (drop split decoded) (checksum (take split decoded))
      then some decoded
      else none

  abbrev pub checked_option : Option (List ℕ) → Option (List ℕ)
  checked_option none = none
  checked_option (some decoded) = checked decoded

  unfoldable pub base58_check_decode : List ℕ → Option (List ℕ)
  base58_check_decode encoded = checked_option (base58_decode encoded)

  unfoldable pub base58_check_encode : List ℕ → Option (List ℕ)
  base58_check_encode payload = base58_encode (payload ++ checksum payload)

  unfoldable pub validate_address : List ℕ → Bool
  validate_address [] = false
  validate_address (c ∷ cs) = is_address (base58_check_decode (c ∷ cs))
