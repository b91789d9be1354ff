-- ===== src/Crypto/Hex.antt =====
-- Hexadecimal text: `hexEncode` and `hexDecode` of c++/src/core/crypto.cpp, and the conversions
-- between fixed-size arrays and their text. A string is the bytes of its characters.
use shifupool.Base.{
  Bool, ◌||◌, ◌==◌, ℕ, ◌+◌, ◌-◌, ◌*◌, ◌/◌, ◌%◌, ◌<◌, ◌≡◌, refl, ◌&&◌, Option, none, some, [], ◌∷◌,
  arith, Bytes, take, ltb, leb, if◌then◌else◌, All,
}

-- `lut`, "0123456789ABCDEF"
hex_digit : ℕ → ℕ
hex_digit d = if ltb d 10 then b'0' + d else b'A' + (d - 10)

unfoldable pub hex_encode : Bytes → Bytes
unfolding hex_digit
hex_encode [] = []
hex_encode (c ∷ buffer) = hex_digit (c / 16) ∷ hex_digit (c % 16) ∷ hex_encode buffer

-- The value of a character as `strtol(…, 16)` reads it; `none` ends the number.
hex_value : ℕ → Option ℕ
hex_value c =
    if leb b'0' c && leb c b'9'
    then some (c - b'0')
    else if leb b'A' c && leb c b'F'
    then some (c - b'A' + 10)
    else if leb b'a' c && leb c b'f'
    then some (c - b'a' + 10)
    else none

-- The digit of a second character, if there is one.
digit_value : Option ℕ → Option ℕ
unfolding hex_value
digit_value none = none
digit_value (some c) = hex_value c

-- `isspace`, in the C locale
is_space : ℕ → Bool
is_space c = c == b' ' || (leb 9 c && leb c 13)

-- `(char) strtol(…, NULL, 16)` on the one or two characters of `byteString`, as a byte: a blank or a sign
-- may stand before a digit, the prefix `0x` without a digit is the number 0, and text without a
-- digit is 0 as well.
strtol2 : ℕ → Option ℕ → ℕ
unfolding hex_value digit_value is_space
strtol2 c d = elim (hex_value c) [
  | some hi ↦ elim (digit_value d) [ none ↦ hi | some lo ↦ hi * 16 + lo ]
  | none ↦ elim (digit_value d) [
    | none ↦ 0
    | some v ↦ if is_space c || c == b'+' then v else if c == b'-' then (256 - v) % 256 else 0
  ]
]

unfoldable pub hex_decode : Bytes → Bytes
unfolding strtol2
hex_decode [] = []
hex_decode (c ∷ []) = strtol2 c none ∷ []
hex_decode (c ∷ d ∷ hex) = strtol2 c (some d) ∷ hex_decode hex

-- `stringToSHA256`, `stringToWalletAddress`, `stringToPrivateKey`: the first bytes are moved into the
-- array. (`bytes.begin() + size` runs past the end of shorter text.)
unfoldable pub string_to_sha256 : Bytes → Bytes
string_to_sha256 hex = take 32 (hex_decode hex)

unfoldable pub sha256_to_string : Bytes → Bytes
sha256_to_string h = hex_encode h

unfoldable pub string_to_wallet_address : Bytes → Bytes
string_to_wallet_address s = take 25 (hex_decode s)

unfoldable pub wallet_address_to_string : Bytes → Bytes
wallet_address_to_string p = hex_encode p

unfoldable pub string_to_private_key : Bytes → Bytes
string_to_private_key p = take 64 (hex_decode p)

unfoldable pub private_key_to_string : Bytes → Bytes
private_key_to_string p = hex_encode p

strtol2-hex_digit : (c : ℕ) → c < 256 → strtol2 (hex_digit (c / 16)) (some (hex_digit (c % 16))) ≡ c
unfolding strtol2 hex_digit
strtol2-hex_digit c h = ground arith

-- HexDecode of the text that hexEncode gives for bytes is those bytes.
pub hex_decode-hex_encode : (bs : Bytes) → All (λ x. x < 256) bs → hex_decode (hex_encode bs) ≡ bs
unfolding hex_decode hex_encode
hex_decode-hex_encode [] h = refl
hex_decode-hex_encode (c ∷ bs) h = λ i. strtol2-hex_digit c h.0 i ∷ hex_decode-hex_encode bs h.1 i
