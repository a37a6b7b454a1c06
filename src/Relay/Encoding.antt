-- ===== src/Relay/Encoding.antt =====
-- internal/pcap/session.go, randomHex, randomToken and validSessionID, with what they use of
-- encoding/hex and encoding/base64. The random bytes are arguments, `none` where rand.Read fails.
use ahlyx_labs.Common.{
  ℕ, ◌+◌, ◌*◌, ◌/◌, ◌%◌, ◌<◌, ◌-◌, ◌≡◌, ◌≢◌, refl, Bool, true, false, ◌&&◌, ◌||◌, Option, none,
  some, [], ◌∷◌, Bytes, arith, leb, ltb, ◌==◌, if◌then◌else◌, length, All, not,
}

-- hex.EncodeToString
abbrev pub hex_digit : ℕ → ℕ
hex_digit d = if ltb d 10 then b'0' + d else 87 + d

unfoldable pub hex_encode : Bytes → Bytes
hex_encode [] = []
hex_encode (b ∷ bs) = hex_digit (b / 16) ∷ hex_digit (b % 16) ∷ hex_encode bs

-- hex.DecodeString, as far as its error: both nibbles of each pair are digits, and no byte is over.
abbrev pub is_hex_byte : ℕ → Bool
is_hex_byte c =
    (leb b'0' c && leb c b'9') || (leb b'a' c && leb c b'f') || (leb b'A' c && leb c b'F')

unfoldable pub hex_decodes : Bytes → Bool
hex_decodes [] = true
hex_decodes (c ∷ []) = false
hex_decodes (c ∷ d ∷ s) = is_hex_byte c && is_hex_byte d && hex_decodes s

-- base64.RawURLEncoding.EncodeToString: 6 bits to a character, no padding.
abbrev pub url_digit : ℕ → ℕ
url_digit d =
    if ltb d 26
    then b'A' + d
    else if ltb d 52
    then 71 + d
    else if ltb d 62
    then d - 4
    else if d == 62
    then b'-'
    else b'_'

unfoldable pub base64_encode : Bytes → Bytes
base64_encode [] = []
base64_encode (a ∷ []) = url_digit (a / 4) ∷ url_digit (a % 4 * 16) ∷ []
base64_encode (a ∷ b ∷ []) =
    url_digit (a / 4) ∷ url_digit (a % 4 * 16 + b / 16) ∷ url_digit (b % 16 * 4) ∷ []
base64_encode (a ∷ b ∷ c ∷ bs) =
    url_digit (a / 4)
    ∷ url_digit (a % 4 * 16 + b / 16)
    ∷ url_digit (b % 16 * 4 + c / 64)
    ∷ url_digit (c % 64)
    ∷ base64_encode bs

unfoldable pub random_hex : Option Bytes → Option Bytes
random_hex none = none
random_hex (some b) = some (hex_encode b)

unfoldable pub random_token : Option Bytes → Option Bytes
random_token none = none
random_token (some b) = some (base64_encode b)

unfoldable pub valid_session_id : Bytes → Bool
valid_session_id id = if not (length id == 32) then false else hex_decodes id

-- `b := make([]byte, size)` filled by rand.Read.
abbrev pub IsRandom : ℕ → Bytes → Type 0
IsRandom size b = (length b ≡ size) × All (λ x. x < 256) b

hex_encode-decodes : (b : Bytes) → All (λ x. x < 256) b → hex_decodes (hex_encode b) ≡ true
unfolding hex_encode hex_decodes
hex_encode-decodes [] h = refl
hex_encode-decodes (x ∷ b) h = ground (arith, hex_encode-decodes b h.1)

length-hex_encode : (b : Bytes) → length (hex_encode b) ≡ 2 * length b
unfolding hex_encode
length-hex_encode [] = omega arith
length-hex_encode (x ∷ b) = omega (arith, length-hex_encode b)

-- An identifier made from 16 random bytes is one that the store accepts.
pub random_hex-valid :
    (b id : Bytes) → IsRandom 16 b → random_hex (some b) ≡ some id → valid_session_id id ≡ true
unfolding random_hex valid_session_id
random_hex-valid b id r e = ground (arith, hex_encode-decodes b r.1, length-hex_encode b)

-- A token made from 32 random bytes is not empty.
pub random_token-ne :
    (b token : Bytes) → IsRandom 32 b → random_token (some b) ≡ some token → token ≢ []
unfolding random_token base64_encode
random_token-ne [] token r e = ground arith
random_token-ne (x ∷ []) token r e = ground arith
random_token-ne (x ∷ y ∷ []) token r e = ground arith
random_token-ne (x ∷ y ∷ z ∷ b) token r e = ground arith
