-- ===== src/Services/Query.antt =====
-- url.QueryEscape, which url.Values.Encode applies to keys and values.
use ahlyx_labs.Common.{
  ℕ, ◌+◌, ◌/◌, ◌%◌, Bool, ◌&&◌, ◌||◌, [], ◌∷◌, Bytes, ltb, leb, ◌==◌, if◌then◌else◌,
}

abbrev stays : ℕ → Bool
stays c =
    leb b'a' c && leb c b'z'
    || leb b'A' c && leb c b'Z'
    || leb b'0' c && leb c b'9'
    || c == b'-'
    || c == b'_'
    || c == b'.'
    || c == b'~'

abbrev upper_hex : ℕ → ℕ
upper_hex d = if ltb d 10 then b'0' + d else 55 + d

unfoldable pub query_escape : Bytes → Bytes
query_escape [] = []
query_escape (c ∷ s) =
    let rest = query_escape s in
    if stays c
    then c ∷ rest
    else if c == 32
    then b'+' ∷ rest
    else b'%' ∷ upper_hex (c / 16) ∷ upper_hex (c % 16) ∷ rest
