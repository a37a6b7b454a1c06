-- ===== src/Json/Utf8.antt =====
-- UTF-8 as package utf8 decodes and encodes it.
use ahlyx_labs.Common.{
  ℕ, zero, suc, ◌+◌, ◌/◌, ◌%◌, Bool, false, ◌&&◌, [], ◌∷◌, ◌++◌, Bytes, ltb, leb, ◌==◌,
  if◌then◌else◌,
}

-- U+FFFD, which stands for a byte that begins no code point.
abbrev pub replacement : Bytes
replacement = 0xef ∷ 0xbf ∷ 0xbd ∷ []

abbrev between : ℕ → ℕ → ℕ → Bool
between lo hi b = leb lo b && leb b hi

-- How many bytes follow the first of a code point, if the text begins with a valid one.
abbrev two : ℕ → Bytes → Bool
two a (b ∷ s) = between 0xc2 0xdf a && between 0x80 0xbf b
two a [] = false

abbrev three : ℕ → Bytes → Bool
three a (b ∷ c ∷ s) =
    between 0xe0 0xef a
    && between (if a == 0xe0 then 0xa0 else 0x80) (if a == 0xed then 0x9f else 0xbf) b
    && between 0x80 0xbf c
three a _ = false

abbrev four : ℕ → Bytes → Bool
four a (b ∷ c ∷ d ∷ s) =
    between 0xf0 0xf4 a
    && between (if a == 0xf0 then 0x90 else 0x80) (if a == 0xf4 then 0x8f else 0xbf) b
    && between 0x80 0xbf c
    && between 0x80 0xbf d
four a _ = false

pub data Width : Type 0 where
  invalid : Width
  width : ℕ → Width

-- The bytes after the first of the code point at the start of a text.
unfoldable pub first_width : ℕ → Bytes → Width
first_width a s =
    if ltb a 0x80
    then width 0
    else if two a s
    then width 1
    else if three a s
    then width 2
    else if four a s
    then width 3
    else invalid

-- The text with each invalid byte replaced. The number counts the bytes that belong to the code
-- point before.
unfoldable pub coerce_from : ℕ → Bytes → Bytes
unfolding first_width
coerce_from k [] = []
coerce_from (suc k) (a ∷ s) = a ∷ coerce_from k s
coerce_from zero (a ∷ s) = elim (first_width a s) [
  | invalid ↦ replacement ++ coerce_from zero s
  | width k ↦ a ∷ coerce_from k s
]

unfoldable pub coerce : Bytes → Bytes
unfolding coerce_from
coerce s = coerce_from zero s

-- utf8.AppendRune.
unfoldable pub encode_rune : ℕ → Bytes
encode_rune r =
    if ltb r 0x80
    then r ∷ []
    else if ltb r 0x800
    then (0xc0 + r / 64) ∷ (0x80 + r % 64) ∷ []
    else if between 0xd800 0xdfff r
    then replacement
    else if ltb r 0x10000
    then (0xe0 + r / 4096) ∷ (0x80 + r / 64 % 64) ∷ (0x80 + r % 64) ∷ []
    else if leb r 0x10ffff
    then (0xf0 + r / 262144) ∷ (0x80 + r / 4096 % 64) ∷ (0x80 + r / 64 % 64) ∷ (0x80 + r % 64) ∷ []
    else replacement
