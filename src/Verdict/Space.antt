-- ===== src/Verdict/Space.antt =====
-- White space as strings.TrimSpace knows it: the code points of unicode.IsSpace, read byte by byte
-- from UTF-8.
use ahlyx_labs.Common.{
  ℕ, ◌≡◌, refl, Bool, true, false, ◌&&◌, ◌||◌, Option, none, some, [], ◌∷◌, Bytes, str, leb, ◌==◌,
  if◌then◌else◌,
}

-- The bytes of a code point that have been read.
pub data Read : Type 0 where
  between c2 e1 e1_9a e2 e2_80 e2_81 e3 e3_80 : Read

abbrev when : Bool → Read → Option Read
when b r = if b then some r else none

-- One more byte, as long as what is read can be white space.
read : Read → ℕ → Option Read
read between b =
    if b == 32 || (leb 9 b && leb b 13)
    then some between
    else if b == 0xc2
    then some c2
    else if b == 0xe1
    then some e1
    else if b == 0xe2
    then some e2
    else when (b == 0xe3) e3
read c2 b = when (b == 0x85 || b == 0xa0) between
read e1 b = when (b == 0x9a) e1_9a
read e1_9a b = when (b == 0x80) between
read e2 b = if b == 0x80 then some e2_80 else when (b == 0x81) e2_81
read e2_80 b = when (leb 0x80 b && leb b 0x8a || b == 0xa8 || b == 0xa9 || b == 0xaf) between
read e2_81 b = when (b == 0x9f) between
read e3 b = when (b == 0x80) e3_80
read e3_80 b = when (b == 0x80) between

unfoldable pub is_blank : Read → Bytes → Bool
unfolding read
is_blank between [] = true
is_blank _ [] = false
is_blank r (b ∷ s) = elim (read r b) [ none ↦ false | some r' ↦ is_blank r' s ]

blank_examples :
    (is_blank between (str " ") ≡ true)
    × (is_blank between (0xc2 ∷ 0xa0 ∷ 9 ∷ []) ≡ true)
    × (is_blank between (str " x") ≡ false)
unfolding is_blank
blank_examples = (refl, refl, refl)

-- The text from the first code point on that is not white space; `start` is where the one that is
-- being read begins.
trim_left : Read → Bytes → Bytes → Bytes
unfolding read
trim_left between start [] = []
trim_left _ start [] = start
trim_left r start (b ∷ s) = elim (read r b) [
  | none ↦ start
  | some between ↦ trim_left between s s
  | some r' ↦ trim_left r' start s
]

trim_right : Bytes → Bytes
unfolding is_blank
trim_right [] = []
trim_right (b ∷ s) = let rest = trim_right s in if is_blank between (b ∷ s) then [] else b ∷ rest

-- strings.TrimSpace.
unfoldable pub trim_space : Bytes → Bytes
unfolding trim_left trim_right
trim_space s = trim_right (trim_left between s s)

trim_examples :
    (trim_space (str " a b ") ≡ str "a b")
    × (trim_space (0xc2 ∷ 0xa0 ∷ 0xc3 ∷ 0xa9 ∷ 0xe3 ∷ 0x80 ∷ 0x80 ∷ []) ≡ (0xc3 ∷ 0xa9 ∷ []))
    × (trim_space (str "  ") ≡ [])
unfolding trim_space
trim_examples = (refl, refl, refl)
