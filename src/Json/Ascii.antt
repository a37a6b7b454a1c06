-- ===== src/Json/Ascii.antt =====
-- A text of ASCII characters is read back as it was written.
use mathlib.Core.List.{append_assoc}
use ahlyx_labs.Common.{
  ℕ, zero, ◌+◌, ◌*◌, ◌/◌, ◌%◌, ◌<◌, ◌≡◌, refl, Bool, true, false, ◌||◌, none, some, [], ◌∷◌, ◌++◌,
  Bytes, str, ltb, ◌==◌, if◌then◌else◌, arith, all, subst, sym, ap, ◌∙◌, lt→ltb,
}
use ahlyx_labs.Json.Utf8.{coerce, coerce_from, first_width, width, encode_rune}
use ahlyx_labs.Json.Parse.{read_text, plain, digits, put, unit, hex_digit}
use ahlyx_labs.Json.Render.{escape, render_from, hex}

abbrev pub is_ascii : ℕ → Bool
is_ascii c = ltb c 128

abbrev pub IsAscii : Bytes → Type 0
IsAscii s = all is_ascii s ≡ true

hex_digit-hex : (d : ℕ) → d < 16 → hex_digit (hex d) ≡ some d
unfolding hex_digit
hex_digit-hex d h = ground arith

encode_rune-ascii : (r : ℕ) → r < 128 → encode_rune r ≡ r ∷ []
unfolding encode_rune
encode_rune-ascii r h = rw (lt→ltb r 128 h) refl

first_width-ascii : (a : ℕ) (s : Bytes) → a < 128 → first_width a s ≡ width 0
unfolding first_width
first_width-ascii a s h = rw (lt→ltb a 128 h) refl

unit-ascii : (u : ℕ) → u < 128 → unit none u ≡ (u ∷ [], none)
unfolding unit
unit-ascii u h = ground (arith, encode_rune-ascii u)

read_unicode :
    (c : ℕ) (r : Bytes)
    → c < 128
    → read_text (digits none 2 0) (hex (c / 16) ∷ hex (c % 16) ∷ r)
      ≡ put (c ∷ []) (read_text (plain none) r)
unfolding read_text
read_unicode c r h = ground (
  arith,
  hex_digit-hex (c / 16),
  hex_digit-hex (c % 16),
  unit-ascii ((0 * 16 + c / 16) * 16 + c % 16),
)

read_plain :
    (c : ℕ) (r : Bytes)
    → (c == b'"') ≡ false
    → (c == 92) ≡ false
    → ltb c 32 ≡ false
    → read_text (plain none) (c ∷ r) ≡ put (c ∷ []) (read_text (plain none) r)
unfolding read_text
read_plain c r h i j = ground arith

coerce_from-ascii : (s : Bytes) → IsAscii s → coerce_from zero s ≡ s
unfolding coerce_from
coerce_from-ascii [] h = refl
coerce_from-ascii (a ∷ s) h = ground (arith, first_width-ascii a s, coerce_from-ascii s)

read_escape :
    (c : ℕ) (r : Bytes)
    → c < 128
    → read_text (plain none) (escape c ++ r) ≡ put (c ∷ []) (read_text (plain none) r)
unfolding escape read_text
read_escape c r h =
    round (c == b'"') (c == 92) (c == 8) (c == 12) (c == 10) (c == 13) (c == 9)
      (ltb c 32 || c == b'<' || c == b'>' || c == b'&') (λ e. ground arith) (λ e. ground arith)
      (λ e. ground arith) (λ e. ground arith) (λ e. ground arith) (λ e. ground arith)
      (λ e. ground arith) (λ e e' e''. read_plain c r e e' (ground arith))
  where
    quoted :
        {k : ℕ}
        → c ≡ k
        → read_text (plain none) (92 ∷ k ∷ r) ≡ put (k ∷ []) (read_text (plain none) r)
        → read_text (plain none) (92 ∷ c ∷ r) ≡ put (c ∷ []) (read_text (plain none) r)
    quoted e h =
        subst (λ k. read_text (plain none) (92 ∷ k ∷ r) ≡ put (k ∷ []) (read_text (plain none) r))
          (sym e) h

    named :
        {k : ℕ}
        → c ≡ k
        → put (k ∷ []) (read_text (plain none) r) ≡ put (c ∷ []) (read_text (plain none) r)
    named e = ap (λ k. put (k ∷ []) (read_text (plain none) r)) (sym e)

    round :
        (b1 b2 b3 b4 b5 b6 b7 b8 : Bool)
        → (b1 ≡ true → c ≡ b'"')
        → (b2 ≡ true → c ≡ 92)
        → (b3 ≡ true → c ≡ 8)
        → (b4 ≡ true → c ≡ 12)
        → (b5 ≡ true → c ≡ 10)
        → (b6 ≡ true → c ≡ 13)
        → (b7 ≡ true → c ≡ 9)
        → (b1 ≡ false
            → b2 ≡ false
            → b8 ≡ false
            → read_text (plain none) (c ∷ r) ≡ put (c ∷ []) (read_text (plain none) r))
        → read_text (plain none) (
            (if b1 || b2
              then 92 ∷ c ∷ []
              else if b3
              then str "\\b"
              else if b4
              then str "\\f"
              else if b5
              then str "\\n"
              else if b6
              then str "\\r"
              else if b7
              then str "\\t"
              else if b8
              then str "\\u00" ++ hex (c / 16) ∷ hex (c % 16) ∷ []
              else c ∷ [])
            ++ r)
          ≡ put (c ∷ []) (read_text (plain none) r)
    round true b2 b3 b4 b5 b6 b7 b8 h1 h2 h3 h4 h5 h6 h7 h8 = quoted (h1 refl) refl
    round false true b3 b4 b5 b6 b7 b8 h1 h2 h3 h4 h5 h6 h7 h8 = quoted (h2 refl) refl
    round false false true b4 b5 b6 b7 b8 h1 h2 h3 h4 h5 h6 h7 h8 = named (h3 refl)
    round false false false true b5 b6 b7 b8 h1 h2 h3 h4 h5 h6 h7 h8 = named (h4 refl)
    round false false false false true b6 b7 b8 h1 h2 h3 h4 h5 h6 h7 h8 = named (h5 refl)
    round false false false false false true b7 b8 h1 h2 h3 h4 h5 h6 h7 h8 = named (h6 refl)
    round false false false false false false true b8 h1 h2 h3 h4 h5 h6 h7 h8 = named (h7 refl)
    round false false false false false false false true h1 h2 h3 h4 h5 h6 h7 h8 =
        read_unicode c r h
    round false false false false false false false false h1 h2 h3 h4 h5 h6 h7 h8 =
        h8 refl refl refl

-- The characters of a text, escaped.
abbrev pub escapes : Bytes → Bytes
escapes [] = []
escapes (c ∷ s) = escape c ++ escapes s

pub read_escapes :
    (s r : Bytes) → IsAscii s → read_text (plain none) (escapes s ++ b'"' ∷ r) ≡ some (s, r)
unfolding read_text
read_escapes [] r h = refl
read_escapes (c ∷ s) r h =
    ap (read_text (plain none)) (append_assoc (escape c) (escapes s) (b'"' ∷ r))
    ∙ (read_escape c (escapes s ++ b'"' ∷ r) (ground arith)
        ∙ ap (put (c ∷ [])) (read_escapes s r (ground arith)))

pub render_from-ascii : (s : Bytes) → IsAscii s → render_from zero zero s ≡ escapes s
unfolding render_from
render_from-ascii [] h = refl
render_from-ascii (c ∷ s) h = ground (arith, first_width-ascii c s, render_from-ascii s)

escape-IsAscii : (c : ℕ) → c < 128 → IsAscii (escape c)
unfolding escape
escape-IsAscii c h = ground arith

pub append-IsAscii : (s t : Bytes) → IsAscii s → IsAscii t → IsAscii (s ++ t)
append-IsAscii [] t hs ht = ht
append-IsAscii (c ∷ s) t hs ht = ground (arith, append-IsAscii s t)

pub escapes-IsAscii : (s : Bytes) → IsAscii s → IsAscii (escapes s)
escapes-IsAscii [] h = refl
escapes-IsAscii (c ∷ s) h =
    append-IsAscii (escape c) (escapes s) (escape-IsAscii c (ground arith))
      (escapes-IsAscii s (ground arith))

pub coerce-ascii : (s : Bytes) → IsAscii s → coerce s ≡ s
unfolding coerce
coerce-ascii s h = coerce_from-ascii s h
