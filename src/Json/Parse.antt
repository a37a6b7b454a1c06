-- ===== src/Json/Parse.antt =====
-- The reader of encoding/json: the scanner's grammar, and strings as unquote decodes them.
use ahlyx_labs.Common.{
  ℕ, zero, suc, ◌+◌, ◌-◌, ◌*◌, Bool, true, false, ◌&&◌, ◌||◌, Option, none, some, ◌>>=◌, [], ◌∷◌,
  ◌++◌, Bytes, str, strip_prefix, ltb, leb, ◌==◌, if◌then◌else◌, length,
}
use ahlyx_labs.Json.{
  Json, null, bool, number, text, array, object, Items, nil, cons, Members, end, member,
}
use ahlyx_labs.Json.Utf8.{coerce, encode_rune, replacement}

is_space : ℕ → Bool
is_space c = c == 32 || c == 9 || c == 10 || c == 13

unfoldable pub skip_space : Bytes → Bytes
unfolding is_space
skip_space [] = []
skip_space (c ∷ s) = let rest = skip_space s in if is_space c then rest else c ∷ s

unfoldable pub hex_digit : ℕ → Option ℕ
hex_digit c =
    if leb b'0' c && leb c b'9'
    then some (c - b'0')
    else if leb b'a' c && leb c b'f'
    then some (c - 87)
    else if leb b'A' c && leb c b'F'
    then some (c - 55)
    else none

-- Where the reader of a string stands: between characters, after a backslash, or with so many hex
-- digits of an escape still to come and the value of those before. `half` is a first half of a
-- surrogate pair that is not written yet.
pub data Place : Type 0 where
  plain escaped : Option ℕ → Place
  digits : Option ℕ → ℕ → ℕ → Place

-- A half that has found no second one.
abbrev lone : Option ℕ → Bytes
lone none = []
lone (some h) = replacement

-- A code unit of an escape: what is written, and the half that is open after it.
abbrev is_high : ℕ → Bool
is_high u = leb 0xd800 u && ltb u 0xdc00

abbrev is_low : ℕ → Bool
is_low u = leb 0xdc00 u && ltb u 0xe000

unfoldable pub unit : Option ℕ → ℕ → Bytes × Option ℕ
unfolding encode_rune
unit none u = if is_high u then ([], some u) else (encode_rune u, none)
unit (some h) u =
    if is_low u
    then (encode_rune (0x10000 + (h - 0xd800) * 1024 + (u - 0xdc00)), none)
    else if is_high u
    then (replacement, some u)
    else (replacement ++ encode_rune u, none)

simple_escape : ℕ → Option ℕ
simple_escape c =
    if c == b'"' || c == 92 || c == b'/'
    then some c
    else if c == b'b'
    then some 8
    else if c == b'f'
    then some 12
    else if c == b'n'
    then some 10
    else if c == b'r'
    then some 13
    else if c == b't'
    then some 9
    else none

abbrev pub put : Bytes → Option (Bytes × Bytes) → Option (Bytes × Bytes)
put b none = none
put b (some (s, rest)) = some (b ++ s, rest)

-- The string up to its closing quote, and what follows.
unfoldable pub read_text : Place → Bytes → Option (Bytes × Bytes)
unfolding unit simple_escape hex_digit
read_text p [] = none
read_text (plain half) (c ∷ s) =
    let shut : Option (Bytes × Bytes) = some (lone half, s) in
    elim (c == b'"') [
      | true ↦ shut
      | false ↦ elim (c == 92) [
        | true ↦ read_text (escaped half) s
        | false ↦ elim (ltb c 32) [
          | true ↦ none
          | false ↦ put (lone half ++ c ∷ []) (read_text (plain none) s)
        ]
      ]
    ]
read_text (escaped half) (c ∷ s) = elim (c == b'u') [
  | true ↦ read_text (digits half 4 0) s
  | false ↦ elim (simple_escape c) [
    | none ↦ none
    | some e ↦ put (lone half ++ e ∷ []) (read_text (plain none) s)
  ]
]
read_text (digits half k v) (c ∷ s) = elim (hex_digit c) [
  | none ↦ none
  | some d ↦ elim (leb k 1) [
    | false ↦ read_text (digits half (k - 1) (v * 16 + d)) s
    | true ↦
        let (written, open_half) = unit half (v * 16 + d) in
        put written (read_text (plain open_half) s)
  ]
]

-- The states of a number literal.
pub data Numeral : Type 0 where
  start minus zeros whole point fraction exponent signed powers : Numeral

is_digit : ℕ → Bool
is_digit c = leb b'0' c && leb c b'9'

abbrev when : Bool → Numeral → Option Numeral → Option Numeral
when b n o = if b then some n else o

-- One more character of the literal, or `none` where it cannot belong to it.
next : Numeral → ℕ → Option Numeral
unfolding is_digit
next start c = when (c == b'-') minus (when (c == b'0') zeros (when (is_digit c) whole none))
next minus c = when (c == b'0') zeros (when (is_digit c) whole none)
next zeros c = when (c == b'.') point (when (c == b'e' || c == b'E') exponent none)
next whole c =
    when (is_digit c) whole (when (c == b'.') point (when (c == b'e' || c == b'E') exponent none))
next point c = when (is_digit c) fraction none
next fraction c = when (is_digit c) fraction (when (c == b'e' || c == b'E') exponent none)
next exponent c = when (c == b'+' || c == b'-') signed (when (is_digit c) powers none)
next signed c = when (is_digit c) powers none
next powers c = when (is_digit c) powers none

abbrev complete : Numeral → Bool
complete zeros = true
complete whole = true
complete fraction = true
complete powers = true
complete _ = false

read_number : Numeral → Bytes → Option (Bytes × Bytes)
unfolding next
read_number n [] = if complete n then some ([], []) else none
read_number n (c ∷ s) = elim (next n c) [
  | some m ↦ put (c ∷ []) (read_number m s)
  | none ↦ if complete n then some ([], c ∷ s) else none
]

abbrev as_number : Option (Bytes × Bytes) → Option (Json × Bytes)
as_number none = none
as_number (some (s, rest)) = some (number s, rest)

abbrev as_text : Option (Bytes × Bytes) → Option (Json × Bytes)
as_text none = none
as_text (some (s, rest)) = some (text s, rest)

abbrev or_else {ℓ} : {A : Type ℓ} → Option A → Option A → Option A
or_else (some a) o = some a
or_else none o = o

abbrev word : Json → Bytes → Bytes → Option (Json × Bytes)
word j w s = elim (strip_prefix w s) [ none ↦ none | some rest ↦ some (j, rest) ]

-- A value that holds no other.
unfoldable pub scalar : Bytes → Option (Json × Bytes)
unfolding read_text read_number strip_prefix
scalar [] = none
scalar (c ∷ s) =
    if c == b'"'
    then as_text (read_text (plain none) s)
    else or_else (word (bool true) (str "true") (c ∷ s)) (
        or_else (word (bool false) (str "false") (c ∷ s))
          (or_else (word null (str "null") (c ∷ s)) (as_number (read_number start (c ∷ s)))))

-- Whether the text, after white space, begins with this byte, and what follows.
unfoldable pub token : ℕ → Bytes → Option Bytes
unfolding skip_space
token c s = elim (skip_space s) [ [] ↦ none | d ∷ rest ↦ if c == d then some rest else none ]

-- The fuel is more than the bytes left: each round reads one. `depth` counts the levels that may
-- still be opened.
unfoldable mutual
  unfolding scalar token skip_space read_text

  pub read_value : ℕ → ℕ → Bytes → Option (Json × Bytes)
  read_value zero depth s = none
  read_value (suc fuel) depth s = elim (token b'{' s) [
    | some inside ↦ elim depth [
      | zero ↦ none
      | suc depth' ↦ elim (token b'}' inside) [
        | some rest ↦ some (object end, rest)
        | none ↦ read_members fuel depth' inside >>= λ ((ms, rest) : Members × Bytes).
            some (object ms, rest)
      ]
    ]
    | none ↦ elim (token b'[' s) [
      | some inside ↦ elim depth [
        | zero ↦ none
        | suc depth' ↦ elim (token b']' inside) [
          | some rest ↦ some (array nil, rest)
          | none ↦ read_items fuel depth' inside >>= λ ((js, rest) : Items × Bytes).
              some (array js, rest)
        ]
      ]
      | none ↦ scalar (skip_space s)
    ]
  ]

  pub read_items : ℕ → ℕ → Bytes → Option (Items × Bytes)
  read_items zero depth s = none
  read_items (suc fuel) depth s = do
    (j, rest) ← read_value fuel depth s
    elim (token b',' rest) [
      | some more ↦ do (js, after) ← read_items fuel depth more; some (cons j js, after)
      | none ↦ do after ← token b']' rest; some (cons j nil, after)
    ]

  pub read_members : ℕ → ℕ → Bytes → Option (Members × Bytes)
  read_members zero depth s = none
  read_members (suc fuel) depth s = do
    inside ← token b'"' s
    (key, colon) ← read_text (plain none) inside
    after_colon ← token b':' colon
    (j, rest) ← read_value fuel depth after_colon
    elim (token b',' rest) [
      | some more ↦ do (ms, after) ← read_members fuel depth more; some (member key j ms, after)
      | none ↦ do after ← token b'}' rest; some (member key j end, after)
    ]

abbrev pub max_depth : ℕ
max_depth = 10000

unfoldable pub whole_text : Option (Json × Bytes) → Option Json
unfolding skip_space
whole_text none = none
whole_text (some (j, rest)) = elim (skip_space rest) [ [] ↦ some j | c ∷ s ↦ none ]

-- The document of a text, `none` where the text is not valid JSON.
unfoldable pub parse_json : Bytes → Option Json
unfolding read_value coerce whole_text
parse_json s = let t = coerce s in whole_text (read_value (2 * length t + 2) max_depth t)

-- The first document of a text, as a Decoder reads it; what follows it is left unread.
unfoldable pub parse_first : Bytes → Option Json
unfolding read_value coerce
parse_first s =
    let t = coerce s in
    read_value (2 * length t + 2) max_depth t >>= λ ((j, rest) : Json × Bytes). some j
