-- ===== src/Json/Decode.antt =====
-- json.Unmarshal of a document into a variable. `none` is an error; where the source's callers look
-- at no variable after an error, what was stored before it is left out.
use ahlyx_labs.Common.{
  ℕ, ◌+◌, ◌-◌, ◌*◌, Bool, true, false, ◌&&◌, Option, none, some, List, [], ◌∷◌, Bytes, strip_prefix,
  ltb, leb, ◌==◌, if◌then◌else◌, ℤ, pos, negsuc,
}
use ahlyx_labs.Json.{
  Json, null, bool, number, text, array, object, Items, nil, cons, Members, end, member,
}

upper : ℕ → ℕ
upper c = if leb b'a' c && leb c b'z' then c - 32 else c

-- The key without a first character that folds to the letter: the letter itself in either case, or
-- the Kelvin sign for a `k` and the long s for an `s`.
strip_letter : ℕ → Bytes → Option Bytes
unfolding upper strip_prefix
strip_letter n [] = none
strip_letter n (c ∷ key) =
    if upper c == upper n
    then some key
    else if upper n == b'K'
    then strip_prefix (0xe2 ∷ 0x84 ∷ 0xaa ∷ []) (c ∷ key)
    else if upper n == b'S'
    then strip_prefix (0xc5 ∷ 0xbf ∷ []) (c ∷ key)
    else none

-- Whether a key of a document names the field of this tag, up to case.
unfoldable pub names_field : Bytes → Bytes → Bool
unfolding strip_letter
names_field [] [] = true
names_field [] (c ∷ key) = false
names_field (n ∷ tag) key = elim (strip_letter n key) [
  | none ↦ false
  | some rest ↦ names_field tag rest
]

module _ {A : Type 0} where
  -- The members one after another, each stored over what the earlier ones have left.
  unfoldable pub store_members : (A → Bytes → Json → Option A) → A → Members → Option A
  store_members store a end = some a
  store_members store a (member key j ms) = elim (store a key j) [
    | none ↦ none
    | some b ↦ store_members store b ms
  ]

  -- Into a struct. A null leaves it as it is.
  unfoldable pub decode_struct : (A → Bytes → Json → Option A) → A → Json → Option A
  unfolding store_members
  decode_struct store a null = some a
  decode_struct store a (object ms) = store_members store a ms
  decode_struct store a _ = none

  decode_items : (Json → Option A) → Items → Option (List A)
  decode_items decode nil = some []
  decode_items decode (cons j js) = elim (decode j) [
    | none ↦ none
    | some a ↦ elim (decode_items decode js) [ none ↦ none | some as_list ↦ some (a ∷ as_list) ]
  ]

  -- Into a slice, whose null is the empty one.
  unfoldable pub decode_slice : (Json → Option A) → Json → Option (List A)
  unfolding decode_items
  decode_slice decode null = some []
  decode_slice decode (array js) = decode_items decode js
  decode_slice decode _ = none

  -- Through a pointer, which a null makes nil.
  abbrev pub decode_pointer : (Json → Option A) → Json → Option (Option A)
  decode_pointer decode null = some none
  decode_pointer decode j = elim (decode j) [ none ↦ none | some a ↦ some (some a) ]

  -- Into a variable with a value, which a null leaves as it is.
  abbrev pub decode_over : (Json → Option A) → A → Json → Option A
  decode_over decode a null = some a
  decode_over decode a j = decode j

abbrev pub decode_text : Json → Option Bytes
decode_text (text s) = some s
decode_text _ = none

abbrev pub decode_bool : Json → Option Bool
decode_bool (bool b) = some b
decode_bool _ = none

read_digits : ℕ → Bytes → Option ℕ
read_digits n [] = some n
read_digits n (c ∷ s) =
    let more = read_digits (n * 10 + (c - b'0')) s in
    if leb b'0' c && leb c b'9' then more else none

signed : Bool → Option ℕ → Option ℤ
signed minus none = none
signed false (some n) = if ltb n 9223372036854775808 then some (pos n) else none
signed true (some n) =
    if n == 0
    then some (pos 0)
    else if leb n 9223372036854775808
    then some (negsuc (n - 1))
    else none

-- strconv.ParseInt of a literal of the grammar: no fraction, no exponent, and within 64 bits.
unfoldable pub parse_int : Bytes → Option ℤ
unfolding read_digits signed
parse_int [] = none
parse_int (c ∷ s) =
    if c == b'-' then signed true (read_digits 0 s) else signed false (read_digits 0 (c ∷ s))

abbrev pub decode_int : Json → Option ℤ
decode_int (number literal) = parse_int literal
decode_int _ = none
