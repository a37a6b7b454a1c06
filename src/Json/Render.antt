-- ===== src/Json/Render.antt =====
-- json.Marshal of a document: compact, and with the characters of HTML escaped.
use ahlyx_labs.Common.{
  ℕ, zero, suc, ◌+◌, ◌-◌, ◌/◌, ◌%◌, true, false, ◌&&◌, ◌||◌, [], ◌∷◌, ◌++◌, Bytes, str, ltb, ◌==◌,
  if◌then◌else◌,
}
use ahlyx_labs.Json.{
  Json, null, bool, number, text, array, object, Items, nil, cons, Members, end, member,
}
use ahlyx_labs.Json.Utf8.{first_width, invalid, width}

abbrev pub hex : ℕ → ℕ
hex d = if ltb d 10 then b'0' + d else 87 + d

-- A byte that is a character of its own.
unfoldable pub escape : ℕ → Bytes
escape c =
    if c == b'"' || c == 92
    then 92 ∷ c ∷ []
    else if c == 8
    then str "\\b"
    else if c == 12
    then str "\\f"
    else if c == 10
    then str "\\n"
    else if c == 13
    then str "\\r"
    else if c == 9
    then str "\\t"
    else if ltb c 32 || c == b'<' || c == b'>' || c == b'&'
    then str "\\u00" ++ hex (c / 16) ∷ hex (c % 16) ∷ []
    else c ∷ []

-- U+2028 and U+2029 are escaped too.
abbrev line_end : ℕ → Bytes → Bytes
line_end a (b ∷ c ∷ s) =
    if a == 0xe2 && b == 0x80 && (c == 0xa8 || c == 0xa9)
    then str "\\u202" ++ (c - 112) ∷ []
    else []
line_end a _ = []

-- The first number counts the bytes to copy, the second those to leave out.
unfoldable pub render_from : ℕ → ℕ → Bytes → Bytes
unfolding escape
render_from k d [] = []
render_from k (suc d) (a ∷ s) = render_from k d s
render_from (suc k) zero (a ∷ s) = a ∷ render_from k zero s
render_from zero zero (a ∷ s) = elim (first_width a s) [
  | invalid ↦ str "\\ufffd" ++ render_from zero zero s
  | width zero ↦ escape a ++ render_from zero zero s
  | width (suc k) ↦ elim (line_end a s) [
    | [] ↦ a ∷ render_from (suc k) zero s
    | b ∷ bs ↦ (b ∷ bs) ++ render_from zero 2 s
  ]
]

unfoldable pub render_text : Bytes → Bytes
unfolding render_from
render_text s = b'"' ∷ (render_from zero zero s ++ b'"' ∷ [])

unfoldable mutual
  unfolding render_text

  pub render : Json → Bytes
  render null = str "null"
  render (bool true) = str "true"
  render (bool false) = str "false"
  render (number literal) = literal
  render (text s) = render_text s
  render (array nil) = str "[]"
  render (array (cons j js)) = b'[' ∷ (render j ++ render_items js)
  render (object end) = str "{}"
  render (object (member key j ms)) =
      b'{' ∷ (render_text key ++ b':' ∷ (render j ++ render_members ms))

  pub render_items : Items → Bytes
  render_items nil = str "]"
  render_items (cons j js) = b',' ∷ (render j ++ render_items js)

  pub render_members : Members → Bytes
  render_members end = str "}"
  render_members (member key j ms) =
      b',' ∷ (render_text key ++ b':' ∷ (render j ++ render_members ms))
