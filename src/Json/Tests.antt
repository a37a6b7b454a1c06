-- ===== src/Json/Tests.antt =====
-- Runs of the reader and the writer of documents.
use ahlyx_labs.Common.{◌≡◌, refl, none, some, [], ◌∷◌, ◌++◌, str}
use ahlyx_labs.Json.{null, number, text, array, object, nil, cons, end, member}
use ahlyx_labs.Json.Utf8.{first_width}
use ahlyx_labs.Json.Parse.{parse_json}
use ahlyx_labs.Json.Render.{render}

parse_nested :
    parse_json (str " { \"a\" : [ 1 , -2.5e+3 , null ] , \"b\" : { } } ")
    ≡ some (
        object (
          member
            (str "a")
            (array (cons (number (str "1")) (cons (number (str "-2.5e+3")) (cons null nil))))
            (member (str "b") (object end) end)))
unfolding parse_json
parse_nested = refl

parse_escapes :
    parse_json (str "\"a\\n\\u00e9\\ud83d\\ude00\\ud83dx\"")
    ≡ some (
        text (b'a' ∷ 10 ∷ 0xc3 ∷ 0xa9 ∷ 0xf0 ∷ 0x9f ∷ 0x98 ∷ 0x80 ∷ 0xef ∷ 0xbf ∷ 0xbd ∷ b'x' ∷ []))
unfolding parse_json
parse_escapes = refl

parse_leading_zero : parse_json (str "01") ≡ none
unfolding parse_json
parse_leading_zero = refl

parse_trailing_comma : parse_json (str "[1,]") ≡ none
unfolding parse_json
parse_trailing_comma = refl

render_escapes :
    render (
      object (
        member
          (str "k")
          (text (str "<a & \"b\">" ++ (10 ∷ 1 ∷ 0xff ∷ 0xc3 ∷ 0xa9 ∷ 0xe2 ∷ 0x80 ∷ 0xa8 ∷ [])))
          end))
    ≡ str "{\"k\":\"\\u003ca \\u0026 \\\"b\\\"\\u003e\\n\\u0001\\ufffd"
      ++ (0xc3 ∷ 0xa9 ∷ str "\\u2028\"}")
unfolding render first_width
render_escapes = refl
