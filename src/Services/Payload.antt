-- ===== src/Services/Payload.antt =====
-- The submission to URLScan, read back.
use mathlib.Core.List.{append_assoc}
use ahlyx_labs.Common.{
  ℕ, suc, ◌+◌, ◌*◌, ◌≡◌, refl, ◌⊎◌, inl, inr, none, some, [], ◌∷◌, ◌++◌, Bytes, str, ◌>>=◌, str_eq,
  arith, length, ap, sym, ◌∙◌, subst,
}
use ahlyx_labs.Json.{Json, text, object, end, member}
use ahlyx_labs.Json.Parse.{parse_json, read_value, read_text, plain, whole_text, max_depth}
use ahlyx_labs.Json.Utf8.{first_width}
use ahlyx_labs.Json.Render.{render}
use ahlyx_labs.Json.Ascii.{
  IsAscii, escapes, read_escapes, render_from-ascii, escapes-IsAscii, append-IsAscii, coerce-ascii,
}
use ahlyx_labs.Services.UrlScan.{urlscan_payload}
use ahlyx_labs.Config.{Config, load}
use ahlyx_labs.Config.Safety.{load-IsSafe}

abbrev pub submission : Bytes → Bytes → Json
submission url visibility =
    object (member (str "url") (text url) (member (str "visibility") (text visibility) end))

-- The payload as a text.
abbrev body_of : Bytes → Bytes → Bytes
body_of url rest = str "{\"url\":\"" ++ (escapes url ++ b'"' ∷ rest)

abbrev unlisted_rest : Bytes
unlisted_rest = str ",\"visibility\":\"unlisted\"}"

abbrev private_rest : Bytes
private_rest = str ",\"visibility\":\"private\"}"

render-unlisted :
    (url : Bytes)
    → IsAscii url
    → render (submission url (str "unlisted")) ≡ body_of url unlisted_rest
unfolding render first_width
render-unlisted url h =
    ap (λ t. str "{\"url\":\"" ++ ((t ++ b'"' ∷ []) ++ unlisted_rest)) (render_from-ascii url h)
    ∙ ap (λ t. str "{\"url\":\"" ++ t) (append_assoc (escapes url) (b'"' ∷ []) unlisted_rest)

read-unlisted :
    (k : ℕ) (url X : Bytes)
    → read_text (plain none) X ≡ some (url, unlisted_rest)
    → read_value (suc (suc (suc (suc (suc (suc k)))))) max_depth (str "{\"url\":\"" ++ X)
      ≡ some (submission url (str "unlisted"), [])
unfolding read_value
read-unlisted k url X e = rw e refl

render-private :
    (url : Bytes) → IsAscii url → render (submission url (str "private")) ≡ body_of url private_rest
unfolding render first_width
render-private url h =
    ap (λ t. str "{\"url\":\"" ++ ((t ++ b'"' ∷ []) ++ private_rest)) (render_from-ascii url h)
    ∙ ap (λ t. str "{\"url\":\"" ++ t) (append_assoc (escapes url) (b'"' ∷ []) private_rest)

read-private :
    (k : ℕ) (url X : Bytes)
    → read_text (plain none) X ≡ some (url, private_rest)
    → read_value (suc (suc (suc (suc (suc (suc k)))))) max_depth (str "{\"url\":\"" ++ X)
      ≡ some (submission url (str "private"), [])
unfolding read_value
read-private k url X e = rw e refl

body-IsAscii : (url rest : Bytes) → IsAscii url → IsAscii rest → IsAscii (body_of url rest)
body-IsAscii url rest hu hr =
    append-IsAscii (str "{\"url\":\"") (escapes url ++ b'"' ∷ rest) refl
      (append-IsAscii (escapes url) (b'"' ∷ rest) (escapes-IsAscii url hu) hr)

-- There is fuel enough: the text is longer than its depth.
fuel :
    (X : Bytes)
    → (k : ℕ) × (2 * length (str "{\"url\":\"" ++ X) + 2 ≡ suc (suc (suc (suc (suc (suc k))))))
fuel X = (2 * length X + 12, omega arith)

parse-body :
    (url rest visibility : Bytes)
    → IsAscii url
    → IsAscii rest
    → ((k : ℕ) (X : Bytes)
        → read_text (plain none) X ≡ some (url, rest)
        → read_value (suc (suc (suc (suc (suc (suc k)))))) max_depth (str "{\"url\":\"" ++ X)
          ≡ some (submission url visibility, []))
    → parse_json (body_of url rest) ≡ some (submission url visibility)
unfolding parse_json
parse-body url rest visibility hu hr read =
    ap (λ t. whole_text (read_value (2 * length t + 2) max_depth t))
      (coerce-ascii (body_of url rest) (body-IsAscii url rest hu hr))
    ∙ (ap (λ n. whole_text (read_value n max_depth (body_of url rest))) k.1
        ∙ ap whole_text (read (k.0) (escapes url ++ b'"' ∷ rest) (read_escapes url rest hu)))
  where
    k : (k : ℕ) × (2 * length (body_of url rest) + 2 ≡ suc (suc (suc (suc (suc (suc k))))))
    k = fuel (escapes url ++ b'"' ∷ rest)

payload-at :
    (url rest visibility : Bytes)
    → urlscan_payload url visibility ≡ some (render (submission url visibility))
    → render (submission url visibility) ≡ body_of url rest
    → parse_json (body_of url rest) ≡ some (submission url visibility)
    → (urlscan_payload url visibility >>= parse_json) ≡ some (submission url visibility)
payload-at url rest visibility p r q = ap (λ o. o >>= parse_json) p ∙ (ap parse_json r ∙ q)

payload-unlisted :
    (url : Bytes)
    → IsAscii url
    → (urlscan_payload url (str "unlisted") >>= parse_json) ≡ some (submission url (str "unlisted"))
unfolding urlscan_payload str_eq
payload-unlisted url h =
    payload-at url unlisted_rest (str "unlisted") refl (render-unlisted url h)
      (parse-body url unlisted_rest (str "unlisted") h refl (λ k X. read-unlisted k url X))

payload-private :
    (url : Bytes)
    → IsAscii url
    → (urlscan_payload url (str "private") >>= parse_json) ≡ some (submission url (str "private"))
unfolding urlscan_payload str_eq
payload-private url h =
    payload-at url private_rest (str "private") refl (render-private url h)
      (parse-body url private_rest (str "private") h refl (λ k X. read-private k url X))

-- With a configuration that was loaded, the payload for URLScan is there, and it reads back as an
-- object of exactly the URL and the visibility, for every URL of ASCII characters: no quote, bracket
-- or control character in the URL adds to the object or changes the visibility.
pub urlscan_payload-roundtrip :
    (getenv : Bytes → Bytes) (c : Config) (url : Bytes)
    → load getenv ≡ inr c
    → IsAscii url
    → (urlscan_payload url c.urlscan_visibility >>= parse_json)
      ≡ some (submission url c.urlscan_visibility)
urlscan_payload-roundtrip getenv c url e h = round c.urlscan_visibility ((load-IsSafe getenv c e).0)
  where
    round :
        (v : Bytes)
        → (v ≡ str "unlisted") ⊎ (v ≡ str "private")
        → (urlscan_payload url v >>= parse_json) ≡ some (submission url v)
    round v (inl e) =
        subst (λ v. (urlscan_payload url v >>= parse_json) ≡ some (submission url v)) (sym e)
          (payload-unlisted url h)
    round v (inr e) =
        subst (λ v. (urlscan_payload url v >>= parse_json) ≡ some (submission url v)) (sym e)
          (payload-private url h)
