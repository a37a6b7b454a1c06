-- ===== src/Origin.antt =====
-- internal/shared/origin.go.
pub mod Shape
use ahlyx_labs.Common.{
  ℕ, ◌≡◌, refl, Bool, true, false, not, ◌&&◌, ◌||◌, Option, none, some, List, [], ◌∷◌, ◌++◌, Bytes,
  str, str_eq, strip_prefix, leb, ◌==◌, if◌then◌else◌, ◌>>=◌,
}

pub data OriginKind : Type 0 where
  origin_other origin_production origin_preview : OriginKind

abbrev onto : ℕ → Option Bytes → Option Bytes
onto c none = none
onto c (some s) = some (c ∷ s)

-- What stands before a suffix, or `none` if the text does not end with it.
unfoldable pub strip_suffix : Bytes → Bytes → Option Bytes
strip_suffix suffix [] = if str_eq [] suffix then some [] else none
strip_suffix suffix (c ∷ s) =
    let rest = onto c (strip_suffix suffix s) in if str_eq (c ∷ s) suffix then some [] else rest

-- What stands between the two.
unfoldable pub between : Bytes → Bytes → Bytes → Option Bytes
unfolding strip_suffix
between prefix suffix s = strip_prefix prefix s >>= strip_suffix suffix

abbrev pub is_label_char : ℕ → Bool
is_label_char c = leb b'a' c && leb c b'z' || leb b'0' c && leb c b'9'

-- `[a-z0-9]+`; the test says whether a character has been read.
unfoldable pub is_hashed : Bool → Bytes → Bool
is_hashed some_read [] = some_read
is_hashed some_read (c ∷ s) = let rest = is_hashed true s in is_label_char c && rest

-- `(?:[a-z0-9]+-)*[a-z0-9]+`; the test says whether the label that is being read has a character.
unfoldable pub is_git : Bool → Bytes → Bool
is_git some_read [] = some_read
is_git some_read (c ∷ s) =
    let label = is_git true s in
    let next = is_git false s in if is_label_char c then label else c == b'-' && some_read && next

abbrev matches : (Bytes → Bool) → Option Bytes → Bool
matches p none = false
matches p (some s) = p s

abbrev pub preview_suffix : Bytes
preview_suffix = str "-ahlyx-labs.vercel.app"

unfoldable pub ahlyx_hashed_preview_origin : Bytes → Bool
unfolding between is_hashed
ahlyx_hashed_preview_origin origin =
    matches (is_hashed false) (between (str "https://ahlyx-labs-") preview_suffix origin)

unfoldable pub ahlyx_git_preview_origin : Bytes → Bool
unfolding between is_git
ahlyx_git_preview_origin origin =
    matches (is_git false) (between (str "https://ahlyx-labs-git-") preview_suffix origin)

unfoldable pub classify_origin : Bytes → OriginKind
unfolding ahlyx_hashed_preview_origin ahlyx_git_preview_origin
classify_origin origin =
    if str_eq origin (str "https://ahlyxlabs.com")
      || str_eq origin (str "https://www.ahlyxlabs.com")
    then origin_production
    else if ahlyx_hashed_preview_origin origin || ahlyx_git_preview_origin origin
    then origin_preview
    else origin_other

abbrev pub is_other : OriginKind → Bool
is_other origin_other = true
is_other _ = false

abbrev is_preview : OriginKind → Bool
is_preview origin_preview = true
is_preview _ = false

unfoldable pub is_allowed_browser_origin : Bytes → Bool
unfolding classify_origin
is_allowed_browser_origin origin = not (is_other (classify_origin origin))

-- Of the header, which is empty where there is none.
unfoldable pub should_log_query_telemetry : Bytes → Bool
unfolding classify_origin
should_log_query_telemetry origin = not (is_preview (classify_origin origin))
