-- ===== src/Validators/Domain.antt =====
-- IsValidDomain of internal/enrichment/validators/validators.go. A label has no dot, so what the
-- regular expression repeats is what stands between the dots.
use ahlyx_labs.Common.{
  ℕ, Bool, true, false, ◌&&◌, ◌||◌, is_some, List, [], ◌∷◌, Bytes, leb, ◌==◌, if◌then◌else◌, length,
}
use ahlyx_labs.Net.Parse.{parse_ip}

abbrev is_letter : ℕ → Bool
is_letter c = leb b'a' c && leb c b'z' || leb b'A' c && leb c b'Z'

abbrev is_alnum : ℕ → Bool
is_alnum c = is_letter c || leb b'0' c && leb c b'9'

abbrev onto_first : ℕ → List Bytes → List Bytes
onto_first c [] = (c ∷ []) ∷ []
onto_first c (part ∷ parts) = (c ∷ part) ∷ parts

unfoldable pub split_dots : Bytes → List Bytes
split_dots [] = [] ∷ []
split_dots (c ∷ s) =
    let parts = split_dots s in if c == b'.' then [] ∷ parts else onto_first c parts

-- `[a-zA-Z0-9\-]*[a-zA-Z0-9]`.
unfoldable pub ends_alnum : Bytes → Bool
ends_alnum [] = false
ends_alnum (c ∷ []) = is_alnum c
ends_alnum (c ∷ d ∷ s) = let rest = ends_alnum (d ∷ s) in (is_alnum c || c == b'-') && rest

-- `[a-zA-Z0-9](?:[a-zA-Z0-9\-]{0,61}[a-zA-Z0-9])?`.
unfoldable pub is_label : Bytes → Bool
unfolding ends_alnum
is_label [] = false
is_label (c ∷ []) = is_alnum c
is_label (c ∷ d ∷ s) = is_alnum c && ends_alnum (d ∷ s) && leb (length s) 61

abbrev all_letters : Bytes → Bool
all_letters [] = true
all_letters (c ∷ s) = is_letter c && all_letters s

-- `[a-zA-Z]{2,}`.
unfoldable pub is_tld : Bytes → Bool
is_tld s = leb 2 (length s) && all_letters s

-- At least one label, and the TLD last.
unfoldable pub are_labels : List Bytes → Bool
unfolding is_label is_tld
are_labels [] = false
are_labels (tld ∷ []) = false
are_labels (l ∷ tld ∷ []) = is_label l && is_tld tld
are_labels (l ∷ m ∷ n ∷ more) = let rest = are_labels (m ∷ n ∷ more) in is_label l && rest

-- strings.TrimSuffix(s, ".").
unfoldable pub trim_dot : Bytes → Bytes
trim_dot [] = []
trim_dot (c ∷ []) = if c == b'.' then [] else c ∷ []
trim_dot (c ∷ d ∷ s) = c ∷ trim_dot (d ∷ s)

unfoldable pub is_valid_domain : Bytes → Bool
unfolding split_dots are_labels trim_dot
is_valid_domain s = if is_some (parse_ip s) then false else are_labels (split_dots (trim_dot s))
