-- ===== src/Validators.antt =====
-- The checks of a submitted indicator, internal/enrichment/validators/validators.go. Of them the
-- domain and the URL, which need a regular expression and a URL parser, are left out.
pub mod Hash
pub mod Domain
use ahlyx_labs.Common.{
  ℕ, Bool, true, false, not, ◌&&◌, ◌||◌, Option, none, some, is_some, List, [], ◌∷◌, Bytes, str,
  leb, ◌==◌, if◌then◌else◌, length,
}
use ahlyx_labs.Net.{Ip, IpNet, contains}
use ahlyx_labs.Net.Parse.{parse_ip, parse_cidr}

unfoldable pub is_valid_ip : Bytes → Bool
is_valid_ip s = is_some (parse_ip s)

unfoldable pub bogon_cidrs : List Bytes
bogon_cidrs =
    str "0.0.0.0/8"
    ∷ str "10.0.0.0/8"
    ∷ str "100.64.0.0/10"
    ∷ str "127.0.0.0/8"
    ∷ str "169.254.0.0/16"
    ∷ str "172.16.0.0/12"
    ∷ str "192.0.0.0/24"
    ∷ str "192.0.2.0/24"
    ∷ str "192.168.0.0/16"
    ∷ str "198.18.0.0/15"
    ∷ str "198.51.100.0/24"
    ∷ str "203.0.113.0/24"
    ∷ str "224.0.0.0/4"
    ∷ str "240.0.0.0/4"
    ∷ str "255.255.255.255/32"
    ∷ str "::1/128"
    ∷ str "fc00::/7"
    ∷ str "fe80::/10"
    ∷ str "ff00::/8"
    ∷ str "100::/64"
    ∷ str "2001:db8::/32"
    ∷ str "::/128"
    ∷ []

-- The loop over the ranges; one that does not parse is passed over.
unfoldable pub in_cidrs : List Bytes → Ip → Bool
in_cidrs [] ip = false
in_cidrs (cidr ∷ cidrs) ip = elim (parse_cidr cidr) [
  | none ↦ in_cidrs cidrs ip
  | some network ↦ if contains network ip then true else in_cidrs cidrs ip
]

unfoldable pub is_bogon : Ip → Bool
unfolding in_cidrs bogon_cidrs
is_bogon ip = in_cidrs bogon_cidrs ip

unfoldable pub is_bogon_ip : Bytes → Bool
unfolding is_bogon
is_bogon_ip s = elim (parse_ip s) [ none ↦ false | some ip ↦ is_bogon ip ]

abbrev pub is_hex_char : ℕ → Bool
is_hex_char c =
    (leb b'0' c && leb c b'9') || (leb b'a' c && leb c b'f') || (leb b'A' c && leb c b'F')

-- The loop reads runes. One of more than a byte, or of a byte that is no text, is no hex digit, and
-- so is none of its bytes.
unfoldable pub all_hex : Bytes → Bool
all_hex [] = true
all_hex (c ∷ s) = if not (is_hex_char c) then false else all_hex s

unfoldable pub is_valid_hash : Bytes → Bool
unfolding all_hex
is_valid_hash s =
    let l = length s in if not (l == 32) && not (l == 40) && not (l == 64) then false else all_hex s

unfoldable pub detect_hash_type : Bytes → Bytes
detect_hash_type s =
    if length s == 32
    then str "md5"
    else if length s == 40
    then str "sha1"
    else if length s == 64
    then str "sha256"
    else str ""
