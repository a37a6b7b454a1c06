-- ===== src/Config.antt =====
-- internal/shared/config.go. The environment, with the .env file loaded, is an argument; a variable
-- that is not set is empty.
pub mod Safety
use ahlyx_labs.Common.{
  ℕ, zero, suc, ◌+◌, ◌-◌, ◌*◌, Bool, true, false, not, ◌&&◌, ◌||◌, Option, none, some, List, [],
  ◌∷◌, ◌⊎◌, inl, inr, Bytes, str, str_eq, ltb, leb, ◌==◌, if◌then◌else◌,
}
use ahlyx_labs.Net.{IpNet, network_ip, to4}
use ahlyx_labs.Net.Parse.{parse_cidr}
use ahlyx_labs.Verdict.Space.{trim_space}

pub record Config : Type 0 where
  pub port : Bytes
  pub abuse_ipdb_key : Bytes
  pub virus_total_key : Bytes
  pub ip_info_key : Bytes
  pub otx_key : Bytes
  pub google_safe_browsing_key : Bytes
  pub urlscan_key : Bytes
  pub urlscan_active_submission : Bool
  pub urlscan_visibility : Bytes
  pub server_scanner_enabled : Bool
  pub server_scanner_allowed_targets : List IpNet
  pub cloudflare_origin_secret : Bytes
  pub cache_ttl_seconds : ℕ

pub data ConfigError : Type 0 where
  unsafe_visibility : ConfigError
  empty_entry : ConfigError
  invalid_entry not_ipv4_entry : Bytes → ConfigError

abbrev onto_first : ℕ → List Bytes → List Bytes
onto_first c [] = (c ∷ []) ∷ []
onto_first c (part ∷ parts) = (c ∷ part) ∷ parts

-- strings.Split at commas.
unfoldable pub split : Bytes → List Bytes
split [] = [] ∷ []
split (c ∷ s) = let parts = split s in if c == b',' then [] ∷ parts else onto_first c parts

-- The first error of an entry and the entries after it, or the blocks.
abbrev onto_blocks : ConfigError ⊎ IpNet → ConfigError ⊎ List IpNet → ConfigError ⊎ List IpNet
onto_blocks (inl e) rest = inl e
onto_blocks (inr block) (inl e) = inl e
onto_blocks (inr block) (inr blocks) = inr (block ∷ blocks)

abbrev is_ipv4_block : IpNet → Bool
is_ipv4_block block = elim (to4 (network_ip block)) [ none ↦ false | some n ↦ true ]

-- One entry, without the white space around it.
parse_entry : Bool → Bytes → ConfigError ⊎ IpNet
unfolding parse_cidr
parse_entry ipv4_only [] = inl empty_entry
parse_entry ipv4_only (c ∷ value) = elim (parse_cidr (c ∷ value)) [
  | none ↦ inl (invalid_entry (c ∷ value))
  | some block ↦
      if ipv4_only && not (is_ipv4_block block) then inl (not_ipv4_entry (c ∷ value)) else inr block
]

unfoldable pub parse_entries : Bool → List Bytes → ConfigError ⊎ List IpNet
unfolding parse_entry trim_space
parse_entries ipv4_only [] = inr []
parse_entries ipv4_only (value ∷ values) =
    onto_blocks (parse_entry ipv4_only (trim_space value)) (parse_entries ipv4_only values)

-- The name of the variable, which stands in the messages, is left out.
unfoldable pub parse_cidr_list : Bytes → Bool → ConfigError ⊎ List IpNet
unfolding parse_entries split
parse_cidr_list [] ipv4_only = inr []
parse_cidr_list (c ∷ raw) ipv4_only = parse_entries ipv4_only (split (c ∷ raw))

digits_from : ℕ → Bytes → Option ℕ
digits_from n [] = some n
digits_from n (c ∷ s) =
    let more = digits_from (n * 10 + (c - b'0')) s in
    if leb b'0' c && leb c b'9' then more else none

abbrev number_of : Bytes → Option ℕ
number_of [] = none
number_of (c ∷ s) = digits_from 0 (c ∷ s)

abbrev positive : Option ℕ → Option ℕ
positive none = none
positive (some n) = if ltb 0 n && ltb n 9223372036854775808 then some n else none

-- strconv.Atoi where it gives a number above 0.
unfoldable pub positive_atoi : Bytes → Option ℕ
unfolding digits_from
positive_atoi [] = none
positive_atoi (c ∷ s) = positive (if c == b'+' then number_of s else number_of (c ∷ s))

abbrev or_default : Bytes → Bytes → Bytes
or_default default [] = default
or_default default (c ∷ s) = c ∷ s

abbrev ttl_of : Option ℕ → ℕ
ttl_of none = 3600
ttl_of (some n) = n

-- The configuration that is returned at the end.
abbrev config_of : (Bytes → Bytes) → Bytes → List IpNet → Config
config_of getenv visibility targets = record {
  port = or_default (str "8080") (getenv (str "PORT"));
  abuse_ipdb_key = getenv (str "ABUSEIPDB_API_KEY");
  virus_total_key = getenv (str "VIRUSTOTAL_API_KEY");
  ip_info_key = getenv (str "IPINFO_API_KEY");
  otx_key = getenv (str "OTX_API_KEY");
  google_safe_browsing_key = getenv (str "GOOGLE_SAFE_BROWSING_API_KEY");
  urlscan_key = getenv (str "URLSCAN_API_KEY");
  urlscan_active_submission = str_eq (getenv (str "URLSCAN_ACTIVE_SUBMISSION")) (str "true");
  urlscan_visibility = visibility;
  server_scanner_enabled = str_eq (getenv (str "SERVER_SCANNER_ENABLED")) (str "true");
  server_scanner_allowed_targets = targets;
  cloudflare_origin_secret = getenv (str "CLOUDFLARE_ORIGIN_SECRET");
  cache_ttl_seconds = ttl_of (positive_atoi (getenv (str "CACHE_TTL_SECONDS")));
}

abbrev with_targets : (Bytes → Bytes) → Bytes → ConfigError ⊎ List IpNet → ConfigError ⊎ Config
with_targets getenv visibility (inl e) = inl e
with_targets getenv visibility (inr targets) = inr (config_of getenv visibility targets)

load_with : (Bytes → Bytes) → Bytes → ConfigError ⊎ Config
unfolding parse_cidr_list positive_atoi
load_with getenv visibility =
    if not (str_eq visibility (str "unlisted")) && not (str_eq visibility (str "private"))
    then inl unsafe_visibility
    else with_targets getenv visibility
        (parse_cidr_list (getenv (str "SERVER_SCANNER_ALLOWED_TARGETS")) true)

unfoldable pub load : (Bytes → Bytes) → ConfigError ⊎ Config
unfolding load_with
load getenv = load_with getenv (or_default (str "unlisted") (getenv (str "URLSCAN_VISIBILITY")))
