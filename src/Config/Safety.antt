-- ===== src/Config/Safety.antt =====
-- What holds of a configuration that Load returns.
use ahlyx_labs.Common.{
  ◌<◌, ◌≡◌, ◌≢◌, refl, Bool, true, false, List, [], ◌∷◌, ◌⊎◌, inl, inr, Bytes, str, str_eq,
  str_eq_iff, All, arith, not, ◌&&◌, if◌then◌else◌, subst,
}
use mathlib.Core.Sum.{inr-injective}
use ahlyx_labs.Net.{IpNet}
use ahlyx_labs.Config.{
  Config, ConfigError, load, load_with, parse_cidr_list, parse_entries, parse_entry, is_ipv4_block,
  or_default, positive_atoi, onto_blocks, split, ttl_of, with_targets, unsafe_visibility, config_of,
}
use ahlyx_labs.Verdict.Space.{trim_space}

abbrev pub IsIpv4Block : IpNet → Type 0
IsIpv4Block block = is_ipv4_block block ≡ true

-- The visibility is one that URLScan does not publish, the allowed targets are IPv4, and the port and
-- the cache's lifetime are given.
abbrev pub IsSafe : Config → Type 0
IsSafe c =
    ((c.urlscan_visibility ≡ str "unlisted") ⊎ (c.urlscan_visibility ≡ str "private"))
    × All IsIpv4Block c.server_scanner_allowed_targets
    × (c.port ≢ [])
    × (0 < c.cache_ttl_seconds)

parse_entry-IsIpv4Block :
    (value : Bytes) (block : IpNet) → parse_entry true value ≡ inr block → IsIpv4Block block
unfolding parse_entry
parse_entry-IsIpv4Block value block e = ground arith

onto_blocks-All :
    (entry : ConfigError ⊎ IpNet) (rest : ConfigError ⊎ List IpNet) (blocks : List IpNet)
    → ((block : IpNet) → entry ≡ inr block → IsIpv4Block block)
    → ((more : List IpNet) → rest ≡ inr more → All IsIpv4Block more)
    → onto_blocks entry rest ≡ inr blocks
    → All IsIpv4Block blocks
onto_blocks-All (inl x) rest blocks one more e = ground arith
onto_blocks-All (inr block) (inl x) blocks one more e = ground arith
onto_blocks-All (inr block) (inr bs) blocks one more e =
    subst (All IsIpv4Block) (inr-injective (block ∷ bs) blocks e) (one block refl, more bs refl)

parse_entries-All :
    (values : List Bytes) (blocks : List IpNet)
    → parse_entries true values ≡ inr blocks
    → All IsIpv4Block blocks
unfolding parse_entries
parse_entries-All [] blocks e = ground arith
parse_entries-All (value ∷ values) blocks e =
    onto_blocks-All (parse_entry true (trim_space value)) (parse_entries true values) blocks
      (parse_entry-IsIpv4Block (trim_space value)) (parse_entries-All values) e

parse_cidr_list-All :
    (raw : Bytes) (blocks : List IpNet)
    → parse_cidr_list raw true ≡ inr blocks
    → All IsIpv4Block blocks
unfolding parse_cidr_list
parse_cidr_list-All [] blocks e = ground arith
parse_cidr_list-All (c ∷ raw) blocks e = parse_entries-All (split (c ∷ raw)) blocks e

or_default-not_empty : (default s : Bytes) → default ≢ [] → or_default default s ≢ []
or_default-not_empty default [] h = h
or_default-not_empty default (c ∷ s) h = λ e. ground arith

positive_atoi-pos : (s : Bytes) → 0 < ttl_of (positive_atoi s)
unfolding positive_atoi
positive_atoi-pos s = ground arith

with_targets-IsSafe :
    (getenv : Bytes → Bytes) (visibility : Bytes) (targets : ConfigError ⊎ List IpNet) (c : Config)
    → (visibility ≡ str "unlisted") ⊎ (visibility ≡ str "private")
    → ((blocks : List IpNet) → targets ≡ inr blocks → All IsIpv4Block blocks)
    → with_targets getenv visibility targets ≡ inr c
    → IsSafe c
with_targets-IsSafe getenv visibility (inl x) c v all e = ground arith
with_targets-IsSafe getenv visibility (inr bs) c v all e =
    subst IsSafe (inr-injective (config_of getenv visibility bs) c e) (
      v,
      all bs refl,
      or_default-not_empty (str "8080") (getenv (str "PORT")) (λ h. ground arith),
      positive_atoi-pos (getenv (str "CACHE_TTL_SECONDS")),
    )

abbrev is_refused : Bytes → Bool
is_refused visibility =
    not (str_eq visibility (str "unlisted")) && not (str_eq visibility (str "private"))

is_refused-false : (v : Bytes) → is_refused v ≡ false → (v ≡ str "unlisted") ⊎ (v ≡ str "private")
is_refused-false v h = ground (arith, str_eq_iff v (str "unlisted"), str_eq_iff v (str "private"))

load_with-IsSafe :
    (getenv : Bytes → Bytes) (visibility : Bytes) (c : Config)
    → load_with getenv visibility ≡ inr c
    → IsSafe c
unfolding load_with
load_with-IsSafe getenv visibility c = round (is_refused visibility) (is_refused-false visibility)
  where
    round :
        (refused : Bool)
        → (refused ≡ false → (visibility ≡ str "unlisted") ⊎ (visibility ≡ str "private"))
        → (if refused
            then inl unsafe_visibility
            else with_targets getenv visibility
                (parse_cidr_list (getenv (str "SERVER_SCANNER_ALLOWED_TARGETS")) true))
          ≡ inr c
        → IsSafe c
    round true v e = ground arith
    round false v e =
        with_targets-IsSafe getenv visibility
          (parse_cidr_list (getenv (str "SERVER_SCANNER_ALLOWED_TARGETS")) true) c (v refl)
          (parse_cidr_list-All (getenv (str "SERVER_SCANNER_ALLOWED_TARGETS"))) e

-- A configuration that is loaded has a visibility that URLScan does not publish, only IPv4 ranges
-- among the scanner's allowed targets, a port, and a lifetime of the cache above 0, whatever the
-- environment.
pub load-IsSafe : (getenv : Bytes → Bytes) (c : Config) → load getenv ≡ inr c → IsSafe c
unfolding load
load-IsSafe getenv c =
    load_with-IsSafe getenv (or_default (str "unlisted") (getenv (str "URLSCAN_VISIBILITY"))) c
