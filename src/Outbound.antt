-- ===== src/Outbound.antt =====
-- The policy on targets that the server itself connects to,
-- internal/enrichment/services/outbound_target.go. What the resolver answers is an argument.
pub mod Policy
use ahlyx_labs.Common.{
  Bool, true, false, not, ◌||◌, Option, none, some, ◌>>=◌, List, [], ◌∷◌, ◌⊎◌, inl, inr, Bytes, str,
  if◌then◌else◌,
}
use ahlyx_labs.Net.{
  Ip, IpNet, contains, is_unspecified, is_loopback, is_private, is_link_local_unicast,
  is_link_local_multicast, is_multicast,
}
use ahlyx_labs.Net.Parse.{parse_cidr}

-- A text that does not parse is a panic at the start of the program.
unfoldable pub must_cidrs : List Bytes → Option (List IpNet)
must_cidrs [] = some []
must_cidrs (value ∷ values) = do
  block ← parse_cidr value
  blocks ← must_cidrs values
  some (block ∷ blocks)

unfoldable pub special_use_cidrs : List IpNet
unfolding must_cidrs parse_cidr
special_use_cidrs =
    elim (must_cidrs (
      str "0.0.0.0/8"
      ∷ str "100.64.0.0/10"
      ∷ str "192.0.0.0/24"
      ∷ str "192.0.2.0/24"
      ∷ str "198.18.0.0/15"
      ∷ str "198.51.100.0/24"
      ∷ str "203.0.113.0/24"
      ∷ str "224.0.0.0/4"
      ∷ str "240.0.0.0/4"
      ∷ str "255.255.255.255/32"
      ∷ str "::/128"
      ∷ str "100::/64"
      ∷ str "2001:db8::/32"
      ∷ str "fc00::/7"
      ∷ str "fe80::/10"
      ∷ str "ff00::/8"
      ∷ [])) [ none ↦ [] | some blocks ↦ blocks ]

unfoldable pub in_special_use : List IpNet → Ip → Bool
in_special_use [] ip = false
in_special_use (cidr ∷ cidrs) ip = if contains cidr ip then true else in_special_use cidrs ip

-- Of an address that is not nil.
unfoldable pub is_public_internet_ip : Ip → Bool
unfolding in_special_use special_use_cidrs
is_public_internet_ip ip =
    if is_unspecified ip
      || is_loopback ip
      || is_private ip
      || is_link_local_unicast ip
      || is_link_local_multicast ip
      || is_multicast ip
    then false
    else not (in_special_use special_use_cidrs ip)

pub data ResolveError : Type 0 where
  resolution_failed non_public_address : ResolveError

-- The loop over the answers, `none` for the nil error.
unfoldable pub check_public : List Ip → Option ResolveError
unfolding is_public_internet_ip
check_public [] = none
check_public (ip ∷ ips) =
    if not (is_public_internet_ip ip) then some non_public_address else check_public ips

-- What becomes of the resolver's answer, `none` for its error.
accept : Option (List Ip) → ResolveError ⊎ List Ip
unfolding check_public
accept none = inl resolution_failed
accept (some []) = inl resolution_failed
accept (some (ip ∷ ips)) = elim (check_public (ip ∷ ips)) [ some e ↦ inl e | none ↦ inr (ip ∷ ips) ]

unfoldable pub resolve_public_target : (Bytes → Option (List Ip)) → Bytes → ResolveError ⊎ List Ip
unfolding accept
resolve_public_target resolver host = accept (resolver host)
