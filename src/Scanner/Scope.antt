-- ===== src/Scanner/Scope.antt =====
-- What a scan may touch, internal/scanner/scanner.go: the ranges, the reading of the target and the
-- list of its addresses.
pub mod Range
pub mod Safety
use ahlyx_labs.Common.{
  ◌>>=◌, ℕ, zero, suc, ◌+◌, ◌-◌, ◌*◌, ◌/◌, ◌%◌, ◌^◌, Bool, true, false, not, Option, none, some,
  List, [], ◌∷◌, ◌⊎◌, inl, inr, Bytes, str, ltb, if◌then◌else◌,
}
use ahlyx_labs.Net.{Ip, v4, to4, IpNet, contained, network_ip, mask_size, mask_head}
use ahlyx_labs.Net.Parse.{parse_ip, parse_cidr}

-- ErrSubnetTooLarge, ErrOutOfScope and the error of a text that is no target.
pub data ScanError : Type 0 where
  subnet_too_large out_of_scope invalid_input : ScanError

-- A text that does not parse is a panic at the start of the program.
unfoldable pub must_parse_cidrs : List Bytes → Option (List IpNet)
unfolding parse_cidr
must_parse_cidrs [] = some []
must_parse_cidrs (c ∷ cs) = do
  block ← parse_cidr c
  blocks ← must_parse_cidrs cs
  some (block ∷ blocks)

unfoldable pub in_scope_blocks : List IpNet
unfolding must_parse_cidrs parse_cidr
in_scope_blocks =
    elim (must_parse_cidrs (
      str "10.0.0.0/8"
      ∷ str "172.16.0.0/12"
      ∷ str "192.168.0.0/16"
      ∷ str "127.0.0.0/8"
      ∷ str "169.254.0.0/16"
      ∷ [])) [ none ↦ [] | some blocks ↦ blocks ]

unfoldable pub in_scope : Ip → Bool
in_scope ip = contained in_scope_blocks ip

-- `start | ^mask` on 32 bits, for a mask of leading ones.
abbrev pub or_complement : ℕ → ℕ → ℕ
or_complement start mask = let low = 2 ^ 32 - mask in start / low * low + (low - 1)

-- The loop of enumerateHosts over uint32 addresses. It has at most 2 ^ 32 rounds, since each address
-- but the last is below `broadcast`.
unfoldable pub hosts_below : ℕ → ℕ → ℕ → List Ip
hosts_below zero addr broadcast = []
hosts_below (suc fuel) addr broadcast = elim (ltb addr broadcast) [
  | false ↦ []
  | true ↦ v4 addr ∷ hosts_below fuel ((addr + 1) % 2 ^ 32) broadcast
]

-- An address that is not IPv4 is its own only host.
unfoldable pub hosts_of : Ip → ℕ → List Ip
hosts_of ip mask = elim (to4 ip) [
  | none ↦ ip ∷ []
  | some start ↦ hosts_below (2 ^ 32) ((start + 1) % 2 ^ 32) (or_complement start mask)
]

unfoldable pub enumerate_hosts : IpNet → List Ip
unfolding hosts_of
enumerate_hosts net = hosts_of (network_ip net) (mask_head net)

abbrev pub max_subnet_bits : ℕ
max_subnet_bits = 24

unfoldable pub resolve_network : Bytes → IpNet → ScanError ⊎ (List Ip × Bytes)
resolve_network input net =
    if ltb ((mask_size net).0) max_subnet_bits
    then inl subnet_too_large
    else elim (in_scope (network_ip net)) [
      | false ↦ inl out_of_scope
      | true ↦ inr (enumerate_hosts net, input)
    ]

unfoldable pub resolve_single : Bytes → Option Ip → ScanError ⊎ (List Ip × Bytes)
resolve_single input none = inl invalid_input
resolve_single input (some ip) =
    if not (in_scope ip) then inl out_of_scope else inr (ip ∷ [], input)

-- The targets by the network that the text is read as, if it is one.
unfoldable pub resolve_as : Bytes → Option IpNet → ScanError ⊎ (List Ip × Bytes)
unfolding resolve_network resolve_single
resolve_as input (some net) = resolve_network input net
resolve_as input none = resolve_single input (parse_ip input)

-- The targets of a text, with the text itself as the name of the subnet.
unfoldable pub resolve_targets : Bytes → ScanError ⊎ (List Ip × Bytes)
unfolding resolve_as
resolve_targets input = resolve_as input (parse_cidr input)
