-- ===== src/Scanner/Scope/Safety.antt =====
-- A scan stays in the ranges, whatever its target is.
use ahlyx_labs.Common.{
  ℕ, ◌+◌, ◌-◌, ◌%◌, ◌^◌, ◌≤◌, ◌≡◌, sym, ap, subst, ◌∙◌, min, true, Option, none, some, List, inl,
  inr, Bytes, arith, All, Option-cases, Bool-cases,
}
use ahlyx_labs.Net.{Ip, v4, v6, of_bits, IpNet, net4, net6, network_ip, mask_size, mask}
use ahlyx_labs.Net.Parse.{parse_ip, parse_cidr}
use ahlyx_labs.Scanner.Scope.{
  in_scope, hosts_below, enumerate_hosts, hosts_of, resolve_targets, resolve_network,
  resolve_single, resolve_as, or_complement,
}
use ahlyx_labs.Scanner.Scope.Range.{block_in_scope, in_scope-v6}

pub mask-bits : (ones : ℕ) → mask (32 - (32 - ones)) 32 ≡ mask ones 32
mask-bits ones = ap (λ n. 2 ^ 32 - 2 ^ n) same
  where
    same : 32 - (32 - (32 - ones)) ≡ 32 - ones
    same = omega arith

AllInScope : List Ip → Type 0
AllInScope ips = All (λ ip. in_scope ip ≡ true) ips

block :
    (a ones : ℕ)
    → 24 ≤ ones
    → in_scope (v4 a) ≡ true
    → AllInScope (hosts_below (2 ^ 32) ((a + 1) % 2 ^ 32) (or_complement a (mask ones 32)))
unfolding AllInScope
block a ones l h =
    subst
      (λ m.
        All (λ ip. in_scope ip ≡ true)
          (hosts_below (2 ^ 32) ((a + 1) % 2 ^ 32) (or_complement a m)))
      (mask-bits ones) (block_in_scope a (32 - ones) (omega arith) h)

hosts_in_scope :
    (ip : Ip) (ones : ℕ) → 24 ≤ ones → in_scope ip ≡ true → AllInScope (hosts_of ip (mask ones 32))
unfolding hosts_of
hosts_in_scope (v4 a) ones l h = block a ones l h
hosts_in_scope (v6 a) ones l h = ground (arith, in_scope-v6 a)

network_in_scope :
    (net : IpNet)
    → 24 ≤ (mask_size net).0
    → in_scope (network_ip net) ≡ true
    → AllInScope (enumerate_hosts net)
unfolding enumerate_hosts
network_in_scope (net4 a ones) l h = hosts_in_scope (v4 a) ones l h
network_in_scope (net6 a ones) l h = hosts_in_scope (of_bits a) (min ones 32) (omega arith) h

resolve_network-parts :
    (input subnet : Bytes) (net : IpNet) (ips : List Ip)
    → resolve_network input net ≡ inr (ips, subnet)
    → (24 ≤ (mask_size net).0)
      × (in_scope (network_ip net) ≡ true)
      × (enumerate_hosts net ≡ ips)
      × (input ≡ subnet)
unfolding resolve_network
resolve_network-parts input subnet net ips h = elim (Bool-cases (in_scope (network_ip net))) [
  | inl f ↦ ground (arith, f)
  | inr f ↦ ground (arith, f)
]

resolve_network-in_scope :
    (input subnet : Bytes) (net : IpNet) (ips : List Ip)
    → resolve_network input net ≡ inr (ips, subnet)
    → AllInScope ips × (subnet ≡ input)
resolve_network-in_scope input subnet net ips h =
    let (l, f, e, s) = resolve_network-parts input subnet net ips h in
    (subst AllInScope e (network_in_scope net l f), sym s)

resolve_single-in_scope :
    (input subnet : Bytes) (ip : Option Ip) (ips : List Ip)
    → resolve_single input ip ≡ inr (ips, subnet)
    → AllInScope ips × (subnet ≡ input)
unfolding resolve_single AllInScope
resolve_single-in_scope input subnet none ips h = ground arith
resolve_single-in_scope input subnet (some ip) ips h = elim (Bool-cases (in_scope ip)) [
  | inl f ↦ ground (arith, f)
  | inr f ↦ ground (arith, f)
]

-- Whatever text the scanner is given, each address that it resolves to is in a permitted range, and
-- the scan is named after the text.
pub resolve_targets-in_scope :
    (input subnet : Bytes) (ips : List Ip)
    → resolve_targets input ≡ inr (ips, subnet)
    → All (λ ip. in_scope ip ≡ true) ips × (subnet ≡ input)
unfolding resolve_targets resolve_as AllInScope
resolve_targets-in_scope input subnet ips h = elim (Option-cases (parse_cidr input)) [
  | inl e ↦
      resolve_single-in_scope input subnet (parse_ip input) ips (ap (resolve_as input) (sym e) ∙ h)
  | inr (net, e) ↦ resolve_network-in_scope input subnet net ips (ap (resolve_as input) (sym e) ∙ h)
]
