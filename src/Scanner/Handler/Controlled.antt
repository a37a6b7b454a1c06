-- ===== src/Scanner/Handler/Controlled.antt =====
-- What the controlled endpoint lets through.
use ahlyx_labs.Common.{
  ℕ, ◌-◌, ◌/◌, ◌^◌, ◌≤◌, ◌<◌, ◌≡◌, refl, sym, ap, subst, ◌∙◌, Bool, true, false, not, ◌&&◌, ◌||◌,
  Option, none, some, List, [], ◌∷◌, inl, inr, Bytes, ltb, if◌then◌else◌, arith, Bool-cases,
  Option-cases, All, All-mono,
}
use ahlyx_labs.Net.{Ip, v4, v6, of_bits, IpNet, net4, net6, mask, contains, contains_number}
use ahlyx_labs.Net.Parse.{parse_ip, parse_cidr}
use ahlyx_labs.Scanner.Scope.{
  out_of_scope, in_scope, in_scope_blocks, must_parse_cidrs, resolve_targets, resolve_as,
  resolve_network, resolve_single, enumerate_hosts, hosts_of, or_complement,
}
use ahlyx_labs.Scanner.Scope.Range.{same_block, hosts_below-IsBetween, IsBetween, in_scope-lt}
use ahlyx_labs.Scanner.Scope.Safety.{mask-bits}
use ahlyx_labs.Scanner.Handler.{
  is_private_lab_ip, within_allowed, validate_controlled_target, controlled_as, controlled_network,
  last_ipv4, is_lab,
}

div_mono : (a b m : ℕ) → a ≤ b → a / m ≤ b / m
div_mono a b m h = grind arith

-- A block with two addresses has those between them.
contains_number-between :
    (base : Ip) (o p a x z : ℕ)
    → contains_number base o p (v4 a) ≡ true
    → contains_number base o p (v4 z) ≡ true
    → a ≤ x
    → x ≤ z
    → contains_number base o p (v4 x) ≡ true
contains_number-between (v6 b) o p a x z ha hz l r = ground arith
contains_number-between (v4 b) o p a x z ha hz l r =
    ground (arith, div_mono a x (2 ^ (32 - o)) l, div_mono x z (2 ^ (32 - o)) r)

contains-between :
    (block : IpNet) (a x z : ℕ)
    → contains block (v4 a) ≡ true
    → contains block (v4 z) ≡ true
    → a ≤ x
    → x ≤ z
    → contains block (v4 x) ≡ true
contains-between (net4 b o) a x z = contains_number-between (v4 b) o 0 a x z
contains-between (net6 b o) a x z = contains_number-between (of_bits b) (o - 96) o a x z

private-block :
    (a b : ℕ)
    → a / 256 ≡ b / 256
    → is_private_lab_ip (v4 a) ≡ true
    → is_private_lab_ip (v4 b) ≡ true
unfolding is_private_lab_ip
private-block a b h p = ground arith

private-in_scope : (ip : Ip) → is_private_lab_ip ip ≡ true → in_scope ip ≡ true
unfolding is_private_lab_ip in_scope in_scope_blocks must_parse_cidrs parse_cidr
private-in_scope (v6 a) h = ground arith
private-in_scope (v4 a) h = ground arith

-- The guards of a network, by their answers.
guards :
    (narrow lab first last_lab last : Bool)
    → (if not true || narrow || not lab
        then some out_of_scope
        else if not first || not (last_lab && last)
        then some out_of_scope
        else none)
      ≡ none
    → (narrow ≡ false) × (lab ≡ true) × (first ≡ true) × (last ≡ true)
guards narrow lab first last_lab last h = ground arith

-- What an accepted network is.
controlled_network-parts :
    (a ones : ℕ) (allowed : List IpNet)
    → controlled_network (net4 a ones) allowed ≡ none
    → (24 ≤ ones)
      × (is_private_lab_ip (v4 a) ≡ true)
      × (within_allowed (v4 a) allowed ≡ true)
      × (within_allowed (v4 (or_complement a (mask ones 32))) allowed ≡ true)
unfolding controlled_network last_ipv4
controlled_network-parts a ones allowed h =
    let (narrow, lab, first, last) =
      guards (ltb ones 24) (is_private_lab_ip (v4 a)) (within_allowed (v4 a) allowed)
        (is_private_lab_ip (v4 (or_complement a (mask ones 32))))
        (within_allowed (v4 (or_complement a (mask ones 32))) allowed) h in
    (ground (arith, narrow), lab, first, last)

last-block : (a ones : ℕ) → 24 ≤ ones → or_complement a (mask ones 32) / 256 ≡ a / 256
last-block a ones l =
    subst (λ m. or_complement a m / 256 ≡ a / 256) (mask-bits ones)
      (same_block (32 - ones) a (omega (arith, l)))

between-block :
    (a ones x : ℕ) → 24 ≤ ones → a < x → x < or_complement a (mask ones 32) → a / 256 ≡ x / 256
between-block a ones x l lo hi = go _ (last-block a ones l) hi
  where
    go : (z : ℕ) → z / 256 ≡ a / 256 → x < z → a / 256 ≡ x / 256
    go z e h = omega (arith, e, h, lo)

-- The hosts of an accepted network lie between its address and its last one.
scanned :
    (a ones : ℕ)
    → 24 ≤ ones
    → is_private_lab_ip (v4 a) ≡ true
    → All (IsBetween a (or_complement a (mask ones 32))) (enumerate_hosts (net4 a ones))
unfolding enumerate_hosts hosts_of
scanned a ones l p = hosts_below-IsBetween (2 ^ 32) a _ _ (omega (arith, low)) (bounded _ same)
  where
    low : a / 256 < 2 ^ 24 - 1
    low = in_scope-lt a (private-in_scope (v4 a) p)

    same : or_complement a (mask ones 32) / 256 ≡ a / 256
    same = last-block a ones l

    bounded : (x : ℕ) → x / 256 ≡ a / 256 → x < 2 ^ 32
    bounded x e = omega (arith, low, e)

resolve-net4 :
    (input : Bytes) (a ones : ℕ)
    → 24 ≤ ones
    → is_private_lab_ip (v4 a) ≡ true
    → parse_cidr input ≡ some (net4 a ones)
    → resolve_targets input ≡ inr (enumerate_hosts (net4 a ones), input)
unfolding resolve_targets resolve_as resolve_network
resolve-net4 input a ones l p e = rw (e, private-in_scope (v4 a) p) (ground arith)

resolve-single :
    (input : Bytes) (ip : Ip)
    → is_private_lab_ip ip ≡ true
    → parse_cidr input ≡ none
    → parse_ip input ≡ some ip
    → resolve_targets input ≡ inr (ip ∷ [], input)
unfolding resolve_targets resolve_as resolve_single
resolve-single input ip p e f = rw (e, f, private-in_scope ip p) refl

both : (p w : Bool) → (p && w) ≡ true → (p ≡ true) × (w ≡ true)
both p w h = ground arith

net6-refused :
    (a ones : ℕ) (allowed : List IpNet) → controlled_network (net6 a ones) allowed ≡ none → ⊥
unfolding controlled_network
net6-refused a ones allowed h = ground arith

-- A property of every address that a scan of the text would touch: the text resolves, and to
-- addresses that all have it.
abbrev pub Scans : Bytes → (Ip → Type 0) → Type 0
Scans input P = (ips : List Ip) × (resolve_targets input ≡ inr (ips, input)) × All P ips

module _ (P : Ip → Type 0) (input : Bytes) (allowed : List IpNet)
    (single : (ip : Ip) → is_private_lab_ip ip ≡ true → within_allowed ip allowed ≡ true → P ip)
    (between : (a ones x : ℕ)
      → 24 ≤ ones
      → is_private_lab_ip (v4 a) ≡ true
      → within_allowed (v4 a) allowed ≡ true
      → within_allowed (v4 (or_complement a (mask ones 32))) allowed ≡ true
      → a < x
      → x < or_complement a (mask ones 32)
      → P (v4 x)) where
  accepted_single :
      (ip : Option Ip)
      → parse_cidr input ≡ none
      → parse_ip input ≡ ip
      → is_lab ip allowed ≡ true
      → Scans input P
  accepted_single none e f h = ground arith
  accepted_single (some ip) e f h =
      let (p, w) = both (is_private_lab_ip ip) (within_allowed ip allowed) h in
      (ip ∷ [], resolve-single input ip p e f, (single ip p w, tt))

  accepted_network :
      (net : IpNet)
      → parse_cidr input ≡ some net
      → controlled_network net allowed ≡ none
      → Scans input P
  accepted_network (net6 a ones) e h = absurd (net6-refused a ones allowed h)
  accepted_network (net4 a ones) e h =
      let (l, p, f, z) = controlled_network-parts a ones allowed h in
      (
        enumerate_hosts (net4 a ones),
        resolve-net4 input a ones l p e,
        All-mono (λ ip (b, i, lo, hi). subst P (sym i) (between a ones b l p f z lo hi))
            (enumerate_hosts (net4 a ones)) (scanned a ones l p),
      )

  lab_of : (ip : Option Ip) → controlled_as none ip allowed ≡ none → is_lab ip allowed ≡ true
  unfolding controlled_as
  lab_of ip h = elim (Bool-cases (is_lab ip allowed)) [ inl e ↦ e | inr e ↦ ground (arith, e) ]

  accepted : validate_controlled_target input allowed ≡ none → Scans input P
  unfolding validate_controlled_target controlled_as
  accepted h = elim (Option-cases (parse_cidr input)) [
    | inl e ↦
        accepted_single (parse_ip input) e refl
          (lab_of (parse_ip input) (ap (λ n. controlled_as n (parse_ip input) allowed) (sym e) ∙ h))
    | inr (net, e) ↦
        accepted_network net e (ap (λ n. controlled_as n (parse_ip input) allowed) (sym e) ∙ h)
  ]

-- An accepted text resolves, so the scan cannot fail, and every address that it touches is a private
-- IPv4 address and no loopback, link-local, unspecified or multicast one.
pub controlled-IsLab :
    (input : Bytes) (allowed : List IpNet)
    → validate_controlled_target input allowed ≡ none
    → Scans input (λ ip. is_private_lab_ip ip ≡ true)
controlled-IsLab input allowed =
    accepted _ input allowed (λ ip p w. p)
      (λ a ones x l p f z lo hi. private-block a x (between-block a ones x l lo hi) p)

-- When the lab has one block, every address that a scan of an accepted text touches is in the block.
pub controlled-contains :
    (input : Bytes) (block : IpNet)
    → validate_controlled_target input (block ∷ []) ≡ none
    → Scans input (λ ip. contains block ip ≡ true)
unfolding within_allowed
controlled-contains input block =
    accepted _ input (block ∷ []) (λ ip p w. in_block ip w)
      λ a ones x l p f z lo hi.
        contains-between block a x (or_complement a (mask ones 32)) (in_block _ f) (in_block _ z)
          (le_of lo) (le_of hi)
  where
    in_block : (ip : Ip) → within_allowed ip (block ∷ []) ≡ true → contains block ip ≡ true
    in_block ip w = elim (Bool-cases (contains block ip)) [ inl e ↦ e | inr e ↦ ground (arith, e) ]

    le_of : {a b : ℕ} → a < b → a ≤ b
    le_of h = omega (arith, h)
