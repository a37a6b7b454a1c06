-- ===== src/Scanner/Scope/Range.antt =====
-- The addresses that a target stands for.
use ahlyx_labs.Common.{
  ℕ, zero, suc, ◌+◌, ◌-◌, ◌*◌, ◌/◌, ◌%◌, ◌^◌, ◌≤◌, ◌<◌, ◌≡◌, refl, sym, subst, ◌∙◌, Bool, true,
  false, List, [], ◌∷◌, ltb, ltb→lt, arith, All, All-mono,
}
use ahlyx_labs.Net.{Ip, v4, v6, net4, mask}
use ahlyx_labs.Net.Parse.{parse_cidr}
use ahlyx_labs.Scanner.Scope.{
  in_scope, in_scope_blocks, must_parse_cidrs, hosts_below, enumerate_hosts, hosts_of,
  or_complement,
}

-- The IPv4 addresses from one on, so many.
abbrev pub addresses : ℕ → ℕ → List Ip
addresses from zero = []
addresses from (suc n) = v4 from ∷ addresses (suc from) n

hosts_below_lem :
    (n fuel addr : ℕ)
    → addr + n < 2 ^ 32
    → n < fuel
    → hosts_below fuel addr (addr + n) ≡ addresses addr n
unfolding hosts_below
hosts_below_lem n zero addr b f = ground arith
hosts_below_lem zero (suc fuel) addr b f = ground arith
hosts_below_lem (suc n) (suc fuel) addr b f = ground (arith, hosts_below_lem n fuel (suc addr))

hosts_below-empty :
    (fuel addr broadcast : ℕ) → broadcast ≤ addr → hosts_below fuel addr broadcast ≡ []
unfolding hosts_below
hosts_below-empty zero addr broadcast h = refl
hosts_below-empty (suc fuel) addr broadcast h = ground arith

-- What holds of each number of host bits that the limit leaves.
module _ {ℓ} (P : ℕ → Type ℓ) where
  host_bits_cases :
      P 0 → P 1 → P 2 → P 3 → P 4 → P 5 → P 6 → P 7 → P 8 → (bits : ℕ) → bits ≤ 8 → P bits
  host_bits_cases p0 p1 p2 p3 p4 p5 p6 p7 p8 zero h = p0
  host_bits_cases p0 p1 p2 p3 p4 p5 p6 p7 p8 (suc zero) h = p1
  host_bits_cases p0 p1 p2 p3 p4 p5 p6 p7 p8 (suc (suc zero)) h = p2
  host_bits_cases p0 p1 p2 p3 p4 p5 p6 p7 p8 (suc (suc (suc zero))) h = p3
  host_bits_cases p0 p1 p2 p3 p4 p5 p6 p7 p8 (suc (suc (suc (suc zero)))) h = p4
  host_bits_cases p0 p1 p2 p3 p4 p5 p6 p7 p8 (suc (suc (suc (suc (suc zero))))) h = p5
  host_bits_cases p0 p1 p2 p3 p4 p5 p6 p7 p8 (suc (suc (suc (suc (suc (suc zero)))))) h = p6
  host_bits_cases p0 p1 p2 p3 p4 p5 p6 p7 p8 (suc (suc (suc (suc (suc (suc (suc zero))))))) h = p7
  host_bits_cases p0 p1 p2 p3 p4 p5 p6 p7 p8 (suc (suc (suc (suc (suc (suc (suc (suc zero))))))))
        h =
      p8
  host_bits_cases p0 p1 p2 p3 p4 p5 p6 p7 p8
        (suc (suc (suc (suc (suc (suc (suc (suc (suc bits))))))))) h =
      elim (too_many h) [ ]
    where
      too_many : suc (suc (suc (suc (suc (suc (suc (suc (suc bits)))))))) ≤ 8 → ⊥
      too_many l = omega arith

enumerate_hosts-size :
    (start low broadcast : ℕ)
    → start + 1 < 2 ^ 32
    → broadcast ≡ suc start + low
    → broadcast < 2 ^ 32
    → hosts_below (2 ^ 32) ((start + 1) % 2 ^ 32) broadcast ≡ addresses (suc start) low
enumerate_hosts-size start low broadcast b e c =
    rw (wraps, e) (hosts_below_lem low (2 ^ 32) (suc start) (rw (← e) c) (omega arith))
  where
    wraps : (start + 1) % 2 ^ 32 ≡ suc start
    wraps = omega arith

abbrev Enumerates : ℕ → Type 0
Enumerates bits =
    (start : ℕ)
    → start + 1 < 2 ^ 32
    → start / 2 ^ bits * 2 ^ bits ≡ start
    → enumerate_hosts (net4 start (32 - bits)) ≡ addresses (suc start) (2 ^ bits - 2)

Enumerates-0 : Enumerates 0
unfolding enumerate_hosts hosts_of
Enumerates-0 start b e = rw wraps (hosts_below-empty (2 ^ 32) (suc start) _ (omega arith))
  where
    wraps : (start + 1) % 2 ^ 32 ≡ suc start
    wraps = omega arith

Enumerates-1 : Enumerates 1
unfolding enumerate_hosts hosts_of
Enumerates-1 start b e = enumerate_hosts-size start 0 _ b (omega (arith, e)) (omega (arith, e))

Enumerates-2 : Enumerates 2
unfolding enumerate_hosts hosts_of
Enumerates-2 start b e = enumerate_hosts-size start 2 _ b (omega (arith, e)) (omega (arith, e))

Enumerates-3 : Enumerates 3
unfolding enumerate_hosts hosts_of
Enumerates-3 start b e = enumerate_hosts-size start 6 _ b (omega (arith, e)) (omega (arith, e))

Enumerates-4 : Enumerates 4
unfolding enumerate_hosts hosts_of
Enumerates-4 start b e = enumerate_hosts-size start 14 _ b (omega (arith, e)) (omega (arith, e))

Enumerates-5 : Enumerates 5
unfolding enumerate_hosts hosts_of
Enumerates-5 start b e = enumerate_hosts-size start 30 _ b (omega (arith, e)) (omega (arith, e))

Enumerates-6 : Enumerates 6
unfolding enumerate_hosts hosts_of
Enumerates-6 start b e = enumerate_hosts-size start 62 _ b (omega (arith, e)) (omega (arith, e))

Enumerates-7 : Enumerates 7
unfolding enumerate_hosts hosts_of
Enumerates-7 start b e = enumerate_hosts-size start 126 _ b (omega (arith, e)) (omega (arith, e))

Enumerates-8 : Enumerates 8
unfolding enumerate_hosts hosts_of
Enumerates-8 start b e = enumerate_hosts-size start 254 _ b (omega (arith, e)) (omega (arith, e))

-- The addresses of one /24 network are in scope together.
pub in_scope-block : (a b : ℕ) → a / 256 ≡ b / 256 → in_scope (v4 a) ≡ in_scope (v4 b)
unfolding in_scope in_scope_blocks must_parse_cidrs parse_cidr
in_scope-block a b h = rw (eight, twelve, sixteen) refl
  where
    eight : a / 16777216 ≡ b / 16777216
    eight = omega (arith, h)

    twelve : a / 1048576 ≡ b / 1048576
    twelve = omega (arith, h)

    sixteen : a / 65536 ≡ b / 65536
    sixteen = omega (arith, h)

pub in_scope-v6 : (a : ℕ) → in_scope (v6 a) ≡ false
unfolding in_scope in_scope_blocks must_parse_cidrs parse_cidr
in_scope-v6 a = refl

-- A network of at least 24 bits scans its addresses but the first and the last.
pub enumerate_hosts_lem :
    (bits start : ℕ)
    → bits ≤ 8
    → start + 1 < 2 ^ 32
    → start / 2 ^ bits * 2 ^ bits ≡ start
    → enumerate_hosts (net4 start (32 - bits)) ≡ addresses (suc start) (2 ^ bits - 2)
enumerate_hosts_lem bits start h =
    host_bits_cases Enumerates Enumerates-0 Enumerates-1 Enumerates-2 Enumerates-3 Enumerates-4
      Enumerates-5 Enumerates-6 Enumerates-7 Enumerates-8 bits h start

abbrev SameBlock : ℕ → Type 0
SameBlock bits = (start : ℕ) → or_complement start (mask (32 - bits) 32) / 256 ≡ start / 256

-- The last address of a network of at most 8 host bits is in the /24 network of any of its addresses.
pub same_block :
    (bits start : ℕ) → bits ≤ 8 → or_complement start (mask (32 - bits) 32) / 256 ≡ start / 256
same_block bits start h =
    host_bits_cases SameBlock (λ s. omega arith) (λ s. omega arith) (λ s. omega arith)
      (λ s. omega arith) (λ s. omega arith) (λ s. omega arith) (λ s. omega arith) (λ s. omega arith)
      (λ s. omega arith) bits h start

abbrev pub IsBetween : ℕ → ℕ → Ip → Type 0
IsBetween low high ip = (b : ℕ) × (ip ≡ v4 b) × (low < b) × (b < high)

-- A round of the loop adds its address to the later ones.
hosts_below-round :
    (fuel start addr broadcast : ℕ)
    → start < addr
    → (addr < broadcast
        → All (IsBetween start broadcast) (hosts_below fuel ((addr + 1) % 2 ^ 32) broadcast))
    → All (IsBetween start broadcast) (hosts_below (suc fuel) addr broadcast)
unfolding hosts_below
hosts_below-round fuel start addr broadcast l later = round (ltb addr broadcast) refl
  where
    round :
        (t : Bool)
        → ltb addr broadcast ≡ t
        → All (IsBetween start broadcast) (elim t [
          | false ↦ []
          | true ↦ v4 addr ∷ hosts_below fuel ((addr + 1) % 2 ^ 32) broadcast
        ])
    round false e = tt
    round true e = ((addr, refl, l, ltb→lt addr broadcast e), later (ltb→lt addr broadcast e))

pub hosts_below-IsBetween :
    (fuel start addr broadcast : ℕ)
    → start < addr
    → broadcast < 2 ^ 32
    → All (IsBetween start broadcast) (hosts_below fuel addr broadcast)
unfolding hosts_below
hosts_below-IsBetween zero start addr broadcast l b = tt
hosts_below-IsBetween (suc fuel) start addr broadcast l b =
    hosts_below-round fuel start addr broadcast l
      λ h. rw (wraps h) (hosts_below-IsBetween fuel start (suc addr) broadcast (omega arith) b)
  where
    wraps : addr < broadcast → (addr + 1) % 2 ^ 32 ≡ suc addr
    wraps h = omega (arith, h)

pub in_scope-lt : (a : ℕ) → in_scope (v4 a) ≡ true → a / 256 < 2 ^ 24 - 1
unfolding in_scope in_scope_blocks must_parse_cidrs parse_cidr
in_scope-lt a h = ground arith

module _ (start bits : ℕ) (small : bits ≤ 8) (scope : in_scope (v4 start) ≡ true) where
  pub block_in_scope :
      All
        (λ ip. in_scope ip ≡ true)
        (hosts_below (2 ^ 32) ((start + 1) % 2 ^ 32) (or_complement start (mask (32 - bits) 32)))
  block_in_scope =
      All-mono (λ ip h. member ip h) _ (hosts_below-IsBetween (2 ^ 32) start _ _ after bounded)
    where
      low : start / 256 < 2 ^ 24 - 1
      low = in_scope-lt start scope

      after : start < (start + 1) % 2 ^ 32
      after = omega (arith, low)

      same : or_complement start (mask (32 - bits) 32) / 256 ≡ start / 256
      same = same_block bits start small

      bounded : or_complement start (mask (32 - bits) 32) < 2 ^ 32
      bounded = from_block _ same
        where
          from_block : (x : ℕ) → x / 256 ≡ start / 256 → x < 2 ^ 32
          from_block x e = omega (arith, low, e)

      member :
          (ip : Ip)
          → IsBetween start (or_complement start (mask (32 - bits) 32)) ip
          → in_scope ip ≡ true
      member ip (b, e, l, r) =
          subst (λ i. in_scope i ≡ true) (sym e) (in_scope-block b start (between _ same r) ∙ scope)
        where
          between : (x : ℕ) → x / 256 ≡ start / 256 → b < x → b / 256 ≡ start / 256
          between x f r = omega (arith, f, l, r)
