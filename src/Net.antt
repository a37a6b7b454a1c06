-- ===== src/Net.antt =====
-- What the program uses of Go's package net: addresses, networks and membership. An address is its
-- number; a 16-byte address in the IPv4-mapped form counts as the IPv4 address, as To4 has it.
pub mod Parse
mod Tests
use ahlyx_labs.Common.{
  ℕ, ◌+◌, ◌-◌, ◌*◌, ◌/◌, ◌%◌, ◌^◌, ◌<◌, ◌≡◌, ◌≢◌, Bool, true, false, ◌&&◌, ◌||◌, Option, none, some,
  List, [], ◌∷◌, ◌==◌, if◌then◌else◌, min,
}

-- `v6` is an address whose To4 is nil.
pub data Ip : Type 0 where
  v4 v6 : ℕ → Ip

-- A 16-byte address by its number.
abbrev pub of_bits : ℕ → Ip
of_bits n = if n / 4294967296 == 0xffff then v4 (n % 4294967296) else v6 n

abbrev pub to4 : Ip → Option ℕ
to4 (v4 n) = some n
to4 (v6 n) = none

-- An IPNet as ParseCIDR makes it, with the length of its prefix: a 4-byte address and mask, or a
-- 16-byte address, which may be IPv4-mapped, and mask.
pub data IpNet : Type 0 where
  net4 net6 : ℕ → ℕ → IpNet

abbrev pub network_ip : IpNet → Ip
network_ip (net4 a ones) = v4 a
network_ip (net6 a ones) = of_bits a

-- Mask.Size()
abbrev pub mask_size : IpNet → ℕ × ℕ
mask_size (net4 a ones) = (ones, 32)
mask_size (net6 a ones) = (ones, 128)

-- The mask of a prefix in an address of so many bits, as a number.
abbrev pub mask : ℕ → ℕ → ℕ
mask ones bits = 2 ^ bits - 2 ^ (bits - ones)

-- The first four bytes of the mask, as a big-endian number.
abbrev pub mask_head : IpNet → ℕ
mask_head (net4 a ones) = mask ones 32
mask_head (net6 a ones) = mask (min ones 32) 32

-- Whether two addresses of so many bits agree under a mask.
abbrev pub same_prefix : ℕ → ℕ → ℕ → ℕ → Bool
same_prefix bits ones a b = a / 2 ^ (bits - ones) == b / 2 ^ (bits - ones)

abbrev pub contains_number : Ip → ℕ → ℕ → Ip → Bool
contains_number (v4 a) ones4 ones6 (v4 b) = same_prefix 32 ones4 a b
contains_number (v6 a) ones4 ones6 (v6 b) = same_prefix 128 ones6 a b
contains_number _ ones4 ones6 _ = false

-- IPNet.Contains. A mapped network uses the last four bytes of its mask.
abbrev pub contains : IpNet → Ip → Bool
contains (net4 a ones) ip = contains_number (v4 a) ones 0 ip
contains (net6 a ones) ip = contains_number (of_bits a) (ones - 96) ones ip

abbrev pub contained : List IpNet → Ip → Bool
contained [] ip = false
contained (n ∷ ns) ip = contains n ip || contained ns ip

-- The methods of net.IP, on the bytes of the number.
abbrev pub is_unspecified : Ip → Bool
is_unspecified (v4 n) = n == 0
is_unspecified (v6 n) = n == 0

abbrev pub is_loopback : Ip → Bool
is_loopback (v4 n) = n / 2 ^ 24 == 127
is_loopback (v6 n) = n == 1

abbrev pub is_private : Ip → Bool
is_private (v4 n) = n / 2 ^ 24 == 10 || n / 2 ^ 20 == 0xac1 || n / 2 ^ 16 == 0xc0a8
is_private (v6 n) = n / 2 ^ 121 == 0x7e

abbrev pub is_link_local_unicast : Ip → Bool
is_link_local_unicast (v4 n) = n / 2 ^ 16 == 0xa9fe
is_link_local_unicast (v6 n) = n / 2 ^ 118 == 0x3fa

abbrev pub is_link_local_multicast : Ip → Bool
is_link_local_multicast (v4 n) = n / 2 ^ 8 == 0xe00000
is_link_local_multicast (v6 n) = n / 2 ^ 120 == 0xff && n / 2 ^ 112 % 16 == 2

abbrev pub is_multicast : Ip → Bool
is_multicast (v4 n) = n / 2 ^ 28 == 0xe
is_multicast (v6 n) = n / 2 ^ 120 == 0xff

-- The addresses that there are.
abbrev pub IsIp : Ip → Type 0
IsIp (v4 n) = n < 2 ^ 32
IsIp (v6 n) = (n < 2 ^ 128) × (n / 4294967296 ≢ 0xffff)
