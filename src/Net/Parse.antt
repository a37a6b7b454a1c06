-- ===== src/Net/Parse.antt =====
-- net.ParseIP and net.ParseCIDR, after net/netip's parser. A text with a zone is no address.
use ahlyx_labs.Common.{
  ℕ, zero, suc, ◌+◌, ◌-◌, ◌*◌, ◌/◌, ◌%◌, ◌^◌, Bool, ◌&&◌, ◌||◌, not, Option, none, some, List, [],
  ◌∷◌, ◌++◌, Bytes, leb, ltb, ◌==◌, if◌then◌else◌, length, any,
}
use ahlyx_labs.Net.{Ip, v4, of_bits, IpNet, net4, net6}

abbrev is_digit : ℕ → Bool
is_digit c = leb b'0' c && leb c b'9'

-- parseIPv4Fields: the number of the octets before, their count, the octet's value and its digits.
parse_octets : ℕ → ℕ → ℕ → ℕ → Bytes → Option ℕ
parse_octets number pos val digits [] =
    if pos == 3 && not (digits == 0) then some (number * 256 + val) else none
parse_octets number pos val digits (c ∷ s) =
    let digit = parse_octets number pos (val * 10 + (c - b'0')) (suc digits) s in
    let next = parse_octets (number * 256 + val) (suc pos) 0 0 s in
    if is_digit c
    then (if (digits == 1 && val == 0) || ltb 255 (val * 10 + (c - b'0')) then none else digit)
    else if c == b'.'
    then (if digits == 0 || pos == 3 then none else next)
    else none

unfoldable pub parse_ipv4 : Bytes → Option ℕ
unfolding parse_octets
parse_ipv4 s = parse_octets 0 0 0 0 s

abbrev hex_value : ℕ → Option ℕ
hex_value c =
    if is_digit c
    then some (c - b'0')
    else if leb b'a' c && leb c b'f'
    then some (c - 87)
    else if leb b'A' c && leb c b'F'
    then some (c - 55)
    else none

-- The digits of a group: their count, their value, and what follows. More than four are an error.
read_group : ℕ → ℕ → Bytes → Option (ℕ × ℕ × Bytes)
read_group off acc [] = some (off, acc, [])
read_group off acc (c ∷ s) = elim (hex_value c) [
  | none ↦ some (off, acc, c ∷ s)
  | some d ↦ if ltb 3 off then none else read_group (suc off) (acc * 16 + d) s
]

abbrev Groups : Type 0
Groups = List ℕ × Option ℕ × Bytes

-- A dotted IPv4 address in the place of the last two groups.
trailing_ipv4 : List ℕ → Option ℕ → Bytes → Option Groups
unfolding parse_ipv4
trailing_ipv4 groups ellipsis s =
    if (elim ellipsis [ none ↦ not (length groups == 6) | some _ ↦ ltb 6 (length groups) ])
    then none
    else elim (parse_ipv4 s) [
      | none ↦ none
      | some n ↦ some ((n % 65536) ∷ (n / 65536) ∷ groups, ellipsis, [])
    ]

-- The loop of parseIPv6, a round for each group, latest first, with the place of the ellipsis.
parse_groups : ℕ → List ℕ → Option ℕ → Bytes → Option Groups
unfolding read_group trailing_ipv4
parse_groups zero groups ellipsis s = some (groups, ellipsis, s)
parse_groups (suc rounds) groups ellipsis s = elim (read_group 0 0 s) [
  | none ↦ none
  | some (zero, acc, rest) ↦ none
  | some (suc off, acc, []) ↦ some (acc ∷ groups, ellipsis, [])
  | some (suc off, acc, c ∷ []) ↦ if c == b'.' then trailing_ipv4 groups ellipsis s else none
  | some (suc off, acc, c ∷ d ∷ rest) ↦
      let more = parse_groups rounds (acc ∷ groups) ellipsis (d ∷ rest) in
      let after_ellipsis = parse_groups rounds (acc ∷ groups) (some (suc (length groups))) rest in
      if c == b'.'
      then trailing_ipv4 groups ellipsis s
      else if not (c == b':')
      then none
      else if not (d == b':')
      then more
      else elim ellipsis [
        | some _ ↦ none
        | none ↦ elim rest [
          | [] ↦ some (acc ∷ groups, some (suc (length groups)), [])
          | _ ∷ _ ↦ after_ellipsis
        ]
      ]
]

-- The number of the groups from a place on, and `gap` zero groups at the ellipsis. The groups stand
-- latest first, so the last of the list is the group 0.
groups_value : ℕ → ℕ → List ℕ → ℕ
groups_value gap ellipsis [] = 0
groups_value gap ellipsis (g ∷ gs) =
    let before = groups_value gap ellipsis gs in
    (if length gs == ellipsis then before * 65536 ^ gap else before) * 65536 + g

finish_groups : Option Groups → Option ℕ
unfolding groups_value
finish_groups none = none
finish_groups (some (groups, ellipsis, _ ∷ _)) = none
finish_groups (some (groups, none, [])) =
    if length groups == 8 then some (groups_value 0 8 groups) else none
finish_groups (some (groups, some e, [])) =
    if ltb (length groups) 8
    then some (
        if length groups == e
        then groups_value 0 8 groups * 65536 ^ (8 - length groups)
        else groups_value (8 - length groups) e groups)
    else none

has : ℕ → Bytes → Bool
has c s = any (λ b. b == c) s

unfoldable pub parse_ipv6 : Bytes → Option ℕ
unfolding parse_groups finish_groups has
parse_ipv6 (a ∷ b ∷ []) =
    if a == b':' && b == b':' then some 0 else finish_groups (parse_groups 8 [] none (a ∷ b ∷ []))
parse_ipv6 (a ∷ b ∷ c ∷ s) =
    if has b'%' (a ∷ b ∷ c ∷ s)
    then none
    else if a == b':' && b == b':'
    then finish_groups (parse_groups 8 [] (some 0) (c ∷ s))
    else finish_groups (parse_groups 8 [] none (a ∷ b ∷ c ∷ s))
parse_ipv6 s = finish_groups (parse_groups 8 [] none s)

-- The address of a text, by the first of '.', ':' and '%' in it: the number of 32 bits or of 128.
pub data Addr : Type 0 where
  four six : ℕ → Addr

abbrev as_four : Option ℕ → Option Addr
as_four none = none
as_four (some n) = some (four n)

abbrev as_six : Option ℕ → Option Addr
as_six none = none
as_six (some n) = some (six n)

parse_by : Bytes → Bytes → Option Addr
parse_by s [] = none
parse_by s (c ∷ t) =
    let later = parse_by s t in
    if c == b'.'
    then as_four (parse_ipv4 s)
    else if c == b':'
    then as_six (parse_ipv6 s)
    else if c == b'%'
    then none
    else later

unfoldable pub parse_addr : Bytes → Option Addr
unfolding parse_by parse_ipv4 parse_ipv6
parse_addr s = parse_by s s

abbrev ip_of_addr : Addr → Ip
ip_of_addr (four n) = v4 n
ip_of_addr (six n) = of_bits n

abbrev ip_of : Option Addr → Option Ip
ip_of none = none
ip_of (some a) = some (ip_of_addr a)

unfoldable pub parse_ip : Bytes → Option Ip
unfolding parse_addr
parse_ip s = ip_of (parse_addr s)

-- `dtoi` on the whole text: a number in decimal digits, below 0xFFFFFF.
read_decimal : ℕ → Bytes → Option ℕ
read_decimal n [] = some n
read_decimal n (c ∷ s) =
    let more = read_decimal (n * 10 + (c - b'0')) s in
    if is_digit c && ltb (n * 10 + (c - b'0')) 0xffffff then more else none

decimal : Bytes → Option ℕ
unfolding read_decimal
decimal [] = none
decimal (c ∷ s) = read_decimal 0 (c ∷ s)

abbrev masked : ℕ → ℕ → ℕ → ℕ
masked bits ones n = n / 2 ^ (bits - ones) * 2 ^ (bits - ones)

abbrev network : Option Addr → Option ℕ → Option IpNet
network (some (four n)) (some ones) =
    if leb ones 32 then some (net4 (masked 32 ones n) ones) else none
network (some (six n)) (some ones) =
    if leb ones 128 then some (net6 (masked 128 ones n) ones) else none
network _ _ = none

-- The texts before and after the first slash.
split_slash : Bytes → Bytes → Option (Bytes × Bytes)
split_slash before [] = none
split_slash before (c ∷ s) =
    let later = split_slash (before ++ c ∷ []) s in if c == b'/' then some (before, s) else later

unfoldable pub parse_cidr : Bytes → Option IpNet
unfolding split_slash decimal parse_addr
parse_cidr s = elim (split_slash [] s) [
  | none ↦ none
  | some (addr, ones) ↦ network (parse_addr addr) (decimal ones)
]
