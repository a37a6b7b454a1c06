-- ===== src/Scanner/Handler.antt =====
-- The two scan endpoints, internal/scanner/handlers/scan.go.
pub mod Validation
pub mod Controlled
use ahlyx_labs.Common.{
  ℕ, ◌+◌, ◌-◌, ◌^◌, Bool, true, false, not, ◌&&◌, ◌||◌, Option, none, some, List, [], ◌∷◌, ◌⊎◌, inl,
  inr, Bytes, str, ltb, ◌==◌, if◌then◌else◌, length,
}
use ahlyx_labs.Net.{
  Ip, v4, v6, to4, IpNet, network_ip, mask_size, mask_head, contains, is_private, is_loopback,
  is_link_local_unicast, is_unspecified, is_multicast,
}
use ahlyx_labs.Net.Parse.{parse_ip, parse_cidr}
use ahlyx_labs.Scanner.Scope.{
  ScanError, subnet_too_large, out_of_scope, invalid_input, in_scope, or_complement,
}
use ahlyx_labs.Scanner.Pool.{PortResult}
use ahlyx_labs.Scanner.Scan.{Host, ScanResponse, scan}

validate_as : Option IpNet → Option Ip → Option ScanError
validate_as (some net) ip =
    if ltb ((mask_size net).0) 24
    then some subnet_too_large
    else if not (in_scope (network_ip net))
    then some out_of_scope
    else none
validate_as none (some ip) = if not (in_scope ip) then some out_of_scope else none
validate_as none none = some invalid_input

-- `none` is the nil error.
unfoldable pub validate_input : Bytes → Option ScanError
unfolding validate_as
validate_input input = validate_as (parse_cidr input) (parse_ip input)

unfoldable pub is_private_lab_ip : Ip → Bool
is_private_lab_ip (v6 a) = false
is_private_lab_ip (v4 a) =
    is_private (v4 a)
    && not (is_loopback (v4 a))
    && not (is_link_local_unicast (v4 a))
    && not (is_unspecified (v4 a))
    && not (is_multicast (v4 a))

unfoldable pub within_allowed : Ip → List IpNet → Bool
within_allowed ip [] = false
within_allowed ip (block ∷ blocks) = if contains block ip then true else within_allowed ip blocks

-- The last address by the first four bytes of the mask. The nil address of an IPv6 network is `none`.
unfoldable pub last_ipv4 : IpNet → Option Ip
last_ipv4 net = elim (to4 (network_ip net)) [
  | none ↦ none
  | some first ↦ some (v4 (or_complement first (mask_head net)))
]

-- A nil address is neither private nor in a block.
abbrev is_lab : Option Ip → List IpNet → Bool
is_lab none allowed = false
is_lab (some ip) allowed = is_private_lab_ip ip && within_allowed ip allowed

controlled_network : IpNet → List IpNet → Option ScanError
unfolding last_ipv4
controlled_network net allowed =
    if not ((mask_size net).1 == 32)
      || ltb ((mask_size net).0) 24
      || not (is_private_lab_ip (network_ip net))
    then some out_of_scope
    else if not (within_allowed (network_ip net) allowed) || not (is_lab (last_ipv4 net) allowed)
    then some out_of_scope
    else none

controlled_as : Option IpNet → Option Ip → List IpNet → Option ScanError
unfolding controlled_network
controlled_as (some net) ip allowed = controlled_network net allowed
controlled_as none ip allowed = if is_lab ip allowed then none else some out_of_scope

unfoldable pub validate_controlled_target : Bytes → List IpNet → Option ScanError
unfolding controlled_as
validate_controlled_target input allowed = controlled_as (parse_cidr input) (parse_ip input) allowed

-- The body of an answer, an error by its message. `failed s` is "scan failed: " with the message of
-- resolveTargets that the text `s`, quoted in it, is no address or range.
pub data Body : Type 0 where
  error : Bytes → Body
  failed : Bytes → Body
  result : ScanResponse → Body

-- An answer with its status, and the host and port counts that LogQuery is given after it.
pub record Reply : Type 0 where
  pub status : ℕ
  pub body : Body
  pub logged : Option (ℕ × ℕ)

abbrev message : ScanError → Bytes
message subnet_too_large = str "subnet too large: maximum allowed prefix length is /24"
message out_of_scope =
    str "out of scope: only private (RFC1918), loopback, and link-local targets are allowed"
message invalid_input =
    str "invalid input: must be a valid IP address or CIDR range (e.g. 192.168.1.0/24)"

abbrev write_error : ℕ → Bytes → Reply
write_error status msg = record { status = status; body = error msg; logged = none }

open_ports : List Host → ℕ
open_ports [] = 0
open_ports (h ∷ hs) = length h.ports + open_ports hs

pub write_result : ScanResponse → Reply
unfolding open_ports
write_result r = record {
  status = 200;
  body = result r;
  logged = some (r.hosts_found, open_ports r.hosts);
}

abbrev missing_subnet : Reply
missing_subnet = write_error 400 (str "missing required query parameter: subnet")

pub refuse : ScanError → Reply
refuse out_of_scope = write_error 403 (message out_of_scope)
refuse e = write_error 400 (message e)

-- The answer to an error of Scan itself.
scan_failed : Bytes → ScanError → Reply
scan_failed input subnet_too_large = write_error 400 (message subnet_too_large)
scan_failed input out_of_scope = write_error 403 (message out_of_scope)
scan_failed input invalid_input = record { status = 500; body = failed input; logged = none }

abbrev finish : (ScanError → Reply) → ScanError ⊎ ScanResponse → Reply
finish answer (inl e) = answer e
finish answer (inr r) = write_result r

-- NewScanHandler on the value of the query parameter.
unfoldable pub handle_scan : (List Ip → List PortResult) → Bytes → Reply
unfolding refuse scan_failed write_result
handle_scan gather [] = missing_subnet
handle_scan gather (c ∷ cs) = elim (validate_input (c ∷ cs)) [
  | some e ↦ refuse e
  | none ↦ finish (scan_failed (c ∷ cs)) (scan gather (c ∷ cs))
]

-- NewControlledScanHandler, behind the rate limit.
unfoldable pub handle_controlled : (List Ip → List PortResult) → List IpNet → Bytes → Reply
unfolding write_result
handle_controlled gather allowed [] = missing_subnet
handle_controlled gather allowed (c ∷ cs) = elim (validate_controlled_target (c ∷ cs) allowed) [
  | some e ↦ write_error 403 (str "target is not available in this scanner lab")
  | none ↦
      finish (λ e. write_error 400 (str "scan request could not be processed"))
        (scan gather (c ∷ cs))
]
