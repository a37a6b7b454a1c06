-- ===== src/Scanner/Scan.antt =====
-- scanHosts and Scan, internal/scanner/scanner.go, over the results of a pool that has ended.
pub mod Hosts
use ahlyx_labs.Common.{
  ℕ, Bool, true, false, Option, none, some, List, [], ◌∷◌, ◌++◌, ◌⊎◌, inl, inr, Bytes, str,
  if◌then◌else◌, length,
}
use ahlyx_labs.Net.{Ip}
use ahlyx_labs.Scanner.Scope.{ScanError, resolve_targets}
use ahlyx_labs.Scanner.Pool.{Port, PortResult, ip_eq}

-- MAC is always nil.
pub record Host : Type 0 where
  pub ip : Ip
  pub ports : List Port

pub record ScanResponse : Type 0 where
  pub subnet : Bytes
  pub hosts_found : ℕ
  pub scan_type : Bytes
  pub hosts : List Host

-- The entry of hostMap for an address: its ports in the order of arrival. No entry is empty.
unfoldable pub ports_of : List PortResult → Ip → List Port
ports_of [] ip = []
ports_of (r ∷ rs) ip = if ip_eq r.ip ip then r.port ∷ ports_of rs ip else ports_of rs ip

-- The hosts in the order of the targets, those without an open port left out.
unfoldable pub hosts_from : List PortResult → List Ip → List Host
hosts_from rs [] = []
hosts_from rs (ip ∷ ips) = elim (ports_of rs ip) [
  | [] ↦ hosts_from rs ips
  | p ∷ ps ↦ record { ip = ip; ports = p ∷ ps } ∷ hosts_from rs ips
]

abbrev pub response : Bytes → List Host → ScanResponse
response subnet hosts = record {
  subnet = subnet;
  hosts_found = length hosts;
  scan_type = str "tcp";
  hosts = hosts;
}

-- `gather` is what the pool has for the targets, in the order in which the workers sent it.
unfoldable pub scan : (List Ip → List PortResult) → Bytes → ScanError ⊎ ScanResponse
unfolding hosts_from
scan gather input = elim (resolve_targets input) [
  | inl e ↦ inl e
  | inr (ips, subnet) ↦ inr (response subnet (hosts_from (gather ips) ips))
]
