-- ===== src/Services/Dns.antt =====
-- services/dns.go. The resolver's answers are arguments, `none` for an error.
use ahlyx_labs.Common.{ℕ, Bool, not, Option, none, some, is_some, List, [], Bytes, str, ◌>>=◌, keep}
use ahlyx_labs.Net.{to4}
use ahlyx_labs.Net.Parse.{parse_ip}
use ahlyx_labs.Services.{Reply, found}

-- models.DNSData.
pub record DnsData : Type 0 where
  pub a_records : List Bytes
  pub aaaa_records : List Bytes
  pub mx_records : List Bytes
  pub ns_records : List Bytes
  pub txt_records : List Bytes

-- The hosts of the MX and the NS records.
pub record Resolver : Type 0 where
  pub lookup_host : Bytes → Option (List Bytes)
  pub lookup_mx : Bytes → Option (List Bytes)
  pub lookup_ns : Bytes → Option (List Bytes)
  pub lookup_txt : Bytes → Option (List Bytes)

-- `net.ParseIP(addr).To4() != nil`; To4 of a nil address is nil.
abbrev is_ipv4 : Bytes → Bool
is_ipv4 addr = is_some (parse_ip addr >>= to4)

abbrev or_none : Option (List Bytes) → List Bytes
or_none none = []
or_none (some l) = l

unfoldable pub fetch_dns : Resolver → ℕ → Bytes → Reply DnsData
fetch_dns r now domain =
    let addrs = or_none (r.lookup_host domain) in
    found (str "dns") now (record {
      a_records = keep is_ipv4 addrs;
      aaaa_records = keep (λ a. not (is_ipv4 a)) addrs;
      mx_records = or_none (r.lookup_mx domain);
      ns_records = or_none (r.lookup_ns domain);
      txt_records = or_none (r.lookup_txt domain);
    })
