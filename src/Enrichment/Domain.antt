-- ===== src/Enrichment/Domain.antt =====
-- handlers/domain.go, and DomainResponse of models/models.go.
use ahlyx_labs.Common.{
  ℕ, Bool, false, not, Option, none, some, List, [], ◌∷◌, ◌++◌, Bytes, str, keep, if◌then◌else◌,
}
use ahlyx_labs.Cache.{SourceMetadata}
use ahlyx_labs.Json.{Json, bool, text, array, Items, nil, cons}
use ahlyx_labs.Json.Parse.{parse_json}
use ahlyx_labs.Json.Render.{render}
use ahlyx_labs.Config.{Config}
use ahlyx_labs.Common.Assoc.{Table}
use ahlyx_labs.Services.{Reply, Call}
use ahlyx_labs.Services.VirusTotal.{fetch_virus_total_domain}
use ahlyx_labs.Services.Whois.{WhoisData, Registry, fetch_whois}
use ahlyx_labs.Services.Dns.{DnsData, Resolver, fetch_dns}
use ahlyx_labs.Services.Ssl.{SslData, Tls, fetch_ssl}
use ahlyx_labs.Services.Otx.{OtxRaw, decode_otx, fetch_otx_domain}
use ahlyx_labs.Services.SafeBrowsing.{is_empty}
use ahlyx_labs.Validators.Domain.{is_valid_domain}
use ahlyx_labs.Verdict.{DomainVtData, OtxData, domain_verdict}
use ahlyx_labs.Enrichment.{
  Service, Visit, Done, Fresh, BaseResponse, refuse, lookup_cached, opt_json, int_json, texts_json,
  fields, base_json,
}

pub record DomainResponse : Type 0 where
  pub base : BaseResponse
  pub domain : Option Bytes
  pub whois : Option WhoisData
  pub dns : Option DnsData
  pub ssl : Option SslData
  pub virus_total : Option DomainVtData
  pub otx : Option OtxData
  pub is_malicious : Option Bool

unfoldable pub whois_json : WhoisData → Json
whois_json d = fields (
    (str "registrar", opt_json text d.registrar)
    ∷ (str "creation_date", opt_json text d.creation_date)
    ∷ (str "expiration_date", opt_json text d.expiration_date)
    ∷ (str "last_updated", opt_json text d.last_updated)
    ∷ (str "domain_age_days", opt_json int_json d.domain_age_days)
    ∷ (str "is_newly_registered", opt_json bool d.is_newly_registered)
    ∷ [])

unfoldable pub dns_json : DnsData → Json
dns_json d = fields (
    (str "a", texts_json d.a_records)
    ∷ (str "aaaa", texts_json d.aaaa_records)
    ∷ (str "mx", texts_json d.mx_records)
    ∷ (str "ns", texts_json d.ns_records)
    ∷ (str "txt", texts_json d.txt_records)
    ∷ [])

unfoldable pub ssl_json : SslData → Json
ssl_json d = fields (
    (str "is_valid", opt_json bool d.is_valid)
    ∷ (str "issuer", opt_json text d.issuer)
    ∷ (str "subject", opt_json text d.subject)
    ∷ (str "expires_at", opt_json text d.expires_at)
    ∷ (str "days_until_expiry", opt_json int_json d.days_until_expiry)
    ∷ (str "is_expiring_soon", opt_json bool d.is_expiring_soon)
    ∷ (str "tls_version", opt_json text d.tls_version)
    ∷ (str "is_self_signed", opt_json bool d.is_self_signed)
    ∷ [])

unfoldable pub domain_vt_json : DomainVtData → Json
domain_vt_json vt = fields (
    (str "malicious_votes", opt_json int_json vt.malicious_votes)
    ∷ (str "harmless_votes", opt_json int_json vt.harmless_votes)
    ∷ (str "suspicious_votes", opt_json int_json vt.suspicious_votes)
    ∷ (str "undetected_votes", opt_json int_json vt.undetected_votes)
    ∷ (str "last_analysis_date", opt_json int_json vt.last_analysis_date)
    ∷ (str "categories", texts_json vt.categories)
    ∷ [])

unfoldable pub otx_json : OtxData → Json
otx_json d = fields (
    (str "pulse_count", opt_json int_json d.pulse_count) ∷ (str "pulses", texts_json d.pulses) ∷ [])

unfoldable pub domain_response_json : (ℕ → Bytes) → DomainResponse → Json
unfolding base_json whois_json dns_json ssl_json domain_vt_json otx_json
domain_response_json nano r = fields (
    base_json nano r.base
    ++ ((str "domain", opt_json text r.domain)
        ∷ (str "whois", opt_json whois_json r.whois)
        ∷ (str "dns", opt_json dns_json r.dns)
        ∷ (str "ssl", opt_json ssl_json r.ssl)
        ∷ (str "virustotal", opt_json domain_vt_json r.virus_total)
        ∷ (str "otx", opt_json otx_json r.otx)
        ∷ (str "is_malicious", opt_json bool r.is_malicious)
        ∷ []))

abbrev pulses_json : List Bytes → Items
pulses_json [] = nil
pulses_json (name ∷ names) = cons (fields ((str "name", text name) ∷ [])) (pulses_json names)

-- json.Marshal of what FetchOTXDomain returns.
abbrev otx_raw_json : OtxRaw → Json
otx_raw_json raw = fields (
    (
      str "pulse_info",
      fields
          ((str "count", int_json raw.count) ∷ (str "pulses", array (pulses_json raw.pulses)) ∷ []),
    )
    ∷ [])

abbrev otx_of_raw : OtxRaw → OtxData
otx_of_raw raw = record {
  pulse_count = some raw.count;
  pulses = keep (λ n. not (is_empty n)) raw.pulses;
}

abbrev decoded_otx : Option Json → Option OtxData
decoded_otx none = none
decoded_otx (some j) = elim (decode_otx j) [ none ↦ none | some raw ↦ some (otx_of_raw raw) ]

-- The round trip through a JSON text.
unfoldable pub otx_data : Option OtxRaw → Option OtxData
unfolding parse_json render
otx_data none = none
otx_data (some raw) = decoded_otx (parse_json (render (otx_raw_json raw)))

pub data DomainReply : Type 0 where
  whois_reply : Reply WhoisData → DomainReply
  dns_reply : Reply DnsData → DomainReply
  ssl_reply : Reply SslData → DomainReply
  vt_reply : Reply DomainVtData → DomainReply
  otx_reply : Reply OtxRaw → DomainReply

pub record DomainFound : Type 0 where
  pub whois : Option WhoisData
  pub dns : Option DnsData
  pub ssl : Option SslData
  pub vt : Option DomainVtData
  pub otx_raw : Option OtxRaw
  pub sources : List SourceMetadata

abbrev pub take_domain : DomainFound → DomainReply → DomainFound
take_domain f (whois_reply (result, meta)) = record f {
  whois = result;
  sources = f.sources ++ meta ∷ [];
}
take_domain f (dns_reply (result, meta)) = record f {
  dns = result;
  sources = f.sources ++ meta ∷ [];
}
take_domain f (ssl_reply (result, meta)) = record f {
  ssl = result;
  sources = f.sources ++ meta ∷ [];
}
take_domain f (vt_reply (result, meta)) = record f { vt = result; sources = f.sources ++ meta ∷ [] }
take_domain f (otx_reply (result, meta)) = record f {
  otx_raw = result;
  sources = f.sources ++ meta ∷ [];
}

unfoldable pub collect_domain : DomainFound → List DomainReply → DomainFound
collect_domain f [] = f
collect_domain f (r ∷ rs) = collect_domain (take_domain f r) rs

abbrev pub no_domain_found : DomainFound
no_domain_found = record {
  whois = none;
  dns = none;
  ssl = none;
  vt = none;
  otx_raw = none;
  sources = [];
}

unfoldable pub domain_response : Visit → Bytes → DomainFound → DomainResponse
domain_response v name f =
    let otx = otx_data f.otx_raw in
    let verdict = domain_verdict f.vt otx f.sources in
    record {
      base = record {
        query = name;
        query_type = str "domain";
        timestamp = v.rfc3339 v.ended;
        sources = f.sources;
        verdict = verdict;
      };
      domain = some name;
      whois = f.whois;
      dns = f.dns;
      ssl = f.ssl;
      virus_total = f.vt;
      otx = otx;
      is_malicious = some verdict.is_malicious;
    }

unfoldable pub domain_fresh : Visit → Bytes → DomainFound → Fresh
unfolding domain_response domain_response_json
domain_fresh v name f =
    let r = domain_response v name f in
    record { data_bytes = some (render (domain_response_json v.rfc3339_nano r)); base = r.base }

-- `replies` are those of the sources for the domain, in the order in which they arrive.
unfoldable pub domain_handler : (Bytes → List DomainReply) → Visit → Service → Bytes → Done
unfolding domain_fresh collect_domain
domain_handler replies v s name =
    if not (is_valid_domain name)
    then refuse s false 400 (str "invalid domain name")
    else lookup_cached v s false (str "domain:" ++ name)
        (domain_fresh v name (collect_domain no_domain_found (replies name)))

unfoldable pub domain_replies :
    Config
    → Registry
    → Resolver
    → Tls
    → (Table Bytes → List Bytes)
    → (vt otx : Call) → ℕ
    → Bytes
    → List DomainReply
domain_replies cfg registry resolver tls range_map vt otx now name =
    whois_reply (fetch_whois registry now name)
    ∷ dns_reply (fetch_dns resolver now name)
    ∷ ssl_reply (fetch_ssl tls now name)
    ∷ vt_reply (fetch_virus_total_domain range_map vt cfg.virus_total_key name)
    ∷ otx_reply (fetch_otx_domain otx cfg.otx_key name)
    ∷ []
