-- ===== src/Enrichment/Ip.antt =====
-- handlers/ip.go, and IPResponse of models/models.go. A float64 is of a type D with the arithmetic of
-- Threat; reading and printing one are arguments.
use ahlyx_labs.Common.{
  ℕ, Bool, false, not, Option, none, some, List, [], ◌∷◌, ◌++◌, Bytes, str, ℤ, if◌then◌else◌,
}
use ahlyx_labs.Cache.{SourceMetadata}
use ahlyx_labs.Config.{Config}
use ahlyx_labs.Json.{Json, null, bool, number, text}
use ahlyx_labs.Json.Render.{render}
use ahlyx_labs.Services.{Call, Reply}
use ahlyx_labs.Services.IpInfo.{GeoLocation, fetch_ip_info}
use ahlyx_labs.Services.AbuseIpdb.{fetch_abuse_ipdb}
use ahlyx_labs.Services.VirusTotal.{fetch_virus_total_ip}
use ahlyx_labs.Threat.{Double, ip_verdict}
use ahlyx_labs.Validators.{is_valid_ip, is_bogon_ip}
use ahlyx_labs.Verdict.{AbuseData, VtIpData, is_yes}
use ahlyx_labs.Enrichment.{
  Service, Visit, Done, Fresh, BaseResponse, refuse, lookup_cached, opt_json, int_json, texts_json,
  fields, base_json, tier_text,
}

pub record IpResponse (D : Type 0) : Type 0 where
  pub base : BaseResponse
  pub ip : Option Bytes
  pub geolocation : Option (GeoLocation D)
  pub abuse : Option AbuseData
  pub virus_total : Option VtIpData
  pub is_bogon : Option Bool
  pub is_tor : Option Bool
  pub threat_score : Option ℤ
  pub threat_tier : Option Bytes
  pub is_malicious : Option Bool

unfoldable pub abuse_json : AbuseData → Json
abuse_json a = fields (
    (str "abuse_score", opt_json int_json a.abuse_score)
    ∷ (str "total_reports", opt_json int_json a.total_reports)
    ∷ (str "last_reported", opt_json text a.last_reported)
    ∷ (str "isp", opt_json text a.isp)
    ∷ (str "usage_type", opt_json text a.usage_type)
    ∷ (str "is_tor", opt_json bool a.is_tor)
    ∷ [])

unfoldable pub vt_ip_json : VtIpData → Json
vt_ip_json vt = fields (
    (str "malicious_votes", opt_json int_json vt.malicious_votes)
    ∷ (str "harmless_votes", opt_json int_json vt.harmless_votes)
    ∷ (str "suspicious_votes", opt_json int_json vt.suspicious_votes)
    ∷ (str "undetected_votes", opt_json int_json vt.undetected_votes)
    ∷ (str "last_analysis_date", opt_json int_json vt.last_analysis_date)
    ∷ (str "associated_malware", texts_json vt.associated_malware)
    ∷ [])

-- strconv.ParseFloat, and the literal that json.Marshal writes, `none` for a number that is infinite
-- or not a number.
pub record Floats (D : Type 0) : Type 0 where
  pub parse_float : Bytes → Option D
  pub show_float : D → Option Bytes

-- A reply of one of the three goroutines.
pub data IpReply (D : Type 0) : Type 0 where
  geo_reply : Reply (GeoLocation D) → IpReply D
  abuse_reply : Reply AbuseData → IpReply D
  vt_reply : Reply VtIpData → IpReply D

-- The variables that the goroutines assign.
pub record IpFound (D : Type 0) : Type 0 where
  pub geo : Option (GeoLocation D)
  pub abuse : Option AbuseData
  pub vt : Option VtIpData
  pub sources : List SourceMetadata

module _ (D : Type 0) ⦃double : Double D⦄ (floats : Floats D) where
  abbrev float_json : Option D → Option Json
  float_json none = some null
  float_json (some d) = elim (floats.show_float d) [ none ↦ none | some s ↦ some (number s) ]

  unfoldable pub geo_json : GeoLocation D → Option Json
  geo_json g = elim (float_json g.latitude) [
    | none ↦ none
    | some lat ↦ elim (float_json g.longitude) [
      | none ↦ none
      | some lon ↦ some (
          fields (
            (str "country", opt_json text g.country)
            ∷ (str "country_code", opt_json text g.country_code)
            ∷ (str "region", opt_json text g.region)
            ∷ (str "city", opt_json text g.city)
            ∷ (str "latitude", lat)
            ∷ (str "longitude", lon)
            ∷ []))
    ]
  ]

  abbrev opt_geo_json : Option (GeoLocation D) → Option Json
  opt_geo_json none = some null
  opt_geo_json (some g) = geo_json g

  unfoldable pub ip_response_json : (ℕ → Bytes) → IpResponse D → Option Json
  unfolding geo_json abuse_json vt_ip_json base_json
  ip_response_json nano r = elim (opt_geo_json r.geolocation) [
    | none ↦ none
    | some geo ↦ some (
        fields (
          base_json nano r.base
          ++ ((str "ip", opt_json text r.ip)
              ∷ (str "geolocation", geo)
              ∷ (str "abuse", opt_json abuse_json r.abuse)
              ∷ (str "virustotal", opt_json vt_ip_json r.virus_total)
              ∷ (str "is_bogon", opt_json bool r.is_bogon)
              ∷ (str "is_tor", opt_json bool r.is_tor)
              ∷ (str "threat_score", opt_json int_json r.threat_score)
              ∷ (str "threat_tier", opt_json text r.threat_tier)
              ∷ (str "is_malicious", opt_json bool r.is_malicious)
              ∷ [])))
  ]

  abbrev pub take_ip : IpFound D → IpReply D → IpFound D
  take_ip f (geo_reply (result, meta)) = record f { geo = result; sources = f.sources ++ meta ∷ [] }
  take_ip f (abuse_reply (result, meta)) = record f {
    abuse = result;
    sources = f.sources ++ meta ∷ [];
  }
  take_ip f (vt_reply (result, meta)) = record f { vt = result; sources = f.sources ++ meta ∷ [] }

  -- The replies in the order in which they take the lock.
  unfoldable pub collect_ip : IpFound D → List (IpReply D) → IpFound D
  collect_ip f [] = f
  collect_ip f (r ∷ rs) = collect_ip (take_ip f r) rs

  abbrev pub no_ip_found : IpFound D
  no_ip_found = record { geo = none; abuse = none; vt = none; sources = [] }

  abbrev tor_of : Option AbuseData → Option Bool
  tor_of none = none
  tor_of (some a) = a.is_tor

  unfoldable pub ip_response : Visit → Bytes → IpFound D → IpResponse D
  ip_response v address f =
      let is_tor = tor_of f.abuse in
      let verdict = ip_verdict D f.abuse f.vt (is_yes is_tor) in
      record {
        base = record {
          query = address;
          query_type = str "ip";
          timestamp = v.rfc3339 v.ended;
          sources = f.sources;
          verdict = verdict;
        };
        ip = some address;
        geolocation = f.geo;
        abuse = f.abuse;
        virus_total = f.vt;
        is_bogon = some false;
        is_tor = is_tor;
        threat_score = verdict.score;
        threat_tier = some (tier_text verdict.tier);
        is_malicious = some verdict.is_malicious;
      }

  abbrev marshalled : Option Json → Option Bytes
  marshalled none = none
  marshalled (some j) = some (render j)

  unfoldable pub ip_fresh : Visit → Bytes → IpFound D → Fresh
  unfolding ip_response ip_response_json
  ip_fresh v address f =
      let r = ip_response v address f in
      record { data_bytes = marshalled (ip_response_json v.rfc3339_nano r); base = r.base }

  unfoldable pub ip_replies : Config → (geo abuse vt : Call) → Bytes → List (IpReply D)
  ip_replies cfg geo abuse vt address =
      geo_reply (fetch_ip_info D floats.parse_float geo cfg.ip_info_key address)
      ∷ abuse_reply (fetch_abuse_ipdb abuse cfg.abuse_ipdb_key address)
      ∷ vt_reply (fetch_virus_total_ip vt cfg.virus_total_key address)
      ∷ []

  -- `replies` are those of the sources for the address, in the order in which they arrive.
  unfoldable pub ip_handler : (Bytes → List (IpReply D)) → Visit → Service → Bytes → Done
  unfolding ip_fresh collect_ip
  ip_handler replies v s address =
      if not (is_valid_ip address)
      then refuse s false 400 (str "invalid IP address")
      else if is_bogon_ip address
      then refuse s false 422 (str "Private and reserved IP addresses are not supported")
      else lookup_cached v s false (str "ip:" ++ address)
          (ip_fresh v address (collect_ip no_ip_found (replies address)))
