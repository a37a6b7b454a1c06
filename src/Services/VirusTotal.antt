-- ===== src/Services/VirusTotal.antt =====
-- services/virustotal.go.
use ahlyx_labs.Common.{Option, none, some, List, [], ◌∷◌, ◌++◌, Bytes, str, ℤ}
use ahlyx_labs.Common.Assoc.{Table, insert}
use ahlyx_labs.Verdict.{VtIpData, DomainVtData, UrlVtData, HashVtData}
use ahlyx_labs.Relay.Encoding.{base64_encode}
use ahlyx_labs.Json.{Json, null, object}
use ahlyx_labs.Json.Decode.{
  decode_struct, store_members, decode_pointer, decode_over, decode_int, decode_text,
}
use ahlyx_labs.Services.{Request, Reply, Call, found, field, unmarshal, read_first}

abbrev pub vt_ip_url : Bytes
vt_ip_url = str "https://www.virustotal.com/api/v3/ip_addresses"

abbrev pub vt_domain_url : Bytes
vt_domain_url = str "https://www.virustotal.com/api/v3/domains"

abbrev pub vt_url_url : Bytes
vt_url_url = str "https://www.virustotal.com/api/v3/urls"

abbrev pub vt_file_url : Bytes
vt_file_url = str "https://www.virustotal.com/api/v3/files"

unfoldable pub vt_get : Bytes → Bytes → Request
vt_get api_key url = record {
  method = str "GET";
  url = url;
  headers = (str "x-apikey", api_key) ∷ (str "Accept", str "application/json") ∷ [];
  body = [];
}

pub record Stats : Type 0 where
  pub malicious : Option ℤ
  pub harmless : Option ℤ
  pub suspicious : Option ℤ
  pub undetected : Option ℤ

abbrev no_stats : Stats
no_stats = record { malicious = none; harmless = none; suspicious = none; undetected = none }

abbrev store_stats : Stats → Bytes → Json → Option Stats
store_stats s key j =
    let n = decode_pointer decode_int j in
    field (str "malicious") key n (λ v. record s { malicious = v })
      (field (str "harmless") key n (λ v. record s { harmless = v })
        (field (str "suspicious") key n (λ v. record s { suspicious = v })
          (field (str "undetected") key n (λ v. record s { undetected = v }) (some s))))

-- `{"data": {"attributes": …}}`, each a struct.
abbrev pub decode_attributes : {A : Type 0} → (A → Bytes → Json → Option A) → A → Json → Option A
decode_attributes store zero_attributes =
    decode_struct
      (λ a key j.
        field (str "data") key
          (decode_struct
            (λ b key' j'.
              field (str "attributes") key' (decode_struct store b j') (λ v. v) (some b))
            a j)
          (λ v. v) (some a))
      zero_attributes

-- `popular_threat_classification`, with its one field.
abbrev decode_label : Option Bytes → Json → Option (Option Bytes)
decode_label = decode_struct (λ l key j.
    field (str "suggested_threat_label") key (decode_pointer decode_text j) (λ v. v) (some l))

pub record IpAttributes : Type 0 where
  pub stats : Stats
  pub date : Option ℤ
  pub label : Option Bytes

abbrev pub no_ip_attributes : IpAttributes
no_ip_attributes = record { stats = no_stats; date = none; label = none }

abbrev pub store_ip : IpAttributes → Bytes → Json → Option IpAttributes
store_ip a key j =
    field (str "last_analysis_stats") key (decode_struct store_stats a.stats j)
      (λ v. record a { stats = v })
      (field (str "last_analysis_date") key (decode_pointer decode_int j)
        (λ v. record a { date = v })
        (field (str "popular_threat_classification") key (decode_label a.label j)
          (λ v. record a { label = v }) (some a)))

abbrev label_list : Option Bytes → List Bytes
label_list none = []
label_list (some l) = l ∷ []

abbrev pub vt_ip_data : IpAttributes → VtIpData
vt_ip_data a = record {
  malicious_votes = a.stats.malicious;
  harmless_votes = a.stats.harmless;
  suspicious_votes = a.stats.suspicious;
  undetected_votes = a.stats.undetected;
  last_analysis_date = a.date;
  associated_malware = label_list a.label;
}

unfoldable pub fetch_virus_total_ip : Call → Bytes → Bytes → Reply VtIpData
unfolding vt_get
fetch_virus_total_ip call api_key ip =
    read_first (str "virustotal") call
      (unmarshal (str "virustotal") call (decode_attributes store_ip no_ip_attributes)
        (λ a. found (str "virustotal") call.now (vt_ip_data a)))
      (call.web (vt_get api_key (vt_ip_url ++ b'/' ∷ ip)))

pub record DomainAttributes : Type 0 where
  pub stats : Stats
  pub date : Option ℤ
  pub categories : Table Bytes

abbrev pub no_domain_attributes : DomainAttributes
no_domain_attributes = record { stats = no_stats; date = none; categories = [] }

-- Into a map from strings to strings.
abbrev decode_map : Table Bytes → Json → Option (Table Bytes)
decode_map m null = some []
decode_map m (object ms) =
    store_members
      (λ t key j. elim (decode_over decode_text [] j) [
        | none ↦ none
        | some s ↦ some (insert key s t)
      ])
      m ms
decode_map m _ = none

abbrev pub store_domain : DomainAttributes → Bytes → Json → Option DomainAttributes
store_domain a key j =
    field (str "last_analysis_stats") key (decode_struct store_stats a.stats j)
      (λ v. record a { stats = v })
      (field (str "last_analysis_date") key (decode_pointer decode_int j)
        (λ v. record a { date = v })
        (field (str "categories") key (decode_map a.categories j) (λ v. record a { categories = v })
          (some a)))

-- `range_map` gives the values of a map in the order of a `range` over it.
abbrev pub domain_vt_data : (Table Bytes → List Bytes) → DomainAttributes → DomainVtData
domain_vt_data range_map a = record {
  malicious_votes = a.stats.malicious;
  harmless_votes = a.stats.harmless;
  suspicious_votes = a.stats.suspicious;
  undetected_votes = a.stats.undetected;
  last_analysis_date = a.date;
  categories = range_map a.categories;
}

unfoldable pub fetch_virus_total_domain :
    (Table Bytes → List Bytes) → Call → Bytes → Bytes → Reply DomainVtData
unfolding vt_get
fetch_virus_total_domain range_map call api_key domain =
    read_first (str "virustotal") call
      (unmarshal (str "virustotal") call (decode_attributes store_domain no_domain_attributes)
        (λ a. found (str "virustotal") call.now (domain_vt_data range_map a)))
      (call.web (vt_get api_key (vt_domain_url ++ b'/' ∷ domain)))

pub record UrlAttributes : Type 0 where
  pub stats : Stats
  pub date : Option ℤ

abbrev pub no_url_attributes : UrlAttributes
no_url_attributes = record { stats = no_stats; date = none }

abbrev pub store_url : UrlAttributes → Bytes → Json → Option UrlAttributes
store_url a key j =
    field (str "last_analysis_stats") key (decode_struct store_stats a.stats j)
      (λ v. record a { stats = v })
      (field (str "last_analysis_date") key (decode_pointer decode_int j)
        (λ v. record a { date = v }) (some a))

abbrev pub url_vt_data : UrlAttributes → UrlVtData
url_vt_data a = record {
  malicious_votes = a.stats.malicious;
  harmless_votes = a.stats.harmless;
  suspicious_votes = a.stats.suspicious;
  undetected_votes = a.stats.undetected;
  last_analysis_date = a.date;
}

-- The URL is sent in base64 without padding, so there is nothing to trim.
unfoldable pub fetch_virus_total_url : Call → Bytes → Bytes → Reply UrlVtData
unfolding vt_get
fetch_virus_total_url call api_key target_url =
    read_first (str "virustotal") call
      (unmarshal (str "virustotal") call (decode_attributes store_url no_url_attributes)
        (λ a. found (str "virustotal") call.now (url_vt_data a)))
      (call.web (vt_get api_key (vt_url_url ++ b'/' ∷ base64_encode target_url)))

pub record HashAttributes : Type 0 where
  pub stats : Stats
  pub date : Option ℤ
  pub type_description : Option Bytes
  pub size : Option ℤ
  pub meaningful_name : Option Bytes
  pub label : Option Bytes

abbrev pub no_hash_attributes : HashAttributes
no_hash_attributes = record {
  stats = no_stats;
  date = none;
  type_description = none;
  size = none;
  meaningful_name = none;
  label = none;
}

abbrev pub store_hash : HashAttributes → Bytes → Json → Option HashAttributes
store_hash a key j =
    let n = decode_pointer decode_int j in
    let s = decode_pointer decode_text j in
    field (str "last_analysis_stats") key (decode_struct store_stats a.stats j)
      (λ v. record a { stats = v })
      (field (str "last_analysis_date") key n (λ v. record a { date = v })
        (field (str "type_description") key s (λ v. record a { type_description = v })
          (field (str "size") key n (λ v. record a { size = v })
            (field (str "meaningful_name") key s (λ v. record a { meaningful_name = v })
              (field (str "popular_threat_classification") key (decode_label a.label j)
                (λ v. record a { label = v }) (some a))))))

abbrev pub hash_vt_data : HashAttributes → HashVtData
hash_vt_data a = record {
  malicious_votes = a.stats.malicious;
  harmless_votes = a.stats.harmless;
  suspicious_votes = a.stats.suspicious;
  undetected_votes = a.stats.undetected;
  last_analysis_date = a.date;
  file_type = a.type_description;
  file_size = a.size;
  meaningful_name = a.meaningful_name;
  threat_label = a.label;
}

unfoldable pub fetch_virus_total_hash : Call → Bytes → Bytes → Reply HashVtData
unfolding vt_get
fetch_virus_total_hash call api_key hash =
    read_first (str "virustotal") call
      (unmarshal (str "virustotal") call (decode_attributes store_hash no_hash_attributes)
        (λ a. found (str "virustotal") call.now (hash_vt_data a)))
      (call.web (vt_get api_key (vt_file_url ++ b'/' ∷ hash)))
