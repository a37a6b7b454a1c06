-- ===== src/Services/Honest.antt =====
-- What the metadata of a reply says of it.
use ahlyx_labs.Common.{
  ℕ, ◌==◌, ◌≡◌, refl, Bool, true, false, not, Option, none, some, is_some, List, ◌∷◌, ◌++◌, Bytes,
  str, str_eq, if◌then◌else◌,
}
use ahlyx_labs.Common.Assoc.{Table}
use ahlyx_labs.Verdict.{CirclData}
use ahlyx_labs.Json.{Json}
use ahlyx_labs.Json.Parse.{parse_json}
use ahlyx_labs.Services.{
  cut, whole, Answer, refused, answered, Reply, Call, found, failed, unmarshal, read_first,
  read_rest, status_first, http_error,
}
use ahlyx_labs.Relay.Encoding.{base64_encode}
use ahlyx_labs.Services.VirusTotal.{
  fetch_virus_total_ip, fetch_virus_total_domain, fetch_virus_total_url, fetch_virus_total_hash,
  vt_get, vt_ip_url, vt_domain_url, vt_url_url, vt_file_url, decode_attributes, store_ip,
  no_ip_attributes, vt_ip_data, store_domain, no_domain_attributes, domain_vt_data, store_url,
  no_url_attributes, url_vt_data, store_hash, no_hash_attributes, hash_vt_data,
}
use ahlyx_labs.Services.AbuseIpdb.{fetch_abuse_ipdb, decode_report, abuse_data, abuse_ipdb_request}
use ahlyx_labs.Services.IpInfo.{fetch_ip_info, decode_location, geo_location, ip_info_request}
use ahlyx_labs.Services.Otx.{
  fetch_otx_ip, fetch_otx_domain, decode_otx, otx_get, otx_ip_url, otx_domain_url,
}
use ahlyx_labs.Services.Circl.{
  fetch_circl, on_answer, unknown_hash, decode_raw, circl_data, circl_request,
}
use ahlyx_labs.Services.MalwareBazaar.{
  fetch_malware_bazaar, Samples, on_samples, no_data, first_sample, decode_samples,
  malware_bazaar_request,
}
use ahlyx_labs.Services.SafeBrowsing.{
  fetch_safe_browsing, decode_matches, safe_browsing_data, safe_browsing_request,
}

-- Success comes with data and no error, failure with an error and no data, both under the name.
pub data Honest {A : Type 0} (name : Bytes) : Reply A → Type 0 where
  success : (now : ℕ) (a : A) → Honest name (found name now a)
  failure : (now : ℕ) (e : Bytes) → Honest name (failed name now e)

module _ {A : Type 0} (name : Bytes) (call : Call) where
  abbrev decoded_reply : {R : Type 0} → (R → Reply A) → Bytes → Option R → Reply A
  decoded_reply use_raw body none = failed name call.now (call.explain body)
  decoded_reply use_raw body (some raw) = use_raw raw

  decoded-Honest :
      {R : Type 0} (use_raw : R → Reply A) (body : Bytes) (o : Option R)
      → ((r : R) → Honest name (use_raw r))
      → Honest name (decoded_reply use_raw body o)
  decoded-Honest use_raw body none h = failure call.now (call.explain body)
  decoded-Honest use_raw body (some raw) h = h raw

  abbrev parsed_reply :
      {R : Type 0} → (Json → Option R) → (R → Reply A) → Bytes → Option Json → Reply A
  parsed_reply decode use_raw body none = failed name call.now (call.explain body)
  parsed_reply decode use_raw body (some j) = decoded_reply use_raw body (decode j)

  parsed-Honest :
      {R : Type 0} (decode : Json → Option R) (use_raw : R → Reply A) (body : Bytes)
      (o : Option Json)
      → ((r : R) → Honest name (use_raw r))
      → Honest name (parsed_reply decode use_raw body o)
  parsed-Honest decode use_raw body none h = failure call.now (call.explain body)
  parsed-Honest decode use_raw body (some j) h = decoded-Honest use_raw body (decode j) h

  unmarshal-Honest :
      {R : Type 0} (decode : Json → Option R) (use_raw : R → Reply A)
      → ((r : R) → Honest name (use_raw r))
      → (body : Bytes) → Honest name (unmarshal name call decode use_raw body)
  unmarshal-Honest decode use_raw h body = parsed-Honest decode use_raw body (parse_json body) h

  checked-Honest :
      (t : Bool) (status : ℕ) (r : Reply A)
      → Honest name r
      → Honest name (if t then r else failed name call.now (http_error status))
  checked-Honest true status r h = h
  checked-Honest false status r h = failure call.now (http_error status)

  read_first-Honest :
      (on_body : Bytes → Reply A) (answer : Answer)
      → ((body : Bytes) → Honest name (on_body body))
      → Honest name (read_first name call on_body answer)
  read_first-Honest on_body (refused e) h = failure call.now e
  read_first-Honest on_body (answered status (cut e)) h = failure call.now e
  read_first-Honest on_body (answered status (whole body)) h =
      checked-Honest (status == 200) status (on_body body) (h body)

  status_first-Honest :
      (on_body : Bytes → Reply A) (answer : Answer)
      → ((body : Bytes) → Honest name (on_body body))
      → Honest name (status_first name call on_body answer)
  status_first-Honest on_body (refused e) h = failure call.now e
  status_first-Honest on_body (answered status (cut e)) h =
      checked-Honest (status == 200) status (read_rest name call on_body (cut e))
        (failure call.now e)
  status_first-Honest on_body (answered status (whole body)) h =
      checked-Honest (status == 200) status (read_rest name call on_body (whole body)) (h body)

  read_data-Honest :
      {R : Type 0} (decode : Json → Option R) (data_of : R → A) (answer : Answer)
      → Honest name (
          read_first name call
            (unmarshal name call decode (λ r. found name call.now (data_of r)))
            answer)
  read_data-Honest decode data_of answer =
      read_first-Honest (unmarshal name call decode (λ r. found name call.now (data_of r))) answer (
        unmarshal-Honest decode (λ r. found name call.now (data_of r))
          (λ r. success call.now (data_of r)))

  status_data-Honest :
      {R : Type 0} (decode : Json → Option R) (data_of : R → A) (answer : Answer)
      → Honest name (
          status_first name call
            (unmarshal name call decode (λ r. found name call.now (data_of r)))
            answer)
  status_data-Honest decode data_of answer =
      status_first-Honest (unmarshal name call decode (λ r. found name call.now (data_of r))) answer
        (unmarshal-Honest decode (λ r. found name call.now (data_of r))
          (λ r. success call.now (data_of r)))

on_samples-Honest : (call : Call) (r : Samples) → Honest (str "malwarebazaar") (on_samples call r)
on_samples-Honest call r =
    round (str_eq r.query_status (str "hash_not_found")) (str_eq r.query_status (str "ok"))
  where
    round :
        (b c : Bool)
        → Honest (str "malwarebazaar") (
            if b
            then found (str "malwarebazaar") call.now no_data
            else if not c
            then failed (str "malwarebazaar") call.now r.query_status
            else found (str "malwarebazaar") call.now (first_sample r.samples))
    round true c = success call.now no_data
    round false true = success call.now (first_sample r.samples)
    round false false = failure call.now r.query_status

pub vt_ip-Honest :
    (call : Call) (key text : Bytes)
    → Honest (str "virustotal") (fetch_virus_total_ip call key text)
unfolding fetch_virus_total_ip
vt_ip-Honest call key text =
    read_data-Honest (str "virustotal") call (decode_attributes store_ip no_ip_attributes)
      vt_ip_data (call.web (vt_get key (vt_ip_url ++ b'/' ∷ text)))

pub vt_domain-Honest :
    (range_map : Table Bytes → List Bytes) (call : Call) (key text : Bytes)
    → Honest (str "virustotal") (fetch_virus_total_domain range_map call key text)
unfolding fetch_virus_total_domain
vt_domain-Honest range_map call key text =
    read_data-Honest (str "virustotal") call (decode_attributes store_domain no_domain_attributes)
      (domain_vt_data range_map) (call.web (vt_get key (vt_domain_url ++ b'/' ∷ text)))

pub vt_url-Honest :
    (call : Call) (key text : Bytes)
    → Honest (str "virustotal") (fetch_virus_total_url call key text)
unfolding fetch_virus_total_url
vt_url-Honest call key text =
    read_data-Honest (str "virustotal") call (decode_attributes store_url no_url_attributes)
      url_vt_data (call.web (vt_get key (vt_url_url ++ b'/' ∷ base64_encode text)))

pub vt_hash-Honest :
    (call : Call) (key text : Bytes)
    → Honest (str "virustotal") (fetch_virus_total_hash call key text)
unfolding fetch_virus_total_hash
vt_hash-Honest call key text =
    read_data-Honest (str "virustotal") call (decode_attributes store_hash no_hash_attributes)
      hash_vt_data (call.web (vt_get key (vt_file_url ++ b'/' ∷ text)))

pub abuse_ipdb-Honest :
    (call : Call) (key text : Bytes) → Honest (str "abuseipdb") (fetch_abuse_ipdb call key text)
unfolding fetch_abuse_ipdb
abuse_ipdb-Honest call key text =
    status_data-Honest (str "abuseipdb") call decode_report abuse_data
      (call.web (abuse_ipdb_request key text))

pub ip_info-Honest :
    (D : Type 0) (parse_float : Bytes → Option D) (call : Call) (key text : Bytes)
    → Honest (str "ipinfo") (fetch_ip_info D parse_float call key text)
unfolding fetch_ip_info
ip_info-Honest D parse_float call key text =
    status_data-Honest (str "ipinfo") call decode_location (geo_location D parse_float)
      (call.web (ip_info_request key text))

pub otx_ip-Honest :
    (call : Call) (key text : Bytes) → Honest (str "alienvault_otx") (fetch_otx_ip call key text)
unfolding fetch_otx_ip
otx_ip-Honest call key text =
    read_data-Honest (str "alienvault_otx") call decode_otx (λ r. r)
      (call.web (otx_get key (otx_ip_url ++ b'/' ∷ (text ++ str "/general"))))

pub otx_domain-Honest :
    (call : Call) (key text : Bytes)
    → Honest (str "alienvault_otx") (fetch_otx_domain call key text)
unfolding fetch_otx_domain
otx_domain-Honest call key text =
    read_data-Honest (str "alienvault_otx") call decode_otx (λ r. r)
      (call.web (otx_get key (otx_domain_url ++ b'/' ∷ (text ++ str "/general"))))

pub safe_browsing-Honest :
    (call : Call) (key text : Bytes)
    → Honest (str "google_safe_browsing") (fetch_safe_browsing call key text)
unfolding fetch_safe_browsing
safe_browsing-Honest call key text =
    status_data-Honest (str "google_safe_browsing") call decode_matches safe_browsing_data
      (call.web (safe_browsing_request key text))

pub malware_bazaar-Honest :
    (call : Call) (key text : Bytes)
    → Honest (str "malwarebazaar") (fetch_malware_bazaar call key text)
unfolding fetch_malware_bazaar
malware_bazaar-Honest call key text =
    status_first-Honest (str "malwarebazaar") call
      (unmarshal (str "malwarebazaar") call decode_samples (on_samples call))
      (call.web (malware_bazaar_request key text))
      (unmarshal-Honest (str "malwarebazaar") call decode_samples (on_samples call)
        (on_samples-Honest call))

circl_answer-Honest :
    (call : Call) (answer : Answer) → Honest (str "circl_hashlookup") (on_answer call answer)
circl_answer-Honest call (refused e) = failure call.now e
circl_answer-Honest call (answered status content) =
    round (status == 404)
      (status_first (str "circl_hashlookup") call
        (unmarshal (str "circl_hashlookup") call decode_raw
          (λ raw. found (str "circl_hashlookup") call.now (circl_data raw)))
        (answered status content))
      (status_data-Honest (str "circl_hashlookup") call decode_raw circl_data
        (answered status content))
  where
    round :
        (b : Bool) (r : Reply CirclData)
        → Honest (str "circl_hashlookup") r
        → Honest
            (str "circl_hashlookup")
            (if b then found (str "circl_hashlookup") call.now unknown_hash else r)
    round true r h = success call.now unknown_hash
    round false r h = h

pub circl-Honest :
    (call : Call) (hash kind : Bytes) → Honest (str "circl_hashlookup") (fetch_circl call hash kind)
unfolding fetch_circl
circl-Honest call hash kind = circl_answer-Honest call (call.web (circl_request hash kind))

pub Honest-source : {A : Type 0} {name : Bytes} {r : Reply A} → Honest name r → (r.1).source ≡ name
Honest-source (success now a) = refl
Honest-source (failure now e) = refl

pub Honest-success :
    {A : Type 0} {name : Bytes} {r : Reply A} → Honest name r → (r.1).success ≡ is_some (r.0)
Honest-success (success now a) = refl
Honest-success (failure now e) = refl
