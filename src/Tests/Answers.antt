-- ===== src/Tests/Answers.antt =====
-- The theorems of the lookup handlers at concrete inputs.
use ahlyx_labs.Common.{
  ℕ, ◌+◌, ◌≡◌, refl, Bool, true, false, Option, none, some, List, [], ◌∷◌, Bytes, str,
}
use ahlyx_labs.Cache.{get}
use ahlyx_labs.Common.Assoc.{lookup}
use ahlyx_labs.Telemetry.{connected}
use ahlyx_labs.Verdict.{new_verdict, MalwareBazaarData, SafeBrowsingData}
use ahlyx_labs.Validators.{is_valid_ip, is_bogon_ip, detect_hash_type}
use ahlyx_labs.Services.{found, failed}
use ahlyx_labs.Services.VirusTotal.{fetch_virus_total_hash}
use ahlyx_labs.Services.MalwareBazaar.{fetch_malware_bazaar}
use ahlyx_labs.Services.Circl.{fetch_circl}
use ahlyx_labs.Enrichment.{Service, Visit, lookup_cached}
use ahlyx_labs.Enrichment.Ip.{Floats, ip_handler}
use ahlyx_labs.Enrichment.Hash.{HashReply, vt_reply, mb_reply, circl_reply, hash_handler}
use ahlyx_labs.Enrichment.Domain.{domain_handler}
use ahlyx_labs.Enrichment.Url.{UrlReply, UrlRequest, ParsedUrl, sb_reply, url_handler}
use ahlyx_labs.Enrichment.Guards.{IsQuiet, ip_handler-asked, handlers-IsQuiet}
use ahlyx_labs.Enrichment.Arrival.{cab, arranged, verdict_of, evidence_tier, hash_handler-verdict}
use ahlyx_labs.Net.Parse.{parse_ip, parse_cidr}
use ahlyx_labs.Tests.Lookups.{echo, loaded}
use ahlyx_labs.Tests.Service.{half_double}

abbrev empty_service : Service
empty_service = record { cache = []; telemetry = connected }

abbrev visit : ℕ → Visit
visit t = record {
  origin = [];
  started = t;
  ended = t + 5;
  meanwhile = λ s. s;
  rfc3339 = λ n. str "2026-01-01T00:00:00Z";
  rfc3339_nano = λ n. str "2026-01-01T00:00:00Z";
}

abbrev sample : MalwareBazaarData
sample = record {
  file_name = some (str "a.exe");
  file_type = none;
  file_size = none;
  signature = none;
  tags = [];
  first_seen = none;
  last_seen = none;
}

abbrev hash_answers : Bytes → List HashReply
hash_answers hash =
    mb_reply (found (str "malwarebazaar") 3 sample)
    ∷ vt_reply (failed (str "virustotal") 3 (str "HTTP 429"))
    ∷ circl_reply (failed (str "circl_hashlookup") 3 (str "HTTP 500"))
    ∷ []

abbrev no_answers : {A : Type 0} → Bytes → List A
no_answers s = []

abbrev upper_hash : Bytes
upper_hash = str "D41D8CD98F00B204E9800998ECF8427E"

abbrev lower_hash : Bytes
lower_hash = str "d41d8cd98f00b204e9800998ecf8427e"

abbrev safe : SafeBrowsingData
safe = record { is_safe = some true; threats = [] }

abbrev url_answers : Bytes → Bool → List UrlReply
url_answers url scan = sb_reply (found (str "google_safe_browsing") 3 safe) ∷ []

abbrev parse_any : Bytes → Option ParsedUrl
parse_any s = some (record { scheme = str "https"; host = str "a.example"; user = false })

abbrev plain_body : Bytes
plain_body = str "{\"url\":\"https://a.example/\"}"

abbrev scan_body : Bytes
scan_body = str "{\"submit_urlscan\":true,\"url\":\"https://a.example/\"}"

abbrev plain_request : UrlRequest
plain_request = record { url = str "https://a.example/"; submit_urlscan = false }

abbrev scan_request : UrlRequest
scan_request = record { url = str "https://a.example/"; submit_urlscan = true }

abbrev floats : Floats ℕ
floats = record { parse_float = λ s. none; show_float = λ d. none }

address-asked :
    (ip_handler ℕ floats no_answers (visit 0) empty_service (str "8.8.8.8")).asked ≡ true
unfolding ip_handler is_valid_ip is_bogon_ip parse_ip parse_cidr get lookup lookup_cached
address-asked = refl

ip_handler-asked_example :
    (is_valid_ip (str "8.8.8.8") ≡ true)
    × (is_bogon_ip (str "8.8.8.8") ≡ false)
    × (get empty_service.cache (str "ip:8.8.8.8") 0 ≡ none)
ip_handler-asked_example =
    ip_handler-asked ℕ floats no_answers (visit 0) empty_service (str "8.8.8.8") address-asked

handlers-IsQuiet_example :
    IsQuiet empty_service (ip_handler ℕ floats no_answers (visit 0) empty_service (str "10.0.0.1"))
    × IsQuiet empty_service (domain_handler no_answers (visit 0) empty_service (str "10.0.0.1"))
    × IsQuiet empty_service (hash_handler no_answers (visit 0) empty_service (str "10.0.0.1"))
    × IsQuiet empty_service
        (url_handler parse_any url_answers loaded (visit 0) empty_service (str "10.0.0.1"))
handlers-IsQuiet_example =
    handlers-IsQuiet ℕ floats no_answers no_answers no_answers url_answers parse_any loaded
      (visit 0) empty_service (str "10.0.0.1")

hash_handler-verdict_example :
    verdict_of (visit 0) lower_hash (
      arranged cab
        (vt_reply (fetch_virus_total_hash (echo (str "{}")) loaded.virus_total_key lower_hash))
        (mb_reply (fetch_malware_bazaar (echo (str "{}")) [] lower_hash))
        (circl_reply (fetch_circl (echo (str "{}")) lower_hash (detect_hash_type lower_hash))))
    ≡ new_verdict
        (evidence_tier
          ((fetch_virus_total_hash (echo (str "{}")) loaded.virus_total_key lower_hash).0)
          ((fetch_malware_bazaar (echo (str "{}")) [] lower_hash).0))
        none
hash_handler-verdict_example =
    hash_handler-verdict cab loaded (echo (str "{}")) (echo (str "{}")) (echo (str "{}")) (visit 0)
      lower_hash
