-- ===== src/Enrichment/Url.antt =====
-- handlers/url.go and capabilities.go, URLResponse of models/models.go, and IsValidURL of
-- validators.go. url.Parse is an argument.
use ahlyx_labs.Common.{
  ℕ, zero, suc, Bool, true, false, not, ◌&&◌, ◌||◌, Option, none, some, List, [], ◌∷◌, ◌++◌, Bytes,
  str, str_eq, if◌then◌else◌,
}
use ahlyx_labs.Cache.{SourceMetadata}
use ahlyx_labs.Config.{Config}
use ahlyx_labs.Json.{Json, bool, text, object, end, member}
use ahlyx_labs.Json.Parse.{parse_first}
use ahlyx_labs.Json.Render.{render}
use ahlyx_labs.Json.Decode.{decode_struct, decode_over, decode_text, decode_bool}
use ahlyx_labs.Services.{Call, Reply, field}
use ahlyx_labs.Services.SafeBrowsing.{is_empty, fetch_safe_browsing}
use ahlyx_labs.Services.VirusTotal.{fetch_virus_total_url}
use ahlyx_labs.Services.UrlScan.{Session, fetch_urlscan}
use ahlyx_labs.Verdict.{SafeBrowsingData, UrlScanData, UrlVtData, url_verdict}
use ahlyx_labs.Verdict.Space.{trim_space}
use ahlyx_labs.Enrichment.{
  Service, Visit, Answer, Done, Fresh, BaseResponse, refuse, write_error, lookup_cached, opt_json,
  int_json, texts_json, fields, base_json,
}

abbrev pub max_url_request_body_bytes : ℕ
max_url_request_body_bytes = 16384

pub record UrlRequest : Type 0 where
  pub url : Bytes
  pub submit_urlscan : Bool

-- A key that is no field's is an error.
abbrev store_url_request : UrlRequest → Bytes → Json → Option UrlRequest
store_url_request r key j =
    field (str "url") key (decode_over decode_text r.url j) (λ v. record r { url = v })
      (field (str "submit_urlscan") key (decode_over decode_bool r.submit_urlscan j)
        (λ v. record r { submit_urlscan = v }) none)

abbrev take : ℕ → Bytes → Bytes
take zero s = []
take (suc n) [] = []
take (suc n) (c ∷ s) = c ∷ take n s

-- Reading stops with an error after the limit, so a document is decoded if it ends before.
unfoldable pub decode_url_request : Bytes → Option UrlRequest
unfolding parse_first
decode_url_request body = elim (parse_first (take max_url_request_body_bytes body)) [
  | none ↦ none
  | some j ↦ decode_struct store_url_request (record { url = []; submit_urlscan = false }) j
]

-- What IsValidURL looks at of a url.URL; `user` says that it is not nil.
pub record ParsedUrl : Type 0 where
  pub scheme : Bytes
  pub host : Bytes
  pub user : Bool

unfoldable pub is_valid_url : (Bytes → Option ParsedUrl) → Bytes → Bool
is_valid_url parse s = elim (parse (trim_space s)) [
  | none ↦ false
  | some u ↦
      (str_eq u.scheme (str "http") || str_eq u.scheme (str "https"))
      && not (is_empty u.host)
      && not u.user
]

pub record UrlResponse : Type 0 where
  pub base : BaseResponse
  pub url : Option Bytes
  pub safe_browsing : Option SafeBrowsingData
  pub urlscan : Option UrlScanData
  pub virus_total : Option UrlVtData
  pub is_malicious : Option Bool

unfoldable pub safe_browsing_json : SafeBrowsingData → Json
safe_browsing_json d =
    fields ((str "is_safe", opt_json bool d.is_safe) ∷ (str "threats", texts_json d.threats) ∷ [])

unfoldable pub urlscan_json : UrlScanData → Json
urlscan_json d = fields (
    (str "verdict", opt_json text d.verdict)
    ∷ (str "score", opt_json int_json d.score)
    ∷ (str "malicious", opt_json bool d.malicious)
    ∷ (str "categories", texts_json d.categories)
    ∷ (str "screenshot_url", opt_json text d.screenshot_url)
    ∷ [])

unfoldable pub url_vt_json : UrlVtData → Json
url_vt_json vt = fields (
    (str "malicious_votes", opt_json int_json vt.malicious_votes)
    ∷ (str "harmless_votes", opt_json int_json vt.harmless_votes)
    ∷ (str "suspicious_votes", opt_json int_json vt.suspicious_votes)
    ∷ (str "undetected_votes", opt_json int_json vt.undetected_votes)
    ∷ (str "last_analysis_date", opt_json int_json vt.last_analysis_date)
    ∷ [])

unfoldable pub url_response_json : (ℕ → Bytes) → UrlResponse → Json
unfolding base_json safe_browsing_json urlscan_json url_vt_json
url_response_json nano r = fields (
    base_json nano r.base
    ++ ((str "url", opt_json text r.url)
        ∷ (str "safe_browsing", opt_json safe_browsing_json r.safe_browsing)
        ∷ (str "urlscan", opt_json urlscan_json r.urlscan)
        ∷ (str "virustotal", opt_json url_vt_json r.virus_total)
        ∷ (str "is_malicious", opt_json bool r.is_malicious)
        ∷ []))

pub data UrlReply : Type 0 where
  sb_reply : Reply SafeBrowsingData → UrlReply
  urlscan_reply : Reply UrlScanData → UrlReply
  vt_reply : Reply UrlVtData → UrlReply

pub record UrlFound : Type 0 where
  pub sb : Option SafeBrowsingData
  pub urlscan : Option UrlScanData
  pub vt : Option UrlVtData
  pub sources : List SourceMetadata

abbrev pub take_url : UrlFound → UrlReply → UrlFound
take_url f (sb_reply (result, meta)) = record f { sb = result; sources = f.sources ++ meta ∷ [] }
take_url f (urlscan_reply (result, meta)) = record f {
  urlscan = result;
  sources = f.sources ++ meta ∷ [];
}
take_url f (vt_reply (result, meta)) = record f { vt = result; sources = f.sources ++ meta ∷ [] }

unfoldable pub collect_url : UrlFound → List UrlReply → UrlFound
collect_url f [] = f
collect_url f (r ∷ rs) = collect_url (take_url f r) rs

abbrev pub no_url_found : UrlFound
no_url_found = record { sb = none; urlscan = none; vt = none; sources = [] }

unfoldable pub url_response : Visit → Bytes → UrlFound → UrlResponse
url_response v target_url f =
    let verdict = url_verdict f.sb f.urlscan f.vt f.sources in
    record {
      base = record {
        query = target_url;
        query_type = str "url";
        timestamp = v.rfc3339 v.ended;
        sources = f.sources;
        verdict = verdict;
      };
      url = some target_url;
      safe_browsing = f.sb;
      urlscan = f.urlscan;
      virus_total = f.vt;
      is_malicious = some verdict.is_malicious;
    }

unfoldable pub url_fresh : Visit → Bytes → UrlFound → Fresh
unfolding url_response url_response_json
url_fresh v target_url f =
    let r = url_response v target_url f in
    record { data_bytes = some (render (url_response_json v.rfc3339_nano r)); base = r.base }

-- The handler from the decoded URL on.
unfoldable pub lookup_url :
    (Bytes → Option ParsedUrl) → List UrlReply → Visit → Service → Bytes → Done
unfolding is_valid_url url_fresh collect_url
lookup_url parse replies v s target_url =
    if is_empty target_url
    then refuse s true 400 (str "missing required field: url")
    else if not (is_valid_url parse target_url)
    then refuse s true 400 (str "invalid URL: must begin with http:// or https://")
    else lookup_cached v s true (str "url:" ++ target_url)
        (url_fresh v target_url (collect_url no_url_found replies))

-- `replies` are those of the sources for the URL in the order in which they arrive; the test says
-- whether URLScan is among them.
unfoldable pub url_handler :
    (Bytes → Option ParsedUrl)
    → (Bytes → Bool → List UrlReply)
    → Config
    → Visit
    → Service
    → Bytes
    → Done
unfolding decode_url_request lookup_url
url_handler parse replies cfg v s body = elim (decode_url_request body) [
  | none ↦ refuse s true 400 (str "request body must be valid JSON")
  | some r ↦
      lookup_url parse (replies r.url (cfg.urlscan_active_submission && r.submit_urlscan)) v s r.url
]

-- It is not given the request.
unfoldable pub deprecated_url_handler : Answer
deprecated_url_handler =
    write_error true 410 (str "URL enrichment now requires POST /api/v1/url with a JSON body")

unfoldable pub capabilities_handler : Bool → Answer
unfolding render
capabilities_handler urlscan_active_submission = record {
  status = 200;
  body =
      render
        (object (member (str "urlscan_active_submission") (bool urlscan_active_submission) end))
      ++ 10 ∷ [];
  no_store = true;
}

-- The replies of the goroutines, in the order in which these start. A lookup at URLScan ends within
-- five rounds.
unfoldable pub url_replies : Config → (sb vt : Call) → Session → Bytes → Bool → List UrlReply
url_replies cfg sb vt scan target_url submits =
    sb_reply (fetch_safe_browsing sb cfg.google_safe_browsing_key target_url)
      ∷ (if submits
          then scan_replies (fetch_urlscan scan 5 cfg.urlscan_key target_url cfg.urlscan_visibility)
          else [])
    ++ vt_reply (fetch_virus_total_url vt cfg.virus_total_key target_url) ∷ []
  where
    scan_replies : Option (Reply UrlScanData) → List UrlReply
    scan_replies none = []
    scan_replies (some r) = urlscan_reply r ∷ []
