-- ===== src/Tests/Lookups.antt =====
-- The theorems of the configuration, the origins and the sources at concrete inputs.
use ahlyx_labs.Common.{
  zero, suc, ◌*◌, ◌≡◌, refl, true, false, none, some, is_some, List, [], ◌∷◌, Bytes, str, str_eq,
  second, arith, ◌⊎◌, inr, ◌>>=◌, if◌then◌else◌, strip_prefix,
}
use ahlyx_labs.Common.Assoc.{Table}
use ahlyx_labs.Net.{net4}
use ahlyx_labs.Config.{Config, load}
use ahlyx_labs.Config.Safety.{IsSafe, load-IsSafe}
use ahlyx_labs.Origin.{is_allowed_browser_origin}
use ahlyx_labs.Origin.Shape.{IsProjectPreview, is_allowed_browser_origin-IsOwn}
use ahlyx_labs.Services.{Answer, answered, whole, Call}
use ahlyx_labs.Services.UrlScan.{Session, fetch_urlscan, urlscan_payload}
use ahlyx_labs.Services.Honest.{Honest}
use ahlyx_labs.Services.Deadline.{fetch_urlscan-ends}
use ahlyx_labs.Services.Payload.{submission, urlscan_payload-roundtrip}
use ahlyx_labs.Json.Parse.{parse_json}
use ahlyx_labs.Json.Decode.{decode_struct, names_field}

-- An environment that sets the variables of URLScan and of the scanner.
abbrev environment : Bytes → Bytes
environment name =
    if str_eq name (str "URLSCAN_VISIBILITY")
    then str "private"
    else if str_eq name (str "SERVER_SCANNER_ALLOWED_TARGETS")
    then str "10.0.0.0/24"
    else if str_eq name (str "CACHE_TTL_SECONDS")
    then str "60"
    else []

abbrev pub loaded : Config
loaded = record {
  port = str "8080";
  abuse_ipdb_key = [];
  virus_total_key = [];
  ip_info_key = [];
  otx_key = [];
  google_safe_browsing_key = [];
  urlscan_key = [];
  urlscan_active_submission = false;
  urlscan_visibility = str "private";
  server_scanner_enabled = false;
  server_scanner_allowed_targets = net4 167772160 24 ∷ [];
  cloudflare_origin_secret = [];
  cache_ttl_seconds = 60;
}

environment-loaded : load environment ≡ inr loaded
unfolding load str_eq
environment-loaded = refl

load-IsSafe_example : IsSafe loaded
load-IsSafe_example = load-IsSafe environment loaded environment-loaded

urlscan_payload-roundtrip_example :
    (urlscan_payload (str "https://a.example/?q=\"}&x=<1>") (str "private") >>= parse_json)
    ≡ some (submission (str "https://a.example/?q=\"}&x=<1>") (str "private"))
urlscan_payload-roundtrip_example =
    urlscan_payload-roundtrip environment loaded (str "https://a.example/?q=\"}&x=<1>")
      environment-loaded refl

abbrev preview : Bytes
preview = str "https://ahlyx-labs-git-fix-1-ahlyx-labs.vercel.app"

preview_allowed : is_allowed_browser_origin preview ≡ true
unfolding is_allowed_browser_origin str_eq strip_prefix
preview_allowed = refl

is_allowed_browser_origin-IsOwn_example :
    (preview ≡ str "https://ahlyxlabs.com")
    ⊎ (preview ≡ str "https://www.ahlyxlabs.com")
    ⊎ IsProjectPreview preview
is_allowed_browser_origin-IsOwn_example = is_allowed_browser_origin-IsOwn preview preview_allowed

-- A service that answers everything with the same text.
abbrev pub echo : Bytes → Call
echo body = record {
  web = λ r. answered 200 (whole body);
  explain = λ b. str "syntax error";
  now = 7;
}

abbrev values : Table Bytes → List Bytes
values [] = []
values ((k, v) ∷ m) = v ∷ values m

-- A submission that is accepted, and a result that never gets ready.
abbrev pending : Session
pending = record {
  web = λ n r. elim n as (λ k. Answer) [
    | zero ↦ answered 200 (whole (str "{\"uuid\":\"u1\"}"))
    | suc k ↦ answered 404 (whole [])
  ];
  clock = λ n. n * (2 * second);
  explain = λ b. str "syntax error";
  now = 7;
}

fetch_urlscan-ends_example :
    is_some (fetch_urlscan pending 5 (str "key") (str "https://a.example/") (str "unlisted")) ≡ true
fetch_urlscan-ends_example =
    fetch_urlscan-ends pending (str "key") (str "https://a.example/") (str "unlisted")
      (λ n. omega arith)

-- Four rounds are too few for it.
four_rounds : fetch_urlscan pending 4 (str "key") (str "https://a.example/") (str "unlisted") ≡ none
unfolding fetch_urlscan str_eq decode_struct names_field
four_rounds = refl
