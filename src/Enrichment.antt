-- ===== src/Enrichment.antt =====
-- internal/enrichment/handlers: what the four lookups share. The service's state is its cache and its
-- telemetry. While a lookup waits for its sources, other requests may change both.
pub mod Lookup
pub mod Repeat
pub mod Arrival
pub mod Guards
pub mod Ip
pub mod Hash
pub mod Url
pub mod Domain
use ahlyx_labs.Common.{
  ℕ, ◌+◌, ◌-◌, ◌/◌, ◌≡◌, Bool, true, false, not, Option, none, some, List, [], ◌∷◌, ◌++◌, Bytes,
  str, show_decimal, if◌then◌else◌, length, ℤ, pos, negsuc, suc,
}
use ahlyx_labs.Cache.{Cache, SourceMetadata, get, set}
use ahlyx_labs.Telemetry.{Telemetry, log_query}
use ahlyx_labs.Origin.{should_log_query_telemetry}
use ahlyx_labs.Verdict.{Verdict, Tier, clean, low, medium, review, high, critical}
use ahlyx_labs.Json.{
  Json, null, bool, number, text, array, object, Items, nil, cons, Members, end, member,
}
use ahlyx_labs.Json.Render.{render}

pub record Service : Type 0 where
  pub cache : Cache
  pub telemetry : Telemetry

-- A request's origin, when it starts and when its sources have answered, what other requests do to
-- the service in between, and the layouts of times.
pub record Visit : Type 0 where
  pub origin : Bytes
  pub started : ℕ
  pub ended : ℕ
  pub meanwhile : Service → Service
  pub rfc3339 : ℕ → Bytes
  pub rfc3339_nano : ℕ → Bytes

-- `no_store` is the Cache-Control header.
pub record Answer : Type 0 where
  pub status : ℕ
  pub body : Bytes
  pub no_store : Bool

-- `asked` says that the sources were asked.
pub record Done : Type 0 where
  pub service : Service
  pub answer : Answer
  pub asked : Bool

-- The text that the encoder writes ends in a line feed.
unfoldable pub error_body : Bytes → Bytes
error_body msg = render (object (member (str "error") (text msg) end)) ++ 10 ∷ []

-- writeError.
abbrev pub write_error : Bool → ℕ → Bytes → Answer
write_error no_store status msg = record {
  status = status;
  body = error_body msg;
  no_store = no_store;
}

-- An answer without any effect.
abbrev pub refuse : Service → Bool → ℕ → Bytes → Done
refuse s no_store status msg = record {
  service = s;
  answer = write_error no_store status msg;
  asked = false;
}

unfoldable pub tier_text : Tier → Bytes
tier_text clean = str "clean"
tier_text low = str "low"
tier_text medium = str "medium"
tier_text review = str "review"
tier_text high = str "high"
tier_text critical = str "critical"

abbrev pub opt_json : {A : Type 0} → (A → Json) → Option A → Json
opt_json f none = null
opt_json f (some a) = f a

abbrev show_int : ℤ → Bytes
show_int (pos n) = show_decimal n
show_int (negsuc n) = b'-' ∷ show_decimal (suc n)

abbrev pub int_json : ℤ → Json
int_json n = number (show_int n)

abbrev pub texts_json : List Bytes → Json
texts_json l = array (items l)
  where
    items : List Bytes → Items
    items [] = nil
    items (s ∷ ss) = cons (text s) (items ss)

abbrev pub fields : List (Bytes × Json) → Json
fields l = object (members l)
  where
    members : List (Bytes × Json) → Members
    members [] = end
    members ((key, j) ∷ l) = member key j (members l)

unfoldable pub source_json : (ℕ → Bytes) → SourceMetadata → Json
source_json nano m = fields (
    (str "source", text m.source)
    ∷ (str "success", bool m.success)
    ∷ (str "error", opt_json text m.error)
    ∷ (str "retrieved_at", text (nano m.retrieved_at))
    ∷ [])

abbrev sources_json : (ℕ → Bytes) → List SourceMetadata → Items
sources_json nano [] = nil
sources_json nano (m ∷ ms) = cons (source_json nano m) (sources_json nano ms)

unfoldable pub verdict_json : Verdict → Json
unfolding tier_text
verdict_json v = fields (
    (str "tier", text (tier_text v.tier))
    ∷ (str "score", opt_json int_json v.score)
    ∷ (str "is_malicious", bool v.is_malicious)
    ∷ [])

-- models.BaseResponse, which each response embeds first.
pub record BaseResponse : Type 0 where
  pub query : Bytes
  pub query_type : Bytes
  pub timestamp : Bytes
  pub sources : List SourceMetadata
  pub verdict : Verdict

unfoldable pub base_json : (ℕ → Bytes) → BaseResponse → List (Bytes × Json)
unfolding source_json verdict_json
base_json nano b =
    (str "query", text b.query)
    ∷ (str "query_type", text b.query_type)
    ∷ (str "timestamp", text b.timestamp)
    ∷ (str "sources", array (sources_json nano b.sources))
    ∷ (str "verdict", verdict_json b.verdict)
    ∷ []

-- json.Marshal of a response, `none` for its error.
pub record Fresh : Type 0 where
  pub data_bytes : Option Bytes
  pub base : BaseResponse

-- shared.LogQuery, unless the request comes from a preview.
abbrev log_lookup : Visit → Telemetry → BaseResponse → Telemetry
log_lookup v t b =
    if should_log_query_telemetry v.origin
    then log_query t (record {
      tool = str "enrichment";
      query_type = b.query_type;
      verdict = tier_text b.verdict.tier;
      threat = b.verdict.is_malicious;
      source_count = length b.sources;
      response_ms = (v.ended - v.started) / 1000000;
      host_count = 0;
      port_count = 0;
    })
    else t

-- What a lookup does with the response, on the state at that time.
unfoldable pub complete : Visit → Bool → Bytes → Fresh → Service → Done
complete v no_store key fresh s = elim fresh.data_bytes [
  | none ↦ record {
    service = s;
    answer = write_error no_store 500 (str "failed to encode response");
    asked = true;
  }
  | some bytes ↦ record {
    service = record {
      cache = set s.cache key bytes fresh.base.sources v.ended;
      telemetry = log_lookup v s.telemetry fresh.base;
    };
    answer = record { status = 200; body = bytes; no_store = no_store };
    asked = true;
  }
]

-- A lookup that has passed its checks: the cached bytes, or else the fresh response.
unfoldable pub lookup_cached : Visit → Service → Bool → Bytes → Fresh → Done
unfolding complete
lookup_cached v s no_store key fresh = elim (get s.cache key v.started) [
  | some cached ↦ record {
    service = s;
    answer = record { status = 200; body = cached; no_store = no_store };
    asked = false;
  }
  | none ↦ complete v no_store key fresh (v.meanwhile s)
]
