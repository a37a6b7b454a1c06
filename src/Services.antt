-- ===== src/Services.antt =====
-- internal/enrichment/services: what the fetch functions share. The answer of a service, and the
-- text of an error of encoding/json, are arguments.
pub mod VirusTotal
pub mod Query
pub mod AbuseIpdb
pub mod Otx
pub mod Circl
pub mod MalwareBazaar
pub mod SafeBrowsing
pub mod UrlScan
pub mod IpInfo
pub mod Dns
pub mod Ssl
pub mod Whois
pub mod Honest
pub mod Deadline
pub mod Payload
use ahlyx_labs.Common.{
  ℕ, ◌==◌, Bool, true, false, Option, none, some, List, [], ◌∷◌, ◌++◌, Bytes, str, show_decimal,
  if◌then◌else◌,
}
use ahlyx_labs.Cache.{SourceMetadata}
use ahlyx_labs.Json.{Json}
use ahlyx_labs.Json.Parse.{parse_json}
use ahlyx_labs.Json.Decode.{names_field}

-- http.NewRequest with the headers that are set.
pub record Request : Type 0 where
  pub method : Bytes
  pub url : Bytes
  pub headers : List (Bytes × Bytes)
  pub body : Bytes

-- What io.ReadAll makes of a body: the text of the error, or the body.
pub data Content : Type 0 where
  cut : Bytes → Content
  whole : Bytes → Content

-- What building and sending a request comes to: the text of the error, or the status and the body.
pub data Answer : Type 0 where
  refused : Bytes → Answer
  answered : ℕ → Content → Answer

-- What a fetch function returns.
abbrev pub Reply : Type 0 → Type 0
Reply A = Option A × SourceMetadata

-- The service that is asked, the text of the error that json.Unmarshal gives on a body, and the time
-- of the call.
pub record Call : Type 0 where
  pub web : Request → Answer
  pub explain : Bytes → Bytes
  pub now : ℕ

-- `meta.Success = true`, with the data.
abbrev pub found : {A : Type 0} → Bytes → ℕ → A → Reply A
found name now a =
    (some a, record { source = name; success = true; error = none; retrieved_at = now })

-- `meta.Error = ptr(msg)`, with no data.
abbrev pub failed : {A : Type 0} → Bytes → ℕ → Bytes → Reply A
failed name now msg =
    (none, record { source = name; success = false; error = some msg; retrieved_at = now })

-- fmt.Sprintf("HTTP %d", status).
abbrev pub http_error : ℕ → Bytes
http_error status = str "HTTP " ++ show_decimal status

-- A case of the struct under a tag: the value under the key, if the key names it, is decoded and put
-- in its place.
abbrev pub field : {A B : Type 0} → Bytes → Bytes → Option B → (B → A) → Option A → Option A
field tag key decoded put otherwise =
    if names_field tag key then elim decoded [ none ↦ none | some b ↦ some (put b) ] else otherwise

module _ {A : Type 0} (name : Bytes) (call : Call) where
  -- json.Unmarshal of the body, and what is done with the variable.
  abbrev pub unmarshal : {R : Type 0} → (Json → Option R) → (R → Reply A) → Bytes → Reply A
  unmarshal decode use_raw body = elim (parse_json body) [
    | none ↦ failed name call.now (call.explain body)
    | some j ↦ elim (decode j) [
      | none ↦ failed name call.now (call.explain body)
      | some raw ↦ use_raw raw
    ]
  ]

  -- The body is read before the status is looked at.
  abbrev pub read_first : (Bytes → Reply A) → Answer → Reply A
  read_first on_body (refused e) = failed name call.now e
  read_first on_body (answered status (cut e)) = failed name call.now e
  read_first on_body (answered status (whole body)) =
      if status == 200 then on_body body else failed name call.now (http_error status)

  abbrev pub read_rest : (Bytes → Reply A) → Content → Reply A
  read_rest on_body (cut e) = failed name call.now e
  read_rest on_body (whole body) = on_body body

  -- The status is looked at before the body is read.
  abbrev pub status_first : (Bytes → Reply A) → Answer → Reply A
  status_first on_body (refused e) = failed name call.now e
  status_first on_body (answered status content) =
      if status == 200 then read_rest on_body content else failed name call.now (http_error status)
