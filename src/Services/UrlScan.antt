-- ===== src/Services/UrlScan.antt =====
-- services/urlscan.go. The n-th request of a call is answered by `web n`, and `clock n` is when the
-- deadline is looked at after it.
use ahlyx_labs.Common.{
  ℕ, zero, suc, ◌+◌, ◌*◌, Bool, false, not, ◌&&◌, Option, none, some, List, [], ◌∷◌, ◌++◌, Bytes,
  str, str_eq, ltb, leb, ◌==◌, if◌then◌else◌, ℤ, pos, second,
}
use ahlyx_labs.Verdict.{UrlScanData}
use ahlyx_labs.Json.{Json, text, object, end, member}
use ahlyx_labs.Json.Parse.{parse_json}
use ahlyx_labs.Json.Render.{render}
use ahlyx_labs.Json.Decode.{
  decode_struct, decode_slice, decode_pointer, decode_over, decode_int, decode_text, decode_bool,
}
use ahlyx_labs.Services.{
  Request, Content, cut, whole, Answer, refused, answered, Reply, found, failed, field, http_error,
}

abbrev urlscan_submit_url : Bytes
urlscan_submit_url = str "https://urlscan.io/api/v1/scan/"

abbrev urlscan_result_url : Bytes
urlscan_result_url = str "https://urlscan.io/api/v1/result/"

pub record Session : Type 0 where
  pub web : ℕ → Request → Answer
  pub clock : ℕ → ℕ
  pub explain : Bytes → Bytes
  pub now : ℕ

-- `none` for the error.
unfoldable pub urlscan_payload : Bytes → Bytes → Option Bytes
unfolding render
urlscan_payload target_url visibility =
    if not (str_eq visibility (str "unlisted")) && not (str_eq visibility (str "private"))
    then none
    else some (
        render (
          object (
            member (str "url") (text target_url)
              (member (str "visibility") (text visibility) end))))

unfoldable pub submit_request : Bytes → Bytes → Request
submit_request api_key payload = record {
  method = str "POST";
  url = urlscan_submit_url;
  headers = (str "API-Key", api_key) ∷ (str "Content-Type", str "application/json") ∷ [];
  body = payload;
}

unfoldable pub result_request : Bytes → Request
result_request uuid = record {
  method = str "GET";
  url = urlscan_result_url ++ uuid ++ str "/";
  headers = [];
  body = [];
}

-- How the polling ends: with a body, or with the text of an error.
pub data Polled : Type 0 where
  ready : Bytes → Polled
  gave_up : Bytes → Polled

abbrev pub of_content : Content → Polled
of_content (cut e) = gave_up e
of_content (whole body) = ready body

-- The rounds of the loop from request `n` on. `none` says that the rounds did not suffice.
unfoldable pub poll : Session → Bytes → ℕ → ℕ → ℕ → Option Polled
unfolding result_request
poll s uuid deadline zero n = none
poll s uuid deadline (suc rounds) n =
    let again = poll s uuid deadline rounds (suc n) in
    elim (s.web n (result_request uuid)) [
      | refused e ↦ some (gave_up e)
      | answered status content ↦
          if status == 200
          then some (of_content content)
          else if ltb deadline (s.clock n)
          then some (gave_up (str "scan result not ready within 8 seconds"))
          else again
    ]

pub record Scan : Type 0 where
  pub malicious : Bool
  pub score : ℤ
  pub categories : List Bytes
  pub screenshot_url : Option Bytes

abbrev no_scan : Scan
no_scan = record { malicious = false; score = pos 0; categories = []; screenshot_url = none }

abbrev store_overall : Scan → Bytes → Json → Option Scan
store_overall r key j =
    field (str "malicious") key (decode_over decode_bool r.malicious j)
      (λ v. record r { malicious = v })
      (field (str "score") key (decode_over decode_int r.score j) (λ v. record r { score = v })
        (some r))

abbrev store_categories : Scan → Bytes → Json → Option Scan
store_categories r key j =
    field (str "categories") key (decode_slice (decode_over decode_text []) j)
      (λ v. record r { categories = v }) (some r)

abbrev store_verdicts : Scan → Bytes → Json → Option Scan
store_verdicts r key j =
    field (str "overall") key (decode_struct store_overall r j) (λ v. v)
      (field (str "urlscan") key (decode_struct store_categories r j) (λ v. v) (some r))

abbrev store_task : Scan → Bytes → Json → Option Scan
store_task r key j =
    field (str "screenshotURL") key (decode_pointer decode_text j)
      (λ v. record r { screenshot_url = v }) (some r)

abbrev decode_scan : Json → Option Scan
decode_scan =
    decode_struct
      (λ r key j.
        field (str "verdicts") key (decode_struct store_verdicts r j) (λ v. v)
          (field (str "task") key (decode_struct store_task r j) (λ v. v) (some r)))
      no_scan

abbrev url_scan_data : Scan → UrlScanData
url_scan_data r = record {
  verdict = some (if r.malicious then str "malicious" else str "clean");
  score = some r.score;
  malicious = some r.malicious;
  categories = r.categories;
  screenshot_url = r.screenshot_url;
}

abbrev pub decode_uuid : Json → Option Bytes
decode_uuid =
    decode_struct
      (λ u key j. field (str "uuid") key (decode_over decode_text u j) (λ v. v) (some u)) []

abbrev pub parsed : {A : Type 0} → (Json → Option A) → Bytes → Option A
parsed decode body = elim (parse_json body) [ none ↦ none | some j ↦ decode j ]

abbrev pub error_reply : Session → Bytes → Reply UrlScanData
error_reply s msg = failed (str "urlscan") s.now msg

-- What the body of a result, or the error of the polling, is made into.
abbrev pub finish : Session → Polled → Reply UrlScanData
finish s (gave_up e) = error_reply s e
finish s (ready body) = elim (parsed decode_scan body) [
  | none ↦ error_reply s (s.explain body)
  | some r ↦ found (str "urlscan") s.now (url_scan_data r)
]

-- The loop and what follows it. The deadline is 8 seconds after the answer to the submission.
abbrev pub await : Session → ℕ → Bytes → Option (Reply UrlScanData)
await s rounds uuid = elim (poll s uuid (s.clock 0 + 8 * second) rounds 1) [
  | none ↦ none
  | some p ↦ some (finish s p)
]

abbrev pub on_uuid : Session → ℕ → Bytes → Option Bytes → Option (Reply UrlScanData)
on_uuid s rounds body none = some (error_reply s (s.explain body))
on_uuid s rounds body (some []) = some (error_reply s (str "no scan UUID returned"))
on_uuid s rounds body (some (c ∷ uuid)) = await s rounds (c ∷ uuid)

abbrev pub on_submitted : Session → ℕ → Content → Option (Reply UrlScanData)
on_submitted s rounds (cut e) = some (error_reply s e)
on_submitted s rounds (whole body) = on_uuid s rounds body (parsed decode_uuid body)

-- Of the statuses other than 200, those from 400 on are errors, but not 400 itself.
abbrev pub on_submission : Session → ℕ → Answer → Option (Reply UrlScanData)
on_submission s rounds (refused e) = some (error_reply s e)
on_submission s rounds (answered status content) =
    if not (status == 200) && not (status == 400) && leb 400 status
    then some (error_reply s (http_error status))
    else on_submitted s rounds content

-- `none` says that the loop has not ended within that many rounds.
unfoldable pub fetch_urlscan : Session → ℕ → Bytes → Bytes → Bytes → Option (Reply UrlScanData)
unfolding urlscan_payload submit_request poll parse_json
fetch_urlscan s rounds api_key target_url visibility =
    elim (urlscan_payload target_url visibility) [
      | none ↦ some (error_reply s (str "URLScan active submission is not configured safely"))
      | some payload ↦ on_submission s rounds (s.web 0 (submit_request api_key payload))
    ]
