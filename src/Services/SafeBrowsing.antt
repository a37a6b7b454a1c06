-- ===== src/Services/SafeBrowsing.antt =====
-- services/safebrowsing.go. json.Marshal of these maps does not fail, and sorts their keys.
use ahlyx_labs.Common.{Bool, true, false, not, Option, some, List, [], ◌∷◌, ◌++◌, Bytes, str, keep}
use ahlyx_labs.Verdict.{SafeBrowsingData}
use ahlyx_labs.Json.{Json, text, array, object, nil, cons, end, member}
use ahlyx_labs.Json.Render.{render}
use ahlyx_labs.Json.Decode.{decode_struct, decode_slice, decode_over, decode_text}
use ahlyx_labs.Services.{Request, Reply, Call, found, field, unmarshal, status_first}

abbrev safe_browsing_url : Bytes
safe_browsing_url = str "https://safebrowsing.googleapis.com/v4/threatMatches:find"

abbrev payload : Bytes → Json
payload target_url = object (
    member (str "client")
      (object (
        member (str "clientId") (text (str "security-enrichment-api"))
          (member (str "clientVersion") (text (str "0.1.0")) end)))
      (member (str "threatInfo")
        (object (
          member (str "platformTypes") (array (cons (text (str "ANY_PLATFORM")) nil)) (
            member (str "threatEntries")
              (array (cons (object (member (str "url") (text target_url) end)) nil))
              (member (str "threatEntryTypes") (array (cons (text (str "URL")) nil)) (
                member (str "threatTypes")
                  (array (
                    cons (text (str "MALWARE")) (
                      cons (text (str "SOCIAL_ENGINEERING")) (
                        cons (text (str "UNWANTED_SOFTWARE"))
                          (cons (text (str "POTENTIALLY_HARMFUL_APPLICATION")) nil)))))
                  end)))))
        end))

unfoldable pub safe_browsing_request : Bytes → Bytes → Request
unfolding render
safe_browsing_request api_key target_url = record {
  method = str "POST";
  url = safe_browsing_url ++ str "?key=" ++ api_key;
  headers = (str "Content-Type", str "application/json") ∷ [];
  body = render (payload target_url);
}

-- A match is its threat type.
abbrev decode_match : Json → Option Bytes
decode_match =
    decode_struct
      (λ t key j. field (str "threatType") key (decode_over decode_text t j) (λ v. v) (some t)) []

abbrev pub decode_matches : Json → Option (List Bytes)
decode_matches =
    decode_struct
      (λ ms key j. field (str "matches") key (decode_slice decode_match j) (λ v. v) (some ms)) []

abbrev pub is_empty : {A : Type 0} → List A → Bool
is_empty [] = true
is_empty (a ∷ l) = false

abbrev pub safe_browsing_data : List Bytes → SafeBrowsingData
safe_browsing_data matches =
    let threats = keep (λ t. not (is_empty t)) matches in
    record { is_safe = some (is_empty threats); threats = threats }

unfoldable pub fetch_safe_browsing : Call → Bytes → Bytes → Reply SafeBrowsingData
unfolding safe_browsing_request
fetch_safe_browsing call api_key target_url =
    status_first (str "google_safe_browsing") call
      (unmarshal (str "google_safe_browsing") call decode_matches
        (λ ms. found (str "google_safe_browsing") call.now (safe_browsing_data ms)))
      (call.web (safe_browsing_request api_key target_url))
