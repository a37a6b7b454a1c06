-- ===== src/Services/MalwareBazaar.antt =====
-- services/malwarebazaar.go.
use ahlyx_labs.Common.{
  Option, none, some, List, [], ◌∷◌, ◌++◌, Bytes, str, str_eq, if◌then◌else◌, not,
}
use ahlyx_labs.Verdict.{MalwareBazaarData}
use ahlyx_labs.Json.{Json}
use ahlyx_labs.Json.Decode.{
  decode_struct, decode_slice, decode_pointer, decode_over, decode_int, decode_text,
}
use ahlyx_labs.Services.{Request, Reply, Call, found, failed, field, unmarshal, status_first}
use ahlyx_labs.Services.Query.{query_escape}

abbrev malware_bazaar_url : Bytes
malware_bazaar_url = str "https://mb-api.abuse.ch/api/v1/"

-- The form's keys are in order.
unfoldable pub malware_bazaar_request : Bytes → Bytes → Request
malware_bazaar_request api_key hash = record {
  method = str "POST";
  url = malware_bazaar_url;
  headers =
      (str "Auth-Key", api_key)
      ∷ (str "Content-Type", str "application/x-www-form-urlencoded")
      ∷ (str "User-Agent", str "security-enrichment-api/0.1.0")
      ∷ [];
  body = str "hash=" ++ query_escape hash ++ str "&query=get_info";
}

-- The element of `data` has the fields of the result.
abbrev pub no_data : MalwareBazaarData
no_data = record {
  file_name = none;
  file_type = none;
  file_size = none;
  signature = none;
  tags = [];
  first_seen = none;
  last_seen = none;
}

-- A null in a list of strings is the empty string.
abbrev decode_tags : Json → Option (List Bytes)
decode_tags = decode_slice (decode_over decode_text [])

abbrev store_data : MalwareBazaarData → Bytes → Json → Option MalwareBazaarData
store_data d key j =
    let s = decode_pointer decode_text j in
    field (str "file_name") key s (λ v. record d { file_name = v })
      (field (str "file_type") key s (λ v. record d { file_type = v })
        (field (str "file_size") key (decode_pointer decode_int j) (λ v. record d { file_size = v })
          (field (str "signature") key s (λ v. record d { signature = v })
            (field (str "tags") key (decode_tags j) (λ v. record d { tags = v })
              (field (str "first_seen") key s (λ v. record d { first_seen = v })
                (field (str "last_seen") key s (λ v. record d { last_seen = v }) (some d)))))))

pub record Samples : Type 0 where
  pub query_status : Bytes
  pub samples : List MalwareBazaarData

abbrev store_samples : Samples → Bytes → Json → Option Samples
store_samples r key j =
    field (str "query_status") key (decode_over decode_text r.query_status j)
      (λ v. record r { query_status = v })
      (field (str "data") key (decode_slice (decode_struct store_data no_data) j)
        (λ v. record r { samples = v }) (some r))

abbrev pub decode_samples : Json → Option Samples
decode_samples = decode_struct store_samples (record { query_status = []; samples = [] })

abbrev pub first_sample : List MalwareBazaarData → MalwareBazaarData
first_sample [] = no_data
first_sample (d ∷ ds) = d

abbrev pub on_samples : Call → Samples → Reply MalwareBazaarData
on_samples call r =
    if str_eq r.query_status (str "hash_not_found")
    then found (str "malwarebazaar") call.now no_data
    else if not (str_eq r.query_status (str "ok"))
    then failed (str "malwarebazaar") call.now r.query_status
    else found (str "malwarebazaar") call.now (first_sample r.samples)

unfoldable pub fetch_malware_bazaar : Call → Bytes → Bytes → Reply MalwareBazaarData
unfolding malware_bazaar_request
fetch_malware_bazaar call api_key hash =
    status_first (str "malwarebazaar") call
      (unmarshal (str "malwarebazaar") call decode_samples (on_samples call))
      (call.web (malware_bazaar_request api_key hash))
