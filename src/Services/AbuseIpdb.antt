-- ===== src/Services/AbuseIpdb.antt =====
-- services/abuseipdb.go. The client's error is never http.ErrHandlerTimeout, which handlers return.
use ahlyx_labs.Common.{Bool, false, Option, none, some, [], ◌∷◌, ◌++◌, Bytes, str, ℤ, pos}
use ahlyx_labs.Verdict.{AbuseData}
use ahlyx_labs.Json.{Json}
use ahlyx_labs.Json.Decode.{
  decode_struct, decode_pointer, decode_over, decode_int, decode_text, decode_bool,
}
use ahlyx_labs.Services.{Request, Reply, Call, found, field, unmarshal, status_first}
use ahlyx_labs.Services.Query.{query_escape}

abbrev abuse_ipdb_url : Bytes
abuse_ipdb_url = str "https://api.abuseipdb.com/api/v2/check"

-- The struct under `data`.
pub record Report : Type 0 where
  pub abuse_confidence_score : ℤ
  pub total_reports : ℤ
  pub last_reported_at : Option Bytes
  pub isp : Option Bytes
  pub usage_type : Option Bytes
  pub is_tor : Bool

abbrev no_report : Report
no_report = record {
  abuse_confidence_score = pos 0;
  total_reports = pos 0;
  last_reported_at = none;
  isp = none;
  usage_type = none;
  is_tor = false;
}

abbrev store_report : Report → Bytes → Json → Option Report
store_report r key j =
    let s = decode_pointer decode_text j in
    field (str "abuseConfidenceScore") key (decode_over decode_int r.abuse_confidence_score j)
      (λ v. record r { abuse_confidence_score = v })
      (field (str "totalReports") key (decode_over decode_int r.total_reports j)
        (λ v. record r { total_reports = v })
        (field (str "lastReportedAt") key s (λ v. record r { last_reported_at = v })
          (field (str "isp") key s (λ v. record r { isp = v })
            (field (str "usageType") key s (λ v. record r { usage_type = v })
              (field (str "isTor") key (decode_over decode_bool r.is_tor j)
                (λ v. record r { is_tor = v }) (some r))))))

abbrev pub decode_report : Json → Option Report
decode_report =
    decode_struct
      (λ r key j. field (str "data") key (decode_struct store_report r j) (λ v. v) (some r))
      no_report

abbrev pub abuse_data : Report → AbuseData
abuse_data r = record {
  abuse_score = some r.abuse_confidence_score;
  total_reports = some r.total_reports;
  last_reported = r.last_reported_at;
  isp = r.isp;
  usage_type = r.usage_type;
  is_tor = some r.is_tor;
}

-- The query's keys are in order.
unfoldable pub abuse_ipdb_request : Bytes → Bytes → Request
abuse_ipdb_request api_key ip = record {
  method = str "GET";
  url = abuse_ipdb_url ++ str "?ipAddress=" ++ query_escape ip ++ str "&maxAgeInDays=90";
  headers = (str "Key", api_key) ∷ (str "Accept", str "application/json") ∷ [];
  body = [];
}

unfoldable pub fetch_abuse_ipdb : Call → Bytes → Bytes → Reply AbuseData
unfolding abuse_ipdb_request
fetch_abuse_ipdb call api_key ip =
    status_first (str "abuseipdb") call
      (unmarshal (str "abuseipdb") call decode_report
        (λ r. found (str "abuseipdb") call.now (abuse_data r)))
      (call.web (abuse_ipdb_request api_key ip))
