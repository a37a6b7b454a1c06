-- ===== src/Services/Otx.antt =====
-- services/otx.go.
use ahlyx_labs.Common.{Option, some, List, [], ◌∷◌, ◌++◌, Bytes, str, ℤ, pos}
use ahlyx_labs.Json.{Json}
use ahlyx_labs.Json.Decode.{decode_struct, decode_slice, decode_over, decode_int, decode_text}
use ahlyx_labs.Services.{Request, Reply, Call, found, field, unmarshal, read_first}

abbrev pub otx_ip_url : Bytes
otx_ip_url = str "https://otx.alienvault.com/api/v1/indicators/IPv4"

abbrev pub otx_domain_url : Bytes
otx_domain_url = str "https://otx.alienvault.com/api/v1/indicators/domain"

-- The struct under `pulse_info`; a pulse is its name.
pub record OtxRaw : Type 0 where
  pub count : ℤ
  pub pulses : List Bytes

abbrev decode_pulse : Json → Option Bytes
decode_pulse =
    decode_struct
      (λ name key j. field (str "name") key (decode_over decode_text name j) (λ v. v) (some name))
      []

abbrev store_pulse_info : OtxRaw → Bytes → Json → Option OtxRaw
store_pulse_info r key j =
    field (str "count") key (decode_over decode_int r.count j) (λ v. record r { count = v })
      (field (str "pulses") key (decode_slice decode_pulse j) (λ v. record r { pulses = v })
        (some r))

abbrev pub decode_otx : Json → Option OtxRaw
decode_otx =
    decode_struct
      (λ r key j.
        field (str "pulse_info") key (decode_struct store_pulse_info r j) (λ v. v) (some r))
      (record { count = pos 0; pulses = [] })

unfoldable pub otx_get : Bytes → Bytes → Request
otx_get api_key url = record {
  method = str "GET";
  url = url;
  headers = (str "X-OTX-API-KEY", api_key) ∷ (str "Accept", str "application/json") ∷ [];
  body = [];
}

unfoldable pub fetch_otx_ip : Call → Bytes → Bytes → Reply OtxRaw
unfolding otx_get
fetch_otx_ip call api_key ip =
    read_first (str "alienvault_otx") call
      (unmarshal (str "alienvault_otx") call decode_otx
        (λ raw. found (str "alienvault_otx") call.now raw))
      (call.web (otx_get api_key (otx_ip_url ++ b'/' ∷ (ip ++ str "/general"))))

unfoldable pub fetch_otx_domain : Call → Bytes → Bytes → Reply OtxRaw
unfolding otx_get
fetch_otx_domain call api_key domain =
    read_first (str "alienvault_otx") call
      (unmarshal (str "alienvault_otx") call decode_otx
        (λ raw. found (str "alienvault_otx") call.now raw))
      (call.web (otx_get api_key (otx_domain_url ++ b'/' ∷ (domain ++ str "/general"))))
