-- ===== src/Services/IpInfo.antt =====
-- services/ipinfo.go. A float64 is of a type D, and strconv.ParseFloat is an argument.
use ahlyx_labs.Common.{ℕ, Option, none, some, [], ◌∷◌, ◌++◌, Bytes, str, ◌==◌, if◌then◌else◌}
use ahlyx_labs.Json.{Json}
use ahlyx_labs.Json.Decode.{decode_struct, decode_over, decode_text}
use ahlyx_labs.Services.{Request, Reply, Call, found, field, unmarshal, status_first}

-- models.GeoLocation.
pub record GeoLocation (D : Type 0) : Type 0 where
  pub country : Option Bytes
  pub country_code : Option Bytes
  pub region : Option Bytes
  pub city : Option Bytes
  pub latitude : Option D
  pub longitude : Option D

pub record Location : Type 0 where
  pub country : Bytes
  pub region : Bytes
  pub city : Bytes
  pub loc : Bytes

abbrev store_location : Location → Bytes → Json → Option Location
store_location r key j =
    field (str "country") key (decode_over decode_text r.country j) (λ v. record r { country = v })
      (field (str "region") key (decode_over decode_text r.region j) (λ v. record r { region = v })
        (field (str "city") key (decode_over decode_text r.city j) (λ v. record r { city = v })
          (field (str "loc") key (decode_over decode_text r.loc j) (λ v. record r { loc = v })
            (some r))))

abbrev pub decode_location : Json → Option Location
decode_location =
    decode_struct store_location (record { country = []; region = []; city = []; loc = [] })

abbrev prefix : ℕ → Option (Bytes × Bytes) → Option (Bytes × Bytes)
prefix c none = none
prefix c (some (a, b)) = some (c ∷ a, b)

-- strings.SplitN(s, ",", 2) where it has two parts.
unfoldable pub split_comma : Bytes → Option (Bytes × Bytes)
split_comma [] = none
split_comma (c ∷ s) = let rest = split_comma s in if c == b',' then some ([], s) else prefix c rest

unfoldable pub ptr_str : Bytes → Option Bytes
ptr_str [] = none
ptr_str (c ∷ s) = some (c ∷ s)

unfoldable pub ip_info_request : Bytes → Bytes → Request
ip_info_request api_key ip = record {
  method = str "GET";
  url = str "https://ipinfo.io/" ++ ip ++ str "/json";
  headers =
      (str "Authorization", str "Bearer " ++ api_key) ∷ (str "Accept", str "application/json") ∷ [];
  body = [];
}

module _ (D : Type 0) (parse_float : Bytes → Option D) where
  abbrev position : Option (Bytes × Bytes) → Option D × Option D
  position none = (none, none)
  position (some (a, b)) = (parse_float a, parse_float b)

  abbrev pub geo_location : Location → GeoLocation D
  geo_location r =
      let (lat, lon) = position (split_comma r.loc) in
      record {
        country = ptr_str r.country;
        country_code = ptr_str r.country;
        region = ptr_str r.region;
        city = ptr_str r.city;
        latitude = lat;
        longitude = lon;
      }

  unfoldable pub fetch_ip_info : Call → Bytes → Bytes → Reply (GeoLocation D)
  unfolding ip_info_request split_comma ptr_str
  fetch_ip_info call api_key ip =
      status_first (str "ipinfo") call
        (unmarshal (str "ipinfo") call decode_location
          (λ r. found (str "ipinfo") call.now (geo_location r)))
        (call.web (ip_info_request api_key ip))
