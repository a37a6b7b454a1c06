-- ===== src/Services/Circl.antt =====
-- services/circl.go.
use ahlyx_labs.Common.{
  Bool, true, false, Option, none, some, List, [], ◌∷◌, ◌++◌, Bytes, str, ℤ, pos, leb_ℤ, ◌==◌,
  if◌then◌else◌,
}
use ahlyx_labs.Common.Assoc.{Table, lookup, insert}
use ahlyx_labs.Verdict.{CirclData}
use ahlyx_labs.Json.{Json}
use ahlyx_labs.Json.Decode.{decode_struct, decode_over, decode_int, decode_text}
use ahlyx_labs.Services.{
  Request, Answer, refused, answered, Reply, Call, found, failed, unmarshal, status_first,
}

abbrev circl_url : Bytes
circl_url = str "https://hashlookup.circl.lu/lookup"

unfoldable pub circl_request : Bytes → Bytes → Request
circl_request hash hash_type = record {
  method = str "GET";
  url = circl_url ++ b'/' ∷ (hash_type ++ b'/' ∷ hash);
  headers = (str "User-Agent", str "security-enrichment-api/0.1.0") ∷ [];
  body = [];
}

-- Into a map from strings to raw messages.
abbrev pub decode_raw : Json → Option (Table Json)
decode_raw = decode_struct (λ t key j. some (insert key j t)) []

abbrev not_empty : Option Bytes → Option Bytes
not_empty (some (c ∷ s)) = some (c ∷ s)
not_empty _ = none

abbrev string_at : Option Json → Option Bytes
string_at none = none
string_at (some j) = not_empty (decode_over decode_text [] j)

abbrev get_str : Table Json → List Bytes → Option Bytes
get_str raw [] = none
get_str raw (k ∷ keys) = elim (string_at (lookup k raw)) [
  | some s ↦ some s
  | none ↦ get_str raw keys
]

-- A null leaves the level at 0.
abbrev trust_at : Option Json → Option ℤ
trust_at none = none
trust_at (some j) = decode_over decode_int (pos 0) j

abbrev is_trusted : Option ℤ → Bool
is_trusted none = false
is_trusted (some t) = leb_ℤ (pos 75) t

abbrev pub circl_data : Table Json → CirclData
circl_data raw =
    let trust = trust_at (lookup (str "hashlookup:trust") raw) in
    record {
      found = some true;
      file_name = get_str raw (str "FileName" ∷ str "file_name" ∷ []);
      file_size = get_str raw (str "FileSize" ∷ str "file_size" ∷ []);
      trust_level = trust;
      known_good = some (is_trusted trust);
    }

abbrev pub unknown_hash : CirclData
unknown_hash = record {
  found = some false;
  file_name = none;
  file_size = none;
  trust_level = none;
  known_good = some false;
}

abbrev pub on_answer : Call → Answer → Reply CirclData
on_answer call (refused e) = failed (str "circl_hashlookup") call.now e
on_answer call (answered status content) =
    if status == 404
    then found (str "circl_hashlookup") call.now unknown_hash
    else status_first (str "circl_hashlookup") call
        (unmarshal (str "circl_hashlookup") call decode_raw
          (λ raw. found (str "circl_hashlookup") call.now (circl_data raw)))
        (answered status content)

unfoldable pub fetch_circl : Call → Bytes → Bytes → Reply CirclData
unfolding circl_request
fetch_circl call hash hash_type = on_answer call (call.web (circl_request hash hash_type))
