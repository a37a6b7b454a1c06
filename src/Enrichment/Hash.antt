-- ===== src/Enrichment/Hash.antt =====
-- handlers/hash.go, and HashResponse of models/models.go.
use ahlyx_labs.Common.{
  ℕ, ◌+◌, Bool, false, not, ◌&&◌, Option, none, some, List, [], ◌∷◌, ◌++◌, Bytes, str, map, leb,
  if◌then◌else◌,
}
use ahlyx_labs.Cache.{SourceMetadata}
use ahlyx_labs.Config.{Config}
use ahlyx_labs.Json.{Json, bool, text}
use ahlyx_labs.Json.Render.{render}
use ahlyx_labs.Services.{Call, Reply}
use ahlyx_labs.Services.VirusTotal.{fetch_virus_total_hash}
use ahlyx_labs.Services.MalwareBazaar.{fetch_malware_bazaar}
use ahlyx_labs.Services.Circl.{fetch_circl}
use ahlyx_labs.Validators.{is_valid_hash, detect_hash_type}
use ahlyx_labs.Verdict.{HashVtData, MalwareBazaarData, CirclData, hash_verdict, is_yes}
use ahlyx_labs.Enrichment.{
  Service, Visit, Done, Fresh, BaseResponse, refuse, lookup_cached, opt_json, int_json, texts_json,
  fields, base_json,
}

pub record HashResponse : Type 0 where
  pub base : BaseResponse
  pub hash_value : Option Bytes
  pub hash_type : Option Bytes
  pub virus_total : Option HashVtData
  pub malware_bazaar : Option MalwareBazaarData
  pub circl : Option CirclData
  pub is_malicious : Option Bool
  pub is_known_good : Option Bool

unfoldable pub hash_vt_json : HashVtData → Json
hash_vt_json vt = fields (
    (str "malicious_votes", opt_json int_json vt.malicious_votes)
    ∷ (str "harmless_votes", opt_json int_json vt.harmless_votes)
    ∷ (str "suspicious_votes", opt_json int_json vt.suspicious_votes)
    ∷ (str "undetected_votes", opt_json int_json vt.undetected_votes)
    ∷ (str "last_analysis_date", opt_json int_json vt.last_analysis_date)
    ∷ (str "file_type", opt_json text vt.file_type)
    ∷ (str "file_size", opt_json int_json vt.file_size)
    ∷ (str "meaningful_name", opt_json text vt.meaningful_name)
    ∷ (str "threat_label", opt_json text vt.threat_label)
    ∷ [])

unfoldable pub malware_bazaar_json : MalwareBazaarData → Json
malware_bazaar_json d = fields (
    (str "file_name", opt_json text d.file_name)
    ∷ (str "file_type", opt_json text d.file_type)
    ∷ (str "file_size", opt_json int_json d.file_size)
    ∷ (str "signature", opt_json text d.signature)
    ∷ (str "tags", texts_json d.tags)
    ∷ (str "first_seen", opt_json text d.first_seen)
    ∷ (str "last_seen", opt_json text d.last_seen)
    ∷ [])

unfoldable pub circl_json : CirclData → Json
circl_json d = fields (
    (str "found", opt_json bool d.found)
    ∷ (str "file_name", opt_json text d.file_name)
    ∷ (str "file_size", opt_json text d.file_size)
    ∷ (str "trust_level", opt_json int_json d.trust_level)
    ∷ (str "known_good", opt_json bool d.known_good)
    ∷ [])

unfoldable pub hash_response_json : (ℕ → Bytes) → HashResponse → Json
unfolding base_json hash_vt_json malware_bazaar_json circl_json
hash_response_json nano r = fields (
    base_json nano r.base
    ++ ((str "hash_value", opt_json text r.hash_value)
        ∷ (str "hash_type", opt_json text r.hash_type)
        ∷ (str "virustotal", opt_json hash_vt_json r.virus_total)
        ∷ (str "malware_bazaar", opt_json malware_bazaar_json r.malware_bazaar)
        ∷ (str "circl", opt_json circl_json r.circl)
        ∷ (str "is_malicious", opt_json bool r.is_malicious)
        ∷ (str "is_known_good", opt_json bool r.is_known_good)
        ∷ []))

pub data HashReply : Type 0 where
  vt_reply : Reply HashVtData → HashReply
  mb_reply : Reply MalwareBazaarData → HashReply
  circl_reply : Reply CirclData → HashReply

pub record HashFound : Type 0 where
  pub vt : Option HashVtData
  pub mb : Option MalwareBazaarData
  pub circl : Option CirclData
  pub sources : List SourceMetadata

abbrev pub take_hash : HashFound → HashReply → HashFound
take_hash f (vt_reply (result, meta)) = record f { vt = result; sources = f.sources ++ meta ∷ [] }
take_hash f (mb_reply (result, meta)) = record f { mb = result; sources = f.sources ++ meta ∷ [] }
take_hash f (circl_reply (result, meta)) = record f {
  circl = result;
  sources = f.sources ++ meta ∷ [];
}

unfoldable pub collect_hash : HashFound → List HashReply → HashFound
collect_hash f [] = f
collect_hash f (r ∷ rs) = collect_hash (take_hash f r) rs

abbrev pub no_hash_found : HashFound
no_hash_found = record { vt = none; mb = none; circl = none; sources = [] }

unfoldable pub is_known_good : Option CirclData → Bool
is_known_good none = false
is_known_good (some d) = is_yes d.found && is_yes d.known_good

unfoldable pub hash_response : Visit → Bytes → HashFound → HashResponse
unfolding is_known_good
hash_response v hash f =
    let verdict = hash_verdict f.vt f.mb f.circl f.sources in
    record {
      base = record {
        query = hash;
        query_type = str "hash";
        timestamp = v.rfc3339 v.ended;
        sources = f.sources;
        verdict = verdict;
      };
      hash_value = some hash;
      hash_type = some (detect_hash_type hash);
      virus_total = f.vt;
      malware_bazaar = f.mb;
      circl = f.circl;
      is_malicious = some verdict.is_malicious;
      is_known_good = some (is_known_good f.circl);
    }

unfoldable pub hash_fresh : Visit → Bytes → HashFound → Fresh
unfolding hash_response hash_response_json
hash_fresh v hash f =
    let r = hash_response v hash f in
    record { data_bytes = some (render (hash_response_json v.rfc3339_nano r)); base = r.base }

-- The key of MalwareBazaar is empty.
unfoldable pub hash_replies : Config → (vt mb circl : Call) → Bytes → List HashReply
hash_replies cfg vt mb circl hash =
    vt_reply (fetch_virus_total_hash vt cfg.virus_total_key hash)
    ∷ mb_reply (fetch_malware_bazaar mb [] hash)
    ∷ circl_reply (fetch_circl circl hash (detect_hash_type hash))
    ∷ []

abbrev lower : ℕ → ℕ
lower c = if leb b'A' c && leb c b'Z' then c + 32 else c

-- strings.ToLower on ASCII. No other character has a hex digit as its lower case, so a text that has
-- one is refused either way.
abbrev pub to_lower : Bytes → Bytes
to_lower s = map lower s

-- The handler from the lower case of the parameter on.
unfoldable pub lookup_hash : (Bytes → List HashReply) → Visit → Service → Bytes → Done
unfolding hash_fresh collect_hash
lookup_hash replies v s hash =
    if not (is_valid_hash hash)
    then refuse s false 400 (str "invalid hash: must be hex-encoded MD5, SHA-1, or SHA-256")
    else lookup_cached v s false (str "hash:" ++ hash)
        (hash_fresh v hash (collect_hash no_hash_found (replies hash)))

-- `replies` are those of the sources for the hash, in the order in which they arrive.
unfoldable pub hash_handler : (Bytes → List HashReply) → Visit → Service → Bytes → Done
unfolding lookup_hash
hash_handler replies v s param = lookup_hash replies v s (to_lower param)
