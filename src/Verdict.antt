-- ===== src/Verdict.antt =====
-- internal/enrichment/models/verdict.go, with the data types of models.go that it reads. A `*T` is
-- an Option, an int or int64 is an integer, and strings are bytes.
pub mod Space
pub mod Consensus
pub mod Evidence
pub mod Sources
use ahlyx_labs.Common.{
  ℕ, ◌≡◌, Bool, true, false, ◌&&◌, ◌||◌, not, Option, none, some, List, [], ◌∷◌, Bytes, str, str_eq,
  ℤ, pos, add64, ltb_ℤ, ◌==◌, if◌then◌else◌,
}
use ahlyx_labs.Cache.{SourceMetadata}
use ahlyx_labs.Verdict.Space.{is_blank, between}

pub record AbuseData : Type 0 where
  pub abuse_score : Option ℤ
  pub total_reports : Option ℤ
  pub last_reported : Option Bytes
  pub isp : Option Bytes
  pub usage_type : Option Bytes
  pub is_tor : Option Bool

pub record VtIpData : Type 0 where
  pub malicious_votes : Option ℤ
  pub harmless_votes : Option ℤ
  pub suspicious_votes : Option ℤ
  pub undetected_votes : Option ℤ
  pub last_analysis_date : Option ℤ
  pub associated_malware : List Bytes

pub record DomainVtData : Type 0 where
  pub malicious_votes : Option ℤ
  pub harmless_votes : Option ℤ
  pub suspicious_votes : Option ℤ
  pub undetected_votes : Option ℤ
  pub last_analysis_date : Option ℤ
  pub categories : List Bytes

pub record OtxData : Type 0 where
  pub pulse_count : Option ℤ
  pub pulses : List Bytes

pub record SafeBrowsingData : Type 0 where
  pub is_safe : Option Bool
  pub threats : List Bytes

pub record UrlScanData : Type 0 where
  pub verdict : Option Bytes
  pub score : Option ℤ
  pub malicious : Option Bool
  pub categories : List Bytes
  pub screenshot_url : Option Bytes

pub record UrlVtData : Type 0 where
  pub malicious_votes : Option ℤ
  pub harmless_votes : Option ℤ
  pub suspicious_votes : Option ℤ
  pub undetected_votes : Option ℤ
  pub last_analysis_date : Option ℤ

pub record HashVtData : Type 0 where
  pub malicious_votes : Option ℤ
  pub harmless_votes : Option ℤ
  pub suspicious_votes : Option ℤ
  pub undetected_votes : Option ℤ
  pub last_analysis_date : Option ℤ
  pub file_type : Option Bytes
  pub file_size : Option ℤ
  pub meaningful_name : Option Bytes
  pub threat_label : Option Bytes

pub record MalwareBazaarData : Type 0 where
  pub file_name : Option Bytes
  pub file_type : Option Bytes
  pub file_size : Option ℤ
  pub signature : Option Bytes
  pub tags : List Bytes
  pub first_seen : Option Bytes
  pub last_seen : Option Bytes

pub record CirclData : Type 0 where
  pub found : Option Bool
  pub file_name : Option Bytes
  pub file_size : Option Bytes
  pub trust_level : Option ℤ
  pub known_good : Option Bool

-- The tier constants of threat.go.
pub data Tier : Type 0 where
  clean low medium review high critical : Tier

pub record Verdict : Type 0 where
  pub tier : Tier
  pub score : Option ℤ
  pub is_malicious : Bool

unfoldable pub is_malicious_tier : Tier → Bool
is_malicious_tier high = true
is_malicious_tier critical = true
is_malicious_tier _ = false

abbrev pub new_verdict : Tier → Option ℤ → Verdict
new_verdict tier score = record {
  tier = tier;
  score = score;
  is_malicious = is_malicious_tier tier;
}

abbrev pub positive : Option ℤ → Bool
positive none = false
positive (some n) = ltb_ℤ (pos 0) n

unfoldable pub source_succeeded : List SourceMetadata → Bytes → Bool
source_succeeded [] name = false
source_succeeded (s ∷ ss) name =
    let later = source_succeeded ss name in if str_eq s.source name then s.success else later

unfoldable pub has_strong_consensus : (malicious harmless suspicious undetected : Option ℤ) → Bool
has_strong_consensus (some m) (some h) (some s) (some u) = ltb_ℤ (add64 (add64 h s) u) m
has_strong_consensus _ _ _ _ = false

-- `strings.TrimSpace(s) != ""`: the text is not made of white space alone.
unfoldable pub is_filled : Bytes → Bool
is_filled s = not (is_blank between s)

abbrev pub names : Option Bytes → Bool
names none = false
names (some s) = is_filled s

abbrev pub is_yes : Option Bool → Bool
is_yes none = false
is_yes (some b) = b

abbrev pub is_no : Option Bool → Bool
is_no none = false
is_no (some b) = not b

unfoldable pub has_malware_bazaar_evidence : Option MalwareBazaarData → Bool
has_malware_bazaar_evidence none = false
has_malware_bazaar_evidence (some d) = names d.signature || names d.file_name

abbrev strong_vt : Option DomainVtData → Bool
strong_vt none = false
strong_vt (some vt) =
    has_strong_consensus vt.malicious_votes vt.harmless_votes vt.suspicious_votes
      vt.undetected_votes

abbrev malicious_vt : Option DomainVtData → Bool
malicious_vt none = false
malicious_vt (some vt) = positive vt.malicious_votes

abbrev pulsed : Option OtxData → Bool
pulsed none = false
pulsed (some otx) = positive otx.pulse_count

unfoldable pub domain_verdict : Option DomainVtData → Option OtxData → List SourceMetadata → Verdict
domain_verdict vt otx sources =
    let vt_succeeded = source_succeeded sources (str "virustotal") in
    let otx_succeeded = source_succeeded sources (str "alienvault_otx") in
    if vt_succeeded && otx_succeeded && strong_vt vt && pulsed otx
    then new_verdict high none
    else if vt_succeeded && malicious_vt vt
    then new_verdict review none
    else if otx_succeeded && pulsed otx
    then new_verdict review none
    else new_verdict clean none

abbrev pub unsafe : Option SafeBrowsingData → Bool
unsafe none = false
unsafe (some sb) = is_no sb.is_safe

abbrev pub scanned_malicious : Option UrlScanData → Bool
scanned_malicious none = false
scanned_malicious (some u) = is_yes u.malicious

-- The branch of `URLVerdict` for VirusTotal: a verdict, or none to go on.
abbrev pub url_vt : Option UrlVtData → Option Tier
url_vt none = none
url_vt (some vt) =
    if has_strong_consensus vt.malicious_votes vt.harmless_votes vt.suspicious_votes
      vt.undetected_votes
    then some high
    else if positive vt.malicious_votes || positive vt.suspicious_votes
    then some review
    else none

abbrev verdict_or_clean : Option Tier → Verdict
verdict_or_clean none = new_verdict clean none
verdict_or_clean (some tier) = new_verdict tier none

unfoldable pub url_verdict :
    Option SafeBrowsingData → Option UrlScanData → Option UrlVtData → List SourceMetadata → Verdict
url_verdict sb urlscan vt sources =
    if source_succeeded sources (str "google_safe_browsing") && unsafe sb
    then new_verdict high none
    else if source_succeeded sources (str "urlscan") && scanned_malicious urlscan
    then new_verdict high none
    else if source_succeeded sources (str "virustotal")
    then verdict_or_clean (url_vt vt)
    else new_verdict clean none

abbrev pub hash_vt : Option HashVtData → Option Tier
hash_vt none = none
hash_vt (some vt) =
    if names vt.threat_label
    then some high
    else if has_strong_consensus vt.malicious_votes vt.harmless_votes vt.suspicious_votes
        vt.undetected_votes
    then some high
    else if positive vt.malicious_votes || positive vt.suspicious_votes
    then some review
    else none

unfoldable pub hash_verdict :
    Option HashVtData → Option MalwareBazaarData → Option CirclData → List SourceMetadata → Verdict
hash_verdict vt mb circl sources =
    if source_succeeded sources (str "malwarebazaar") && has_malware_bazaar_evidence mb
    then new_verdict high none
    else if source_succeeded sources (str "virustotal")
    then verdict_or_clean (hash_vt vt)
    else new_verdict clean none
