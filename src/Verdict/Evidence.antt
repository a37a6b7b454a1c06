-- ===== src/Verdict/Evidence.antt =====
-- What the verdicts of domains, URLs and hashes rest on.
use ahlyx_labs.Common.{
  ◌≡◌, ◌↔◌, ◌⊎◌, refl, inl, inr, true, false, ◌&&◌, Option, none, some, List, Bytes, arith, str,
  if◌then◌else◌, Bool-cases,
}
use ahlyx_labs.Cache.{SourceMetadata}
use ahlyx_labs.Verdict.{
  source_succeeded, DomainVtData, OtxData, SafeBrowsingData, UrlScanData, UrlVtData, HashVtData,
  MalwareBazaarData, CirclData, high, domain_verdict, url_verdict, hash_verdict,
  has_strong_consensus, has_malware_bazaar_evidence, is_filled, names, hash_vt, unsafe,
  scanned_malicious, url_vt,
}

-- Only the data of a source that succeeded.
abbrev pub vetted {ℓ} : {A : Type ℓ} → List SourceMetadata → Bytes → Option A → Option A
vetted sources name d = if source_succeeded sources name then d else none

-- Data that comes with a failed source never counts: a verdict is the one without that data.
pub verdicts-vetted :
    (dvt : Option DomainVtData) (otx : Option OtxData) (sb : Option SafeBrowsingData)
    (urlscan : Option UrlScanData) (uvt : Option UrlVtData) (hvt : Option HashVtData)
    (mb : Option MalwareBazaarData) (circl : Option CirclData) (ss : List SourceMetadata)
    → (domain_verdict dvt otx ss
        ≡ domain_verdict
            (vetted ss (str "virustotal") dvt)
            (vetted ss (str "alienvault_otx") otx)
            ss)
      × (url_verdict sb urlscan uvt ss
          ≡ url_verdict
              (vetted ss (str "google_safe_browsing") sb)
              (vetted ss (str "urlscan") urlscan)
              (vetted ss (str "virustotal") uvt)
              ss)
      × (hash_verdict hvt mb circl ss
          ≡ hash_verdict
              (vetted ss (str "virustotal") hvt)
              (vetted ss (str "malwarebazaar") mb)
              none
              ss)
unfolding domain_verdict url_verdict hash_verdict has_malware_bazaar_evidence
verdicts-vetted dvt otx sb urlscan uvt hvt mb circl ss = (ground arith, ground arith, ground arith)

abbrev pub Succeeded : List SourceMetadata → Bytes → Type 0
Succeeded ss name = source_succeeded ss name ≡ true

-- A text that is there and not blank.
abbrev pub IsNamed : Option Bytes → Type 0
IsNamed o = (s : Bytes) × (o ≡ some s) × (is_filled s ≡ true)

-- The findings that make a hash malicious.
pub data HashFinding (vt : Option HashVtData) (mb : Option MalwareBazaarData)
    (ss : List SourceMetadata) : Type 0 where
  listed :
      (d : MalwareBazaarData)
      → Succeeded ss (str "malwarebazaar")
      → mb ≡ some d
      → IsNamed d.signature ⊎ IsNamed d.file_name
      → HashFinding vt mb ss
  labelled :
      (d : HashVtData)
      → Succeeded ss (str "virustotal")
      → vt ≡ some d
      → IsNamed d.threat_label
      → HashFinding vt mb ss
  outvoted :
      (d : HashVtData)
      → Succeeded ss (str "virustotal")
      → vt ≡ some d
      → has_strong_consensus d.malicious_votes d.harmless_votes d.suspicious_votes
          d.undetected_votes
        ≡ true
      → HashFinding vt mb ss

names_sound : (o : Option Bytes) → names o ≡ true → IsNamed o
names_sound none h = cc
names_sound (some s) h = (s, refl, h)

names_complete : (o : Option Bytes) → IsNamed o → names o ≡ true
names_complete o (s, e, h) = rw e h

bazaar_sound :
    (mb : Option MalwareBazaarData)
    → has_malware_bazaar_evidence mb ≡ true
    → (d : MalwareBazaarData) × (mb ≡ some d) × (IsNamed d.signature ⊎ IsNamed d.file_name)
unfolding has_malware_bazaar_evidence
bazaar_sound none h = cc
bazaar_sound (some d) h = elim (Bool-cases (names d.signature)) [
  | inl signed ↦ (d, refl, inl (names_sound d.signature signed))
  | inr unsigned ↦ (d, refl, inr (names_sound d.file_name (ground arith)))
]

bazaar_complete :
    (mb : Option MalwareBazaarData) (d : MalwareBazaarData)
    → mb ≡ some d
    → IsNamed d.signature ⊎ IsNamed d.file_name
    → has_malware_bazaar_evidence mb ≡ true
unfolding has_malware_bazaar_evidence
bazaar_complete mb d e (inl n) = ground (arith, names_complete d.signature n)
bazaar_complete mb d e (inr n) = ground (arith, names_complete d.file_name n)

vt_sound :
    (vt : Option HashVtData) (mb : Option MalwareBazaarData) (ss : List SourceMetadata)
    → Succeeded ss (str "virustotal")
    → hash_vt vt ≡ some high
    → HashFinding vt mb ss
vt_sound none mb ss h e = cc
vt_sound (some d) mb ss h e = elim (Bool-cases (names d.threat_label)) [
  | inl named ↦ labelled d h refl (names_sound d.threat_label named)
  | inr blank ↦ outvoted d h refl (ground arith)
]

hash_sound :
    (vt : Option HashVtData) (mb : Option MalwareBazaarData) (circl : Option CirclData)
    (ss : List SourceMetadata)
    → (hash_verdict vt mb circl ss).tier ≡ high
    → HashFinding vt mb ss
unfolding hash_verdict
hash_sound vt mb circl ss h =
    elim (Bool-cases
      (source_succeeded ss (str "malwarebazaar") && has_malware_bazaar_evidence mb)) [
        | inl both ↦ let (d, e, n) = bazaar_sound mb (ground arith) in listed d (ground arith) e n
        | inr other ↦ vt_sound vt mb ss (ground arith) (ground arith)
      ]

hash_complete :
    (vt : Option HashVtData) (mb : Option MalwareBazaarData) (circl : Option CirclData)
    (ss : List SourceMetadata)
    → HashFinding vt mb ss
    → (hash_verdict vt mb circl ss).tier ≡ high
unfolding hash_verdict
hash_complete vt mb circl ss (listed d s e n) = ground (arith, bazaar_complete mb d e n)
hash_complete vt mb circl ss (labelled d s e n) = ground (arith, names_complete d.threat_label n)
hash_complete vt mb circl ss (outvoted d s e n) = ground arith

-- A hash is judged high exactly when there is one of the findings: MalwareBazaar, succeeding, knows
-- its signature or a file name that is not blank, or VirusTotal, succeeding, gives it a threat label
-- that is not blank or a strong consensus; whatever CIRCL says, known-good or not.
pub hash_verdict-high_iff :
    (vt : Option HashVtData) (mb : Option MalwareBazaarData) (circl : Option CirclData)
    (ss : List SourceMetadata)
    → ((hash_verdict vt mb circl ss).tier ≡ high) ↔ HashFinding vt mb ss
hash_verdict-high_iff vt mb circl ss = (hash_sound vt mb circl ss, hash_complete vt mb circl ss)

-- The findings that make a URL malicious.
pub data UrlFinding (sb : Option SafeBrowsingData) (urlscan : Option UrlScanData)
    (vt : Option UrlVtData) (ss : List SourceMetadata) : Type 0 where
  unsafe_site :
      (d : SafeBrowsingData)
      → Succeeded ss (str "google_safe_browsing")
      → sb ≡ some d
      → d.is_safe ≡ some false
      → UrlFinding sb urlscan vt ss
  scanned :
      (d : UrlScanData)
      → Succeeded ss (str "urlscan")
      → urlscan ≡ some d
      → d.malicious ≡ some true
      → UrlFinding sb urlscan vt ss
  outvoted :
      (d : UrlVtData)
      → Succeeded ss (str "virustotal")
      → vt ≡ some d
      → has_strong_consensus d.malicious_votes d.harmless_votes d.suspicious_votes
          d.undetected_votes
        ≡ true
      → UrlFinding sb urlscan vt ss

unsafe_sound :
    (sb : Option SafeBrowsingData)
    → unsafe sb ≡ true
    → (d : SafeBrowsingData) × (sb ≡ some d) × (d.is_safe ≡ some false)
unsafe_sound none h = cc
unsafe_sound (some d) h = (d, refl, ground arith)

scanned_sound :
    (u : Option UrlScanData)
    → scanned_malicious u ≡ true
    → (d : UrlScanData) × (u ≡ some d) × (d.malicious ≡ some true)
scanned_sound none h = cc
scanned_sound (some d) h = (d, refl, ground arith)

url_vt_sound :
    (vt : Option UrlVtData)
    → url_vt vt ≡ some high
    → (d : UrlVtData) × (vt ≡ some d)
      × (has_strong_consensus d.malicious_votes d.harmless_votes d.suspicious_votes
            d.undetected_votes
          ≡ true)
url_vt_sound none h = cc
url_vt_sound (some d) h = (d, refl, ground arith)

url_sound :
    (sb : Option SafeBrowsingData) (urlscan : Option UrlScanData) (vt : Option UrlVtData)
    (ss : List SourceMetadata)
    → (url_verdict sb urlscan vt ss).tier ≡ high
    → UrlFinding sb urlscan vt ss
unfolding url_verdict
url_sound sb urlscan vt ss h =
    elim (Bool-cases (source_succeeded ss (str "google_safe_browsing") && unsafe sb)) [
      | inl both ↦
          let (d, e, n) = unsafe_sound sb (ground arith) in unsafe_site d (ground arith) e n
      | inr other ↦
          elim (Bool-cases (source_succeeded ss (str "urlscan") && scanned_malicious urlscan)) [
            | inl both ↦
                let (d, e, n) = scanned_sound urlscan (ground arith) in scanned d (ground arith) e n
            | inr neither ↦
                let (d, e, n) = url_vt_sound vt (ground arith) in outvoted d (ground arith) e n
          ]
    ]

url_complete :
    (sb : Option SafeBrowsingData) (urlscan : Option UrlScanData) (vt : Option UrlVtData)
    (ss : List SourceMetadata)
    → UrlFinding sb urlscan vt ss
    → (url_verdict sb urlscan vt ss).tier ≡ high
unfolding url_verdict
url_complete sb urlscan vt ss (unsafe_site d s e n) = ground arith
url_complete sb urlscan vt ss (scanned d s e n) = ground arith
url_complete sb urlscan vt ss (outvoted d s e n) = ground arith

-- A URL is judged high exactly when Safe Browsing, succeeding, says that it is not safe, URLScan,
-- succeeding, that it is malicious, or VirusTotal, succeeding, has a strong consensus.
pub url_verdict-high_iff :
    (sb : Option SafeBrowsingData) (urlscan : Option UrlScanData) (vt : Option UrlVtData)
    (ss : List SourceMetadata)
    → ((url_verdict sb urlscan vt ss).tier ≡ high) ↔ UrlFinding sb urlscan vt ss
url_verdict-high_iff sb urlscan vt ss = (url_sound sb urlscan vt ss, url_complete sb urlscan vt ss)
