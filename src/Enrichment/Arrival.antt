-- ===== src/Enrichment/Arrival.antt =====
-- The order in which the sources answer.
use ahlyx_labs.Common.{
  ◌≡◌, refl, Bool, true, false, Option, none, some, is_some, List, [], ◌∷◌, Bytes, str, str_eq,
  arith, if◌then◌else◌, ◌∙◌, ap, sym, subst,
}
use ahlyx_labs.Cache.{SourceMetadata}
use ahlyx_labs.Config.{Config}
use ahlyx_labs.Validators.{detect_hash_type}
use ahlyx_labs.Services.{Reply, Call}
use ahlyx_labs.Services.VirusTotal.{fetch_virus_total_hash}
use ahlyx_labs.Services.MalwareBazaar.{fetch_malware_bazaar}
use ahlyx_labs.Services.Circl.{fetch_circl}
use ahlyx_labs.Services.Honest.{
  Honest, Honest-source, Honest-success, vt_hash-Honest, malware_bazaar-Honest, circl-Honest,
}
use ahlyx_labs.Verdict.{
  HashVtData, MalwareBazaarData, CirclData, Tier, clean, high, Verdict, hash_verdict, hash_vt,
  has_malware_bazaar_evidence, source_succeeded, new_verdict,
}
use ahlyx_labs.Enrichment.{Visit}
use ahlyx_labs.Enrichment.Hash.{
  HashReply, vt_reply, mb_reply, circl_reply, collect_hash, no_hash_found, hash_response,
}

-- The orders of three replies, by the places of the first, the second and the third.
pub data Order : Type 0 where
  abc acb bac bca cab cba : Order

abbrev pub arranged {ℓ} : {A : Type ℓ} → Order → A → A → A → List A
arranged abc a b c = a ∷ b ∷ c ∷ []
arranged acb a b c = a ∷ c ∷ b ∷ []
arranged bac a b c = b ∷ a ∷ c ∷ []
arranged bca a b c = b ∷ c ∷ a ∷ []
arranged cab a b c = c ∷ a ∷ b ∷ []
arranged cba a b c = c ∷ b ∷ a ∷ []

-- A source's success is found wherever its metadata stand.
arranged-first :
    (o : Order) (a b c : SourceMetadata) (name : Bytes)
    → str_eq a.source name ≡ true
    → str_eq b.source name ≡ false
    → str_eq c.source name ≡ false
    → source_succeeded (arranged o a b c) name ≡ a.success
unfolding source_succeeded
arranged-first abc a b c name ha hb hc = ground arith
arranged-first acb a b c name ha hb hc = ground arith
arranged-first bac a b c name ha hb hc = ground arith
arranged-first bca a b c name ha hb hc = ground arith
arranged-first cab a b c name ha hb hc = ground arith
arranged-first cba a b c name ha hb hc = ground arith

arranged-second :
    (o : Order) (a b c : SourceMetadata) (name : Bytes)
    → str_eq a.source name ≡ false
    → str_eq b.source name ≡ true
    → str_eq c.source name ≡ false
    → source_succeeded (arranged o a b c) name ≡ b.success
unfolding source_succeeded
arranged-second abc a b c name ha hb hc = ground arith
arranged-second acb a b c name ha hb hc = ground arith
arranged-second bac a b c name ha hb hc = ground arith
arranged-second bca a b c name ha hb hc = ground arith
arranged-second cab a b c name ha hb hc = ground arith
arranged-second cba a b c name ha hb hc = ground arith

collect_hash-arranged :
    (o : Order) (vt : Reply HashVtData) (mb : Reply MalwareBazaarData) (circl : Reply CirclData)
    → collect_hash no_hash_found (arranged o (vt_reply vt) (mb_reply mb) (circl_reply circl))
      ≡ record {
        vt = vt.0;
        mb = mb.0;
        circl = circl.0;
        sources = arranged o (vt.1) (mb.1) (circl.1);
      }
unfolding collect_hash
collect_hash-arranged abc vt mb circl = refl
collect_hash-arranged acb vt mb circl = refl
collect_hash-arranged bac vt mb circl = refl
collect_hash-arranged bca vt mb circl = refl
collect_hash-arranged cab vt mb circl = refl
collect_hash-arranged cba vt mb circl = refl

-- What the data of the sources say of a hash: evidence of MalwareBazaar first, then VirusTotal's.
abbrev tier_or_clean : Option Tier → Tier
tier_or_clean none = clean
tier_or_clean (some t) = t

abbrev pub evidence_tier : Option HashVtData → Option MalwareBazaarData → Tier
evidence_tier vt mb = if has_malware_bazaar_evidence mb then high else tier_or_clean (hash_vt vt)

evidence_tier_lem :
    (vt : Option HashVtData) (mb : Option MalwareBazaarData) (circl : Option CirclData)
    (sources : List SourceMetadata)
    → source_succeeded sources (str "virustotal") ≡ is_some vt
    → source_succeeded sources (str "malwarebazaar") ≡ is_some mb
    → hash_verdict vt mb circl sources ≡ new_verdict (evidence_tier vt mb) none
unfolding hash_verdict has_malware_bazaar_evidence
evidence_tier_lem none none circl sources hvt hmb = ground arith
evidence_tier_lem none (some d) circl sources hvt hmb = ground arith
evidence_tier_lem (some vt) none circl sources hvt hmb = ground arith
evidence_tier_lem (some vt) (some d) circl sources hvt hmb = ground arith

-- The verdict in the response to these replies, in this order.
abbrev pub verdict_of : Visit → Bytes → List HashReply → Verdict
verdict_of v hash replies = (hash_response v hash (collect_hash no_hash_found replies)).base.verdict

named :
    {A : Type 0} {s : Bytes} {r : Reply A}
    → Honest s r
    → (name : Bytes) (b : Bool) → str_eq s name ≡ b
    → str_eq (r.1).source name ≡ b
named h name b e = subst (λ s. str_eq s name ≡ b) (sym (Honest-source h)) e

hash_response-verdict :
    (o : Order) (vt : Reply HashVtData) (mb : Reply MalwareBazaarData) (circl : Reply CirclData)
    → Honest (str "virustotal") vt
    → Honest (str "malwarebazaar") mb
    → Honest (str "circl_hashlookup") circl
    → (v : Visit) (hash : Bytes)
    → verdict_of v hash (arranged o (vt_reply vt) (mb_reply mb) (circl_reply circl))
      ≡ new_verdict (evidence_tier (vt.0) (mb.0)) none
unfolding hash_response str_eq
hash_response-verdict o vt mb circl hvt hmb hc v hash =
    ap (λ f. (hash_response v hash f).base.verdict) (collect_hash-arranged o vt mb circl)
    ∙ evidence_tier_lem (vt.0) (mb.0) (circl.0) (arranged o (vt.1) (mb.1) (circl.1))
        (arranged-first o (vt.1) (mb.1) (circl.1) (str "virustotal")
            (named hvt (str "virustotal") true refl) (named hmb (str "virustotal") false refl)
            (named hc (str "virustotal") false refl)
          ∙ Honest-success hvt)
        (arranged-second o (vt.1) (mb.1) (circl.1) (str "malwarebazaar")
            (named hvt (str "malwarebazaar") false refl) (named hmb (str "malwarebazaar") true refl)
            (named hc (str "malwarebazaar") false refl)
          ∙ Honest-success hmb)

-- The verdict on a hash is the same in whatever order VirusTotal, MalwareBazaar and CIRCL answer: it
-- is HIGH where MalwareBazaar's data name a signature or a file, and else what VirusTotal's data say,
-- CLEAN if it failed. CIRCL has no part in it.
pub hash_handler-verdict :
    (o : Order) (cfg : Config) (vt mb circl : Call) (v : Visit) (hash : Bytes)
    → verdict_of v hash (
        arranged o
          (vt_reply (fetch_virus_total_hash vt cfg.virus_total_key hash))
          (mb_reply (fetch_malware_bazaar mb [] hash))
          (circl_reply (fetch_circl circl hash (detect_hash_type hash))))
      ≡ new_verdict
          (evidence_tier
            ((fetch_virus_total_hash vt cfg.virus_total_key hash).0)
            ((fetch_malware_bazaar mb [] hash).0))
          none
hash_handler-verdict o cfg vt mb circl v hash =
    hash_response-verdict o (fetch_virus_total_hash vt cfg.virus_total_key hash)
      (fetch_malware_bazaar mb [] hash) (fetch_circl circl hash (detect_hash_type hash))
      (vt_hash-Honest vt cfg.virus_total_key hash) (malware_bazaar-Honest mb [] hash)
      (circl-Honest circl hash (detect_hash_type hash)) v hash
