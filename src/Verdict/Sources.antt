-- ===== src/Verdict/Sources.antt =====
-- The handlers collect the sources in the order in which the calls happen to end. No verdict depends
-- on that order.
use mathlib.Core.List.{Perm, Permᴰ, Nodup, Nodup-cons, mem-cons}
use mathlib.Core.List.Perm
use mathlib.Core.Logic.{∥∥₁_elim}
use mathlib.Core.Logic.Or
use ahlyx_labs.Common.{◌≡◌, ◌≢◌, refl, ◌∙◌, Bool, Option, List, Bytes, arith, map, str, str_eq_iff}
use ahlyx_labs.Cache.{SourceMetadata}
use ahlyx_labs.Verdict.{
  source_succeeded, DomainVtData, OtxData, SafeBrowsingData, UrlScanData, UrlVtData, HashVtData,
  MalwareBazaarData, CirclData, domain_verdict, url_verdict, hash_verdict,
}

abbrev pub source_names : List SourceMetadata → List Bytes
source_names = map λ s. s.source

source_succeeded-Permᴰ :
    (name : Bytes) {ss ts : List SourceMetadata}
    → Permᴰ ss ts
    → Nodup (source_names ss)
    → source_succeeded ss name ≡ source_succeeded ts name
unfolding source_succeeded
source_succeeded-Permᴰ name Permᴰ.nil n = refl
source_succeeded-Permᴰ name (Permᴰ.cons {a} {b} {l₁} {l₂} e d) n =
    ground (arith, source_succeeded-Permᴰ name d (Nodup-cons.0 n).1)
source_succeeded-Permᴰ name (Permᴰ.swap {a} {b} {a'} {b'} {l} e f) n =
    ground (arith, differs, str_eq_iff a.source name, str_eq_iff b.source name)
  where
    differs : a.source ≢ b.source
    differs same = (Nodup-cons.0 n).0 (mem-cons.1 (Or.inl same))
source_succeeded-Permᴰ name (Permᴰ.trans d₁ d₂) n =
    source_succeeded-Permᴰ name d₁ n
    ∙ source_succeeded-Permᴰ name d₂ (Perm.nodup (Perm.map (λ s. s.source) ∣ d₁ ∣₁) n)

Bool-set : IsSet Bool
Bool-set = hlevel

pub source_succeeded-Perm :
    (name : Bytes) {ss ts : List SourceMetadata}
    → Perm ss ts
    → Nodup (source_names ss)
    → source_succeeded ss name ≡ source_succeeded ts name
source_succeeded-Perm name {ss} {ts} p n =
    ∥∥₁_elim p (Bool-set (source_succeeded ss name) (source_succeeded ts name))
      (λ d. source_succeeded-Permᴰ name d n)

-- In whatever order the sources, whose names are distinct, were collected, the three verdicts are
-- the same.
pub verdicts-Perm :
    (dvt : Option DomainVtData) (otx : Option OtxData) (sb : Option SafeBrowsingData)
    (urlscan : Option UrlScanData) (uvt : Option UrlVtData) (hvt : Option HashVtData)
    (mb : Option MalwareBazaarData) (circl : Option CirclData) {ss ts : List SourceMetadata}
    → Perm ss ts
    → Nodup (source_names ss)
    → (domain_verdict dvt otx ss ≡ domain_verdict dvt otx ts)
      × (url_verdict sb urlscan uvt ss ≡ url_verdict sb urlscan uvt ts)
      × (hash_verdict hvt mb circl ss ≡ hash_verdict hvt mb circl ts)
unfolding domain_verdict url_verdict hash_verdict
verdicts-Perm dvt otx sb urlscan uvt hvt mb circl {ss} {ts} p n = (
  rw (at (str "virustotal"), at (str "alienvault_otx")),
  rw (at (str "google_safe_browsing"), at (str "urlscan"), at (str "virustotal")),
  rw (at (str "malwarebazaar"), at (str "virustotal")),
)
  where
    at : (name : Bytes) → source_succeeded ss name ≡ source_succeeded ts name
    at name = source_succeeded-Perm name p n
