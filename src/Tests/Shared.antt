-- ===== src/Tests/Shared.antt =====
-- The theorems of the cache, the rate limiter and the verdicts at concrete inputs.
use mathlib.Core.HLevel.{⊥_prop}
use mathlib.Core.Logic.{∥∥₁_elim, inl, inr}
use mathlib.Core.List.{Nodup, Nodup-cons, mem-cons, not-mem-nil, Pairwise}
use mathlib.Core.List.Perm
use ahlyx_labs.Common.{
  ℕ, ◌*◌, ◌≡◌, ◌↔◌, Bool, true, false, none, some, List, [], ◌∷◌, Bytes, str, arith, second, minute,
  pos,
}
use ahlyx_labs.Cache.{SourceMetadata, get}
use ahlyx_labs.Cache.History as History
use ahlyx_labs.Cache.History.{after, latest, get-after}
use ahlyx_labs.RateLimit.Eviction.{answers, ledger_answers, answers-eq-ledger_answers}
use ahlyx_labs.RateLimit.Buckets.{Bucket, bucket_limiter}
use ahlyx_labs.Verdict.{
  OtxData, UrlVtData, HashVtData, domain_verdict, url_verdict, hash_verdict, Tier,
}
use ahlyx_labs.Verdict.Sources.{source_names, verdicts-Perm}
use ahlyx_labs.Verdict.Evidence.{vetted, verdicts-vetted, HashFinding, hash_verdict-high_iff}

abbrev source : Bytes → Bool → SourceMetadata
source name success = record { source = name; success = success; error = none; retrieved_at = 0 }

abbrev sources : List SourceMetadata
sources = source (str "virustotal") true ∷ source (str "urlscan") false ∷ []

abbrev history : List History.Call
history =
    History.Call.cleans (3 * minute)
    ∷ History.Call.removes (str "ip:1.1.1.1")
    ∷ History.Call.sets (str "ip:8.8.8.8") (str "{}") sources minute
    ∷ []

get-after_example :
    get (after history) (str "ip:8.8.8.8") (5 * minute)
    ≡ latest history (str "ip:8.8.8.8") (5 * minute)
get-after_example = get-after history (str "ip:8.8.8.8") (5 * minute) (omega arith, (tt, (tt, tt)))

abbrev requests : List (Bytes × ℕ)
requests = (str "10.0.0.1", second) ∷ (str "10.0.0.1", second) ∷ (str "10.0.0.2", 30 * minute) ∷ []

answers-eq-ledger_answers_example :
    answers {L = Bucket} (record { ips = []; last_cleanup = 0 }) requests
    ≡ ledger_answers {L = Bucket} (λ j. none) requests
answers-eq-ledger_answers_example =
    answers-eq-ledger_answers Bucket 0 requests (omega arith, (omega arith, (omega arith, tt)))

-- URLScan and MalwareBazaar have something to say, and VirusTotal a small majority.
abbrev url_votes : UrlVtData
url_votes = record {
  malicious_votes = some (pos 5);
  harmless_votes = some (pos 2);
  suspicious_votes = some (pos 1);
  undetected_votes = some (pos 1);
  last_analysis_date = none;
}

abbrev hash_votes : HashVtData
hash_votes = record {
  malicious_votes = some (pos 5);
  harmless_votes = some (pos 2);
  suspicious_votes = some (pos 1);
  undetected_votes = some (pos 1);
  last_analysis_date = none;
  file_type = none;
  file_size = none;
  meaningful_name = none;
  threat_label = some (str " ");
}

abbrev pulses : OtxData
pulses = record { pulse_count = some (pos 2); pulses = [] }

abbrev reordered : List SourceMetadata
reordered = source (str "urlscan") false ∷ source (str "virustotal") true ∷ []

verdicts-Perm_example :
    (domain_verdict none (some pulses) sources ≡ domain_verdict none (some pulses) reordered)
    × (url_verdict none none (some url_votes) sources
        ≡ url_verdict none none (some url_votes) reordered)
    × (hash_verdict (some hash_votes) none none sources
        ≡ hash_verdict (some hash_votes) none none reordered)
verdicts-Perm_example =
    verdicts-Perm none (some pulses) none none (some url_votes) (some hash_votes) none none
      (Perm.swap (source (str "urlscan") false) (source (str "virustotal") true) []) distinct
  where
    distinct : Nodup (source_names sources)
    distinct = Nodup-cons.1 (
      λ m.
          ∥∥₁_elim (mem-cons.0 m) ⊥_prop
            λ c. elim c [ inl e ↦ ground (arith, e) | inr k ↦ not-mem-nil k ],
      Nodup-cons.1 (not-mem-nil, Pairwise.nil),
    )

verdicts-vetted_example :
    (domain_verdict none (some pulses) sources
      ≡ domain_verdict
          (vetted sources (str "virustotal") none)
          (vetted sources (str "alienvault_otx") (some pulses))
          sources)
    × (url_verdict none none (some url_votes) sources
        ≡ url_verdict
            (vetted sources (str "google_safe_browsing") none)
            (vetted sources (str "urlscan") none)
            (vetted sources (str "virustotal") (some url_votes))
            sources)
    × (hash_verdict (some hash_votes) none none sources
        ≡ hash_verdict
            (vetted sources (str "virustotal") (some hash_votes))
            (vetted sources (str "malwarebazaar") none)
            none
            sources)
verdicts-vetted_example =
    verdicts-vetted none (some pulses) none none (some url_votes) (some hash_votes) none none
      sources

hash_verdict-high_iff_example :
    ((hash_verdict (some hash_votes) none none sources).tier ≡ Tier.high)
    ↔ HashFinding (some hash_votes) none sources
hash_verdict-high_iff_example = hash_verdict-high_iff (some hash_votes) none none sources
