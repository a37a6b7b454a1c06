-- ===== src/Verdict/Consensus.antt =====
-- VirusTotal's consensus, and text that is not blank.
use ahlyx_labs.Common.{ℕ, ◌+◌, ◌<◌, ◌≡◌, ◌↔◌, true, Option, some, arith, ℤ, pos, add64-pos}
use ahlyx_labs.Verdict.{has_strong_consensus}

-- The count of a vote, as the sources report it: not negative, and far from 2^63.
abbrev pub IsCount : Option ℤ → ℕ → Type 0
IsCount v n = (v ≡ some (pos n)) × (n < 2305843009213693952)

-- Of four counts the malicious ones have a strong consensus exactly when they are more than all
-- others together. If a count is missing there is none.
pub has_strong_consensus_iff :
    (vm vh vs vu : Option ℤ) (m h s u : ℕ)
    → IsCount vm m
    → IsCount vh h
    → IsCount vs s
    → IsCount vu u
    → (has_strong_consensus vm vh vs vu ≡ true) ↔ (h + s + u < m)
unfolding has_strong_consensus
has_strong_consensus_iff vm vh vs vu m h s u (em, bm) (eh, bh) (es, bs) (eu, bu) =
    rw (em, eh, es, eu, add64-pos h s (omega arith), add64-pos (h + s) u (omega arith))
      ((λ e. ground arith), (λ e. ground arith))
