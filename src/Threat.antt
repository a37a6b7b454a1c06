-- ===== src/Threat.antt =====
-- internal/enrichment/models/threat.go: the composite score of an address. The arithmetic on float64
-- is an interface; of it only what holds exactly of whole numbers is relied on.
pub mod Reports
use ahlyx_labs.Common.{
  ℕ, ◌+◌, ◌<◌, ◌≡◌, Bool, true, false, not, ◌&&◌, Option, none, some, is_some, ltb, if◌then◌else◌,
  ℤ, pos, ltb_ℤ, leb_ℤ, add64,
}
use ahlyx_labs.Verdict.{
  AbuseData, VtIpData, Tier, clean, low, medium, high, critical, Verdict, new_verdict,
}

-- float64: conversion from int, `+`, `*`, `/`, `<`, the constants that are no whole numbers, and the
-- conversion to int, which drops the fraction. Whole numbers below 2^52 are represented exactly, so
-- sums and comparisons of them are exact, and so is a half more than one.
pub record Double (D : Type 0) : Type 0 where
  pub of_int : ℤ → D
  pub plus : D → D → D
  pub times : D → D → D
  pub over : D → D → D
  pub less : D → D → Bool
  pub six_tenths : D
  pub four_tenths : D
  pub half : D
  pub to_int : D → ℤ
  pub plus_exact :
      (a b : ℕ)
      → a + b < 4503599627370496
      → plus (of_int (pos a)) (of_int (pos b)) ≡ of_int (pos (a + b))
  pub less_exact :
      (a b : ℕ)
      → a < 4503599627370496
      → b < 4503599627370496
      → less (of_int (pos a)) (of_int (pos b)) ≡ ltb a b
  pub to_int_half : (a : ℕ) → a < 4503599627370496 → to_int (plus (of_int (pos a)) half) ≡ pos a

-- The sum of the votes that are there.
abbrev add_votes : ℤ → Option ℤ → ℤ
add_votes total none = total
add_votes total (some n) = add64 total n

abbrev total_votes : ℤ → VtIpData → ℤ
total_votes malicious vt =
    add_votes (add_votes (add_votes malicious vt.harmless_votes) vt.suspicious_votes)
      vt.undetected_votes

abbrev abuse_score_of : Option AbuseData → Option ℤ
abuse_score_of none = none
abuse_score_of (some a) = a.abuse_score

abbrev reports_of : Option AbuseData → Option ℤ
reports_of none = none
reports_of (some a) = a.total_reports

unfoldable pub tier_of : ℤ → Tier
tier_of rounded =
    if leb_ℤ (pos 80) rounded
    then critical
    else if leb_ℤ (pos 50) rounded
    then high
    else if leb_ℤ (pos 25) rounded
    then medium
    else if leb_ℤ (pos 10) rounded
    then low
    else clean

module _ (D : Type 0) ⦃double : Double D⦄ where
  abbrev whole : ℕ → D
  whole n = double.of_int (pos n)

  -- vtComponent, if there are votes.
  vt_ratio : ℤ → VtIpData → Option D
  vt_ratio malicious vt =
      let total = total_votes malicious vt in
      if ltb_ℤ (pos 0) total
      then some
          (double.times (double.over (double.of_int malicious) (double.of_int total)) (whole 100))
      else none

  vt_component : Option VtIpData → Option D
  unfolding vt_ratio
  vt_component none = none
  vt_component (some vt) = elim vt.malicious_votes [
    | none ↦ none
    | some malicious ↦ vt_ratio malicious vt
  ]

  -- The first switch, by the components that there are.
  base_score : Option ℤ → Option D → Option D
  base_score (some abuse) (some vt) = some (
      double.plus (double.times double.six_tenths (double.of_int abuse))
        (double.times double.four_tenths vt))
  base_score (some abuse) none = some (double.of_int abuse)
  base_score none (some vt) = some vt
  base_score none none = none

  add_reports : Option ℤ → D → D
  add_reports none score = score
  add_reports (some n) score =
      if leb_ℤ (pos 1000) n
      then double.plus score (whole 15)
      else if leb_ℤ (pos 100) n
      then double.plus score (whole 5)
      else score

  abbrev add_tor : Bool → D → D
  add_tor is_tor score = if is_tor then double.plus score (whole 10) else score

  abbrev cap : D → D
  cap score = if double.less (whole 100) score then whole 100 else score

  abbrev floor : D → D
  floor score = if double.less score (whole 0) then whole 0 else score

  abbrev graded : D → ℤ × Tier
  graded score =
      let rounded = double.to_int (double.plus score double.half) in (rounded, tier_of rounded)

  -- The report count is looked at only where there is an abuse score.
  unfoldable pub score_ip_threat : Option AbuseData → Option VtIpData → Bool → ℤ × Tier
  unfolding base_score vt_component add_reports
  score_ip_threat abuse vt is_tor = elim (base_score (abuse_score_of abuse) (vt_component vt)) [
    | none ↦ (pos 0, clean)
    | some score ↦ graded (
        floor (
          cap (
            add_tor is_tor (
              add_reports (if is_some (abuse_score_of abuse) then reports_of abuse else none)
                score))))
  ]

  unfoldable pub ip_verdict : Option AbuseData → Option VtIpData → Bool → Verdict
  unfolding score_ip_threat
  ip_verdict abuse vt is_tor =
      let (score, tier) = score_ip_threat abuse vt is_tor in new_verdict tier (some score)
