-- ===== src/Threat/Reports.antt =====
-- Where AbuseIPDB alone speaks, the score is a whole number.
use ahlyx_labs.Common.{ℕ, Bool, Option, none, some, leb, if◌then◌else◌, ℤ, pos}

abbrev pub report_bonus : Option ℕ → ℕ
report_bonus none = 0
report_bonus (some n) = if leb 1000 n then 15 else if leb 100 n then 5 else 0

abbrev pub as_count : Option ℕ → Option ℤ
as_count none = none
as_count (some n) = some (pos n)

abbrev pub tor_bonus : Bool → ℕ
tor_bonus is_tor = if is_tor then 10 else 0
