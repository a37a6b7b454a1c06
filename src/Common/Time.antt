-- ===== src/Common/Time.antt =====
-- Instants and durations of package time, as nanoseconds from the zero Time. A difference of
-- instants is compared with positive durations only, so a negative one may stand as 0.

use Prim.Native.Nat.{ℕ}

abbrev pub second : ℕ
second = 1_000_000_000

abbrev pub minute : ℕ
minute = 60_000_000_000

abbrev pub hour : ℕ
hour = 3_600_000_000_000
