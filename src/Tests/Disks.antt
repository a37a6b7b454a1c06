-- ===== src/Tests/Disks.antt =====
-- The theorem of the disk endpoint at two devices, whose counters overflow together.
use ahlyx_labs.Common.{ℕ, ◌-◌, ◌^◌, show_decimal}
use mathlib.Core.List.Perm
use ahlyx_labs.Hardware.{Floats, Memory, DiskCounters}

-- A rounded quotient in place of a float64.
abbrev whole : Floats (ℕ × ℕ)
whole = record { quotient = λ a b. (a, b); fixed = λ n d. show_decimal d.0 }

abbrev root : Memory (ℕ × ℕ)
root = record { total = 2 ^ 40; used = 2 ^ 39; free = 2 ^ 39; used_percent = (1, 2) }

abbrev device : ℕ → DiskCounters
device n = record { read_bytes = n; write_bytes = 7; read_count = 3; write_count = 1 }

abbrev large : DiskCounters
large = device (2 ^ 64 - 1)
