-- ===== src/Hardware/Totals.antt =====
-- The sums of HandleDisk.
use ahlyx_labs.Common.{ℕ, ◌+◌, ◌%◌, ◌^◌, List, [], ◌∷◌}
use ahlyx_labs.Hardware.{DiskCounters, add64}

abbrev pub sum_of : (DiskCounters → ℕ) → List DiskCounters → ℕ
sum_of f [] = 0
sum_of f (c ∷ cs) = f c + sum_of f cs

-- The totals as sums that wrap once, at the end.
abbrev pub reduced : (read write reads writes : ℕ) → DiskCounters
reduced read write reads writes = record {
  read_bytes = read % 2 ^ 64;
  write_bytes = write % 2 ^ 64;
  read_count = reads % 2 ^ 64;
  write_count = writes % 2 ^ 64;
}

abbrev pub exact : List DiskCounters → DiskCounters
exact cs =
    reduced (sum_of (λ c. c.read_bytes) cs) (sum_of (λ c. c.write_bytes) cs)
      (sum_of (λ c. c.read_count) cs) (sum_of (λ c. c.write_count) cs)

-- A sum that wraps at every step agrees with one that wraps at the end.
abbrev wrapping : (DiskCounters → ℕ) → ℕ → List DiskCounters → ℕ
wrapping f a [] = a
wrapping f a (c ∷ cs) = wrapping f (add64 a (f c)) cs
