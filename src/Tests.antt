-- ===== src/Tests.antt =====
-- The theorems at concrete inputs that meet their hypotheses.
mod Relay
mod Handlers
mod Shared
mod Scans
mod Service
mod Lookups
mod Answers
mod Routes
mod Disks
