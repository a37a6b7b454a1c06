-- ===== src/Scanner.antt =====
-- The TCP scanner, internal/scanner: its ranges (Scope), its pool of workers (Pool), what it answers
-- (Scan) and its two endpoints (Handler).
pub mod Ports
pub mod Scope
pub mod Pool
pub mod Scan
pub mod Handler
