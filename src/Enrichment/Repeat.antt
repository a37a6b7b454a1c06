-- ===== src/Enrichment/Repeat.antt =====
-- Asking for the same thing again.
use ahlyx_labs.Config.{Config}
