-- ===== src/Cache/Lifetime.antt =====
-- How long a response is kept.
use ahlyx_labs.Common.{
  ◌≡◌, refl, Bool, true, false, ◌&&◌, ◌||◌, not, List, [], ◌∷◌, arith, all, any, if◌then◌else◌,
}
use ahlyx_labs.Cache.{SourceMetadata, scan_sources, select_ttl, ttl_full, ttl_partial}

abbrev pub succeeded : SourceMetadata → Bool
succeeded s = s.success

scan_sources_lem :
    (f a : Bool) (ss : List SourceMetadata)
    → scan_sources f a ss ≡ (f || not (all succeeded ss), a && not (any succeeded ss))
unfolding scan_sources
scan_sources_lem f a [] = ground arith
scan_sources_lem f a (s ∷ ss) =
    ground
      (arith, scan_sources_lem (if s.success then f else true) (if s.success then false else a) ss)

-- A response lives an hour if all its sources succeeded (with no source at all too), fifteen
-- minutes if some did, and is not kept if there are sources and none did.
pub select_ttl_lem :
    (ss : List SourceMetadata)
    → select_ttl ss
      ≡ (if all succeeded ss then ttl_full else if any succeeded ss then ttl_partial else 0)
unfolding select_ttl
select_ttl_lem [] = refl
select_ttl_lem (s ∷ ss) = ground (arith, scan_sources_lem false true (s ∷ ss))
