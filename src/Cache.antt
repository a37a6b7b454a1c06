-- ===== src/Cache.antt =====
-- internal/shared/cache.go: the response cache. Each method is one critical section of its lock.
pub mod Lifetime
pub mod History
use ahlyx_labs.Common.{
  ℕ, ◌+◌, ◌*◌, Bool, true, false, not, Option, none, some, List, [], ◌∷◌, Bytes, ltb, ◌==◌,
  if◌then◌else◌, hour, minute,
}
use ahlyx_labs.Common.Assoc.{Table, lookup, insert, delete, sweep}

abbrev pub ttl_full : ℕ
ttl_full = hour

abbrev pub ttl_partial : ℕ
ttl_partial = 15 * minute

pub record SourceMetadata : Type 0 where
  pub source : Bytes
  pub success : Bool
  pub error : Option Bytes
  pub retrieved_at : ℕ

-- `payload` is the field `data`.
pub record CacheEntry : Type 0 where
  pub payload : Bytes
  pub expiry : ℕ

abbrev pub Cache : Type 0
Cache = Table CacheEntry

-- The loop of `selectTTL`, with the two flags; the result is the flags after it.
scan_sources : Bool → Bool → List SourceMetadata → Bool × Bool
scan_sources any_failed all_failed [] = (any_failed, all_failed)
scan_sources any_failed all_failed (s ∷ ss) =
    scan_sources (if s.success then any_failed else true) (if s.success then false else all_failed)
      ss

ttl_of_flags : Bool × Bool → ℕ
ttl_of_flags (any_failed, all_failed) =
    if all_failed then 0 else if any_failed then ttl_partial else ttl_full

unfoldable pub select_ttl : List SourceMetadata → ℕ
unfolding scan_sources ttl_of_flags
select_ttl [] = ttl_full
select_ttl (s ∷ ss) = ttl_of_flags (scan_sources false true (s ∷ ss))

abbrev fresh : ℕ → Option CacheEntry → Option Bytes
fresh now none = none
fresh now (some e) = if ltb e.expiry now then none else some e.payload

unfoldable pub get : Cache → Bytes → ℕ → Option Bytes
get c key now = fresh now (lookup key c)

unfoldable pub set : Cache → Bytes → Bytes → List SourceMetadata → ℕ → Cache
set c key payload sources now =
    let ttl = select_ttl sources in
    if ttl == 0 then c else insert key (record { payload = payload; expiry = now + ttl }) c

unfoldable pub remove : Cache → Bytes → Cache
remove c key = delete key c

-- One tick of the cleanup goroutine.
unfoldable pub cleanup : Cache → ℕ → Cache
cleanup c now = sweep (λ e. not (ltb e.expiry now)) c
