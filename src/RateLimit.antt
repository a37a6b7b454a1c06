-- ===== src/RateLimit.antt =====
-- internal/shared/ratelimit.go: a token bucket for each client, dropped after a time of disuse, and
-- one for the whole service. The buckets are golang.org/x/time/rate's, a parameter.
pub mod Eviction
pub mod Buckets
use ahlyx_labs.Common.{
  ℕ, ◌-◌, ◌*◌, ◌≤◌, ◌≡◌, Bool, true, false, not, Option, none, some, List, [], ◌∷◌, Bytes, ltb, leb,
  str_eq, if◌then◌else◌, minute,
}
use ahlyx_labs.Common.Assoc.{Table, lookup, insert, sweep}

abbrev pub limiter_entry_ttl : ℕ
limiter_entry_ttl = 15 * minute

-- A rate.Limiter: rate.NewLimiter with the program's rate and burst, and `Allow` at a time, with
-- the limiter's new state. `refilled` is what the program relies on when it drops an entry: a
-- bucket that was last asked so long ago is full, so it answers as a new one does, and is then in
-- the same state. (The slowest bucket of the program is full again after a minute.)
pub record Limiter (L : Type 0) : Type 0 where
  pub new : L
  pub allow : L → ℕ → L × Bool
  pub refilled :
      (l : L) (t now : ℕ) → limiter_entry_ttl ≤ now - t → allow (allow l t).0 now ≡ allow new now

pub record IpLimiter (L : Type 0) : Type 0 where
  pub limiter : L
  pub last_seen : ℕ

pub record RateLimiter (L : Type 0) : Type 0 where
  pub ips : Table (IpLimiter L)
  pub last_cleanup : ℕ

pub data Answer : Type 0 where
  busy limited served : Answer

module _ {L : Type 0} ⦃rate : Limiter L⦄ where
  -- The sweep in `get`, at most once a minute.
  unfoldable pub expire : RateLimiter L → ℕ → RateLimiter L
  expire rl now =
      if leb minute (now - rl.last_cleanup)
      then record {
        ips = sweep (λ e. not (leb limiter_entry_ttl (now - e.last_seen))) rl.ips;
        last_cleanup = now;
      }
      else rl

  abbrev limiter_of : Option (IpLimiter L) → L
  limiter_of none = rate.new
  limiter_of (some e) = e.limiter

  -- `get`, and the call of `Allow` on the limiter that it returns, whose state stays in the entry.
  unfoldable pub get_allow : RateLimiter L → Bytes → ℕ → RateLimiter L × Bool
  unfolding expire
  get_allow rl ip now =
      let swept = expire rl now in
      let asked = rate.allow (limiter_of (lookup ip swept.ips)) now in
      (
        record swept { ips = insert ip (record { limiter = asked.0; last_seen = now }) swept.ips },
        asked.1,
      )

  -- `Middleware`: the shared limiter is asked first, and its refusal asks nothing of the client's.
  unfoldable pub middleware :
      Option L → RateLimiter L → Bytes → ℕ → Answer × Option L × RateLimiter L
  unfolding get_allow
  middleware none rl ip now =
      let (rl', ok) = get_allow rl ip now in (if ok then served else limited, none, rl')
  middleware (some global) rl ip now =
      let (global', free) = rate.allow global now in
      let (rl', ok) = get_allow rl ip now in
      if not free
      then (busy, some global', rl)
      else (if ok then served else limited, some global', rl')
