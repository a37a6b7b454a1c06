-- ===== src/RateLimit/Buckets.antt =====
-- A token bucket that meets the assumptions on rate.Limiter, with the program's numbers for the IP,
-- domain and hash routes: one token in two seconds, at most 30.
use ahlyx_labs.Common.{
  ℕ, ◌+◌, ◌-◌, ◌*◌, ◌≤◌, ◌≡◌, Bool, true, false, arith, ltb, if◌then◌else◌, second, min,
}
use ahlyx_labs.RateLimit.{Limiter, limiter_entry_ttl}

-- Tokens are counted in nanoseconds of their refilling.
pub record Bucket : Type 0 where
  pub tokens : ℕ
  pub last : ℕ

abbrev pub token : ℕ
token = 2 * second

abbrev pub full : ℕ
full = 30 * token

filled : Bucket → ℕ → ℕ
filled b now = min full (b.tokens + (now - b.last))

unfoldable pub take_token : Bucket → ℕ → Bucket × Bool
unfolding filled
take_token b now =
    if ltb (filled b now) token
    then (record { tokens = filled b now; last = now }, false)
    else (record { tokens = filled b now - token; last = now }, true)

abbrev pub new_bucket : Bucket
new_bucket = record { tokens = full; last = 0 }

pub take_token-refilled :
    (b : Bucket) (t now : ℕ)
    → limiter_entry_ttl ≤ now - t
    → take_token (take_token b t).0 now ≡ take_token new_bucket now
unfolding take_token
take_token-refilled b t now h = ground arith

instance abbrev pub bucket_limiter : Limiter Bucket
bucket_limiter = record { new = new_bucket; allow = take_token; refilled = take_token-refilled }
