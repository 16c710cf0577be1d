-- ===== src/RateLimit.antt =====
-- app/middleware/rate_limit.py: a token bucket for each client, kept in Redis. A time is a number of
-- ticks, `ticks` to the second. Tokens are counted in parts, so that the refill is a whole number:
-- with `requests` per `window` seconds, a token is `window * ticks` parts and a tick brings
-- `requests` parts. The script is one atomic step.
pub mod Bounds
pub mod Retry
pub mod Separate
pub mod Traffic
use Prim.Native.String.{len, slice}
use farm_link.Common.{
  ℕ, ◌+◌, ◌-◌, ◌*◌, ◌/◌, String, Bool, true, false, Option, none, some, List, [], ◌∷◌, ltb, leb,
  if◌then◌else◌, ◌||◌, str_eq,
}

-- The limits of a bucket: `rate_limit_requests` and `rate_limit_window_seconds`, or those for
-- authentication.
pub record Limits : Type 0 where
  pub requests : ℕ
  pub window : ℕ
  pub ticks : ℕ

unfoldable pub token : Limits → ℕ
token l = l.window * l.ticks

unfoldable pub capacity : Limits → ℕ
unfolding token
capacity l = l.requests * token l

-- The hash under a bucket's key, and when it expires.
pub record Bucket : Type 0 where
  pub tokens : ℕ
  pub timestamp : ℕ
  pub expires_at : ℕ

abbrev pub min : ℕ → ℕ → ℕ
min a b = if leb a b then a else b

-- `HMGET`: a bucket that has expired is gone.
unfoldable pub stored : Option Bucket → ℕ → Option Bucket
stored none now = none
stored (some b) now = if ltb now b.expires_at then some b else none

-- The tokens after the refill.
unfoldable pub refilled : Limits → Option Bucket → ℕ → ℕ
unfolding capacity
refilled l none now = capacity l
refilled l (some b) now = min (capacity l) (b.tokens + (now - b.timestamp) * l.requests)

-- `EXPIRE`: `ceil(capacity / refill_rate) + 1` seconds, that is the window and one second.
abbrev pub saved : Limits → ℕ → ℕ → Bucket
saved l tokens now = record {
  tokens = tokens;
  timestamp = now;
  expires_at = now + (l.window + 1) * l.ticks;
}

-- The script from the refill on.
unfoldable pub take_token : Limits → ℕ → ℕ → Bool × Bucket
unfolding token
take_token l tokens now =
    if leb (token l) tokens
    then (true, saved l (tokens - token l) now)
    else (false, saved l tokens now)

unfoldable pub token_bucket : Limits → Option Bucket → ℕ → Bool × Bucket
unfolding stored refilled take_token
token_bucket l bucket now = take_token l (refilled l (stored bucket now) now) now

-- `max(ceil((1 - tokens_remaining) / refill_rate), 1)`: a second brings `requests * ticks` parts.
unfoldable pub retry_after : Limits → ℕ → ℕ
unfolding token
retry_after l tokens =
    let rate = l.requests * l.ticks in
    let seconds = (token l - tokens + (rate - 1)) / rate in if leb seconds 1 then 1 else seconds

-- `f"ratelimit:auth:{client_ip}"` and `f"ratelimit:{client_ip}"`
pub data BucketKey : Type 0 where
  auth general : (client_ip : String) → BucketKey

unfoldable pub same_bucket : BucketKey → BucketKey → Bool
same_bucket (auth a) (auth b) = str_eq a b
same_bucket (general a) (general b) = str_eq a b
same_bucket _ _ = false

-- `path.endswith(suffix)`
unfoldable pub ends_with : String → String → Bool
ends_with path suffix = str_eq (slice path (len path - len suffix) (len path)) suffix

unfoldable pub is_sensitive : String → Bool
unfolding ends_with
is_sensitive path = ends_with path "/auth/login" || ends_with path "/auth/register"

-- The middleware's settings, and the buckets in Redis.
pub record Middleware : Type 0 where
  pub general_limits : Limits
  pub auth_limits : Limits

abbrev pub Buckets : Type 0
Buckets = BucketKey → Option Bucket

pub data Verdict : Type 0 where
  passed : Verdict
  too_many_requests : (retry_after : ℕ) → Verdict

abbrev client_or_unknown : Option String → String
client_or_unknown none = "unknown"
client_or_unknown (some host) = host

unfoldable pub bucket_key : String → Option String → BucketKey
unfolding is_sensitive
bucket_key path client =
    if is_sensitive path
    then auth (client_or_unknown client)
    else general (client_or_unknown client)

abbrev pub limits_of : Middleware → BucketKey → Limits
limits_of m (auth _) = m.auth_limits
limits_of m (general _) = m.general_limits

abbrev store : BucketKey → Bucket → Buckets → Buckets
store key b buckets k = if same_bucket k key then some b else buckets k

-- `dispatch`, up to the call of the next handler.
unfoldable pub dispatch : Middleware → String → Option String → ℕ → Buckets → Verdict × Buckets
unfolding bucket_key same_bucket
dispatch m path client now buckets =
    if str_eq path "/health"
    then (passed, buckets)
    else (let key = bucket_key path client in
        let limits = limits_of m key in
        let (allowed, after) = token_bucket limits (buckets key) now in
        (
          if allowed then passed else too_many_requests (retry_after limits after.tokens),
          store key after buckets,
        ))
