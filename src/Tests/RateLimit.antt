-- ===== src/Tests/RateLimit.antt =====
-- The token bucket at concrete inputs: two requests in ten seconds, in ticks of a tenth of a second.
use farm_link.Common.{select, List, ◌+◌, ◌-◌, ◌*◌, ◌≡◌, ◌≤◌, refl, true, none, some, [], ◌∷◌, arith}
use farm_link.RateLimit.{
  auth, bucket_key, dispatch, same_bucket, is_sensitive, ends_with, Limits, token, capacity, Bucket,
  stored, refilled, take_token, token_bucket, retry_after, Middleware,
}
use farm_link.RateLimit.Bounds.{serve}
use farm_link.RateLimit.Traffic.{Arrival, is_for, let_through, let_through-le}
use farm_link.RateLimit.Retry.{retry_after-allowed}

abbrev two_in_ten : Limits
two_in_ten = record { requests = 2; window = 10; ticks = 10 }

serve_test : serve two_in_ten none (5 ∷ 6 ∷ 7 ∷ 60 ∷ []) ≡ 3
unfolding serve token_bucket stored refilled take_token capacity token
serve_test = refl

-- A bucket with half a token: the next request has to wait three seconds.
abbrev half : Bucket
half = record { tokens = 50; timestamp = 100; expires_at = 210 }

retry_after-allowed_example :
    (1 ≤ retry_after two_in_ten 50)
    × ((token_bucket two_in_ten (some (token_bucket two_in_ten (some half) 100).1) 130).0 ≡ true)
unfolding token_bucket stored refilled take_token capacity token retry_after
retry_after-allowed_example =
    retry_after-allowed two_in_ten (some half) 100 130 (omega arith) (omega arith) refl
      (omega arith)

abbrev pub limits : Middleware
limits = record { general_limits = two_in_ten; auth_limits = record two_in_ten { requests = 1 } }

-- Two logins of one client, with a listing and another client's login between them.
abbrev traffic : List Arrival
traffic =
    record { path = "/api/v1/auth/login"; client = some "10.0.0.1"; at = 5 }
    ∷ record { path = "/api/v1/pools"; client = some "10.0.0.1"; at = 6 }
    ∷ record { path = "/api/v1/auth/login"; client = some "10.0.0.2"; at = 6 }
    ∷ record { path = "/api/v1/auth/login"; client = some "10.0.0.1"; at = 7 }
    ∷ []

let_through-le_example :
    token limits.auth_limits * let_through limits (auth "10.0.0.1") (λ key. none) traffic
    ≤ capacity limits.auth_limits + (7 - 5) * 1
unfolding is_for bucket_key same_bucket is_sensitive ends_with select
let_through-le_example =
    let_through-le limits (auth "10.0.0.1") (λ key. none) traffic 5 7 refl
      (omega arith, (omega arith, omega arith))

let_through_test : let_through limits (auth "10.0.0.1") (λ key. none) traffic ≡ 1
unfolding let_through dispatch is_for bucket_key same_bucket is_sensitive ends_with select
    token_bucket stored refilled take_token capacity token
let_through_test = refl
