-- ===== src/RateLimit/Separate.antt =====
-- Which buckets a request can touch.
use farm_link.Common.{ℕ, ◌≡◌, refl, inl, inr, Bool-cases, String, false, Option, str_eq}
use farm_link.RateLimit.{BucketKey, same_bucket, bucket_key, Buckets, Middleware, dispatch}

-- A request spends from no bucket but its own: not from another client's, and a login or a
-- registration not from what the client has for the rest of the program, nor the other way round.
pub dispatch-other :
    (m : Middleware) (path : String) (client : Option String) (now : ℕ) (buckets : Buckets)
    (k : BucketKey)
    → same_bucket k (bucket_key path client) ≡ false
    → (dispatch m path client now buckets).1 k ≡ buckets k
unfolding dispatch
dispatch-other m path client now buckets k other = elim (Bool-cases (str_eq path "/health")) [
  | inl health ↦ rw health refl
  | inr no_health ↦ rw (no_health, other) refl
]
