-- ===== src/RateLimit/Retry.antt =====
-- What the answer to a request over the limit promises.
use farm_link.Common.{
  ℕ, ◌+◌, ◌-◌, ◌*◌, ◌/◌, ◌≡◌, ◌≤◌, ◌<◌, refl, subst, inl, inr, Bool-cases, true, false, Option,
  some, leb, arith,
}
use farm_link.RateLimit.{
  Limits, Bucket, token, capacity, saved, stored, refilled, take_token, token_bucket, retry_after,
}
use farm_link.RateLimit.Bounds.{stored_lem, mul_le}

ceil_lem : (a r : ℕ) → 0 < r → a ≤ ((a + (r - 1)) / r) * r
ceil_lem a r h = grind arith

retry_after_lem :
    (l : Limits) (tokens : ℕ)
    → 0 < l.requests * l.ticks
    → token l ≤ tokens + retry_after l tokens * (l.requests * l.ticks)
unfolding retry_after
retry_after_lem l tokens h =
    let enough = ceil_lem (token l - tokens) (l.requests * l.ticks) h in
    elim (Bool-cases
      (leb ((token l - tokens + (l.requests * l.ticks - 1)) / (l.requests * l.ticks)) 1)) [
        | inl short ↦ grind arith
        | inr long ↦ grind arith
      ]

refused_lem :
    (l : Limits) (tokens now : ℕ)
    → (take_token l tokens now).0 ≡ false
    → (take_token l tokens now).1 ≡ saved l tokens now
unfolding take_token
refused_lem l tokens now refused = elim (Bool-cases (leb (token l) tokens)) [
  | inl enough ↦ ground arith
  | inr short ↦ rw short refl
]

capacity-token : (l : Limits) → 0 < l.requests → token l ≤ capacity l
unfolding capacity
capacity-token l h = grind arith

waited_lem :
    (l : Limits) (seconds elapsed : ℕ)
    → seconds * l.ticks ≤ elapsed
    → seconds * (l.requests * l.ticks) ≤ elapsed * l.requests
waited_lem l seconds elapsed h =
    let more = mul_le (seconds * l.ticks) elapsed l.requests h in grind arith

-- A bucket with too few tokens, once the refusal's seconds have passed.
waited_refilled :
    (l : Limits) (tokens now later : ℕ)
    → 0 < l.requests
    → 0 < l.ticks
    → now + retry_after l tokens * l.ticks ≤ later
    → token l ≤ refilled l (some (saved l tokens now)) later
unfolding refilled
waited_refilled l tokens now later some_rate some_ticks waited =
    let rate : 0 < l.requests * l.ticks = grind arith in
    let need = retry_after_lem l tokens rate in
    let got = waited_lem l (retry_after l tokens) (later - now) (omega arith) in
    let room = capacity-token l some_rate in ground arith

taken_lem : (l : Limits) (tokens now : ℕ) → token l ≤ tokens → (take_token l tokens now).0 ≡ true
unfolding take_token
taken_lem l tokens now h = ground arith

retry_after_pos : (l : Limits) (tokens : ℕ) → 1 ≤ retry_after l tokens
unfolding retry_after
retry_after_pos l tokens = ground arith

-- A client that is refused and asks nothing for the seconds that Retry-After names, which are at
-- least one, gets its next request through.
pub retry_after-allowed :
    (l : Limits) (bucket : Option Bucket) (now later : ℕ)
    → 0 < l.requests
    → 0 < l.ticks
    → (token_bucket l bucket now).0 ≡ false
    → now + retry_after l (token_bucket l bucket now).1.tokens * l.ticks ≤ later
    → (1 ≤ retry_after l (token_bucket l bucket now).1.tokens)
      × ((token_bucket l (some (token_bucket l bucket now).1) later).0 ≡ true)
unfolding token_bucket
retry_after-allowed l bucket now later some_rate some_ticks refused waited =
    let tokens = refilled l (stored bucket now) now in
    let after : (token_bucket l bucket now).1 ≡ saved l tokens now =
      refused_lem l tokens now refused in
    (
      retry_after_pos l _,
      rw (after, stored_lem l (saved l tokens now) later refl)
          (taken_lem l _ later (
            waited_refilled l tokens now later some_rate some_ticks
              (subst (λ b. now + retry_after l b.tokens * l.ticks ≤ later) after waited))),
    )
