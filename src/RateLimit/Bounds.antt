-- ===== src/RateLimit/Bounds.antt =====
-- How many requests a bucket lets through.
use farm_link.Common.{
  ℕ, ◌+◌, ◌-◌, ◌*◌, ◌≡◌, ◌≤◌, refl, inl, inr, Bool-cases, Option, none, some, List, [], ◌∷◌, ltb,
  leb, if◌then◌else◌, arith,
}
use farm_link.RateLimit.{
  Limits, Bucket, token, capacity, min, stored, refilled, saved, take_token, token_bucket,
}

-- The bucket of a client that asks at the times given, and the number of requests let through.
unfoldable pub serve : Limits → Option Bucket → List ℕ → ℕ
unfolding token_bucket
serve l bucket [] = 0
serve l bucket (t ∷ ts) =
    let (allowed, after) = token_bucket l bucket t in
    let rest = serve l (some after) ts in (if allowed then 1 + rest else rest)

-- Times in order, between two others.
abbrev pub Ordered : ℕ → List ℕ → ℕ → Type 0
Ordered start [] end = start ≤ end
Ordered start (t ∷ ts) end = (start ≤ t) × Ordered t ts end

Ordered-le : (start : ℕ) (ts : List ℕ) (end : ℕ) → Ordered start ts end → start ≤ end
Ordered-le start [] end h = h
Ordered-le start (t ∷ ts) end (le, h) = omega (arith, Ordered-le t ts end h)

-- A bucket as the script stores it.
abbrev pub IsSaved : Limits → Bucket → Type 0
IsSaved l b = b.expires_at ≡ b.timestamp + (l.window + 1) * l.ticks

pub mul_le : (a b r : ℕ) → a ≤ b → a * r ≤ b * r
mul_le a b r le = grind arith

full_by_then :
    (l : Limits) (elapsed : ℕ)
    → (l.window + 1) * l.ticks ≤ elapsed
    → capacity l ≤ elapsed * l.requests
unfolding capacity token
full_by_then l elapsed h =
    let enough : l.window * l.ticks ≤ elapsed = grind arith in
    let more = mul_le (l.window * l.ticks) elapsed l.requests enough in grind arith

-- A bucket that has expired would be full, so that nothing is lost with it.
pub stored_lem :
    (l : Limits) (b : Bucket) (now : ℕ)
    → IsSaved l b
    → refilled l (stored (some b) now) now ≡ refilled l (some b) now
unfolding stored refilled
stored_lem l b now saved = elim (Bool-cases (ltb now b.expires_at)) [
  | inl alive ↦ rw alive refl
  | inr gone ↦
      let enough : capacity l ≤ (now - b.timestamp) * l.requests =
        full_by_then l (now - b.timestamp) (ground (arith, saved)) in
      rw gone (ground (arith, enough))
]

split_time : (a b c r : ℕ) → a ≤ b → b ≤ c → (b - a) * r + (c - b) * r ≡ (c - a) * r
split_time a b c r le le' = grind arith

min_le : (a b : ℕ) → min a b ≤ b
min_le a b = ground arith

refilled_le :
    (l : Limits) (b : Bucket) (t : ℕ)
    → refilled l (some b) t ≤ b.tokens + (t - b.timestamp) * l.requests
unfolding refilled
refilled_le l b t = min_le (capacity l) (b.tokens + (t - b.timestamp) * l.requests)

-- One request, with the bound for those after it.
take_bound :
    (l : Limits) (tokens start t end before : ℕ) (rest : Option Bucket → ℕ)
    → start ≤ t
    → t ≤ end
    → tokens ≤ before + (t - start) * l.requests
    → ((left : ℕ) → token l * rest (some (saved l left t)) ≤ left + (end - t) * l.requests)
    → let (allowed, after) = take_token l tokens t in
      token l * (if allowed then 1 + rest (some after) else rest (some after))
      ≤ before + (end - start) * l.requests
unfolding take_token
take_bound l tokens start t end before rest le le' refill later =
    let both = split_time start t end l.requests le le' in
    elim (Bool-cases (leb (token l) tokens)) [
      | inl enough ↦
          let ih = later (tokens - token l) in
          let one : token l * (1 + rest (some (saved l (tokens - token l) t)))
              ≡ token l + token l * rest (some (saved l (tokens - token l) t)) =
            grind arith in
          rw (enough, one) (ground arith)
      | inr short ↦ let ih = later tokens in rw short (ground arith)
    ]

-- From a stored bucket on.
serve-from :
    (l : Limits) (b : Bucket) (ts : List ℕ) (end : ℕ)
    → IsSaved l b
    → Ordered b.timestamp ts end
    → token l * serve l (some b) ts ≤ b.tokens + (end - b.timestamp) * l.requests
unfolding serve token_bucket
serve-from l b [] end saved_at h = grind arith
serve-from l b (t ∷ ts) end saved_at (le, h) =
    let refill : refilled l (some b) t ≤ b.tokens + (t - b.timestamp) * l.requests =
      refilled_le l b t in
    rw (stored_lem l b t saved_at) (
      take_bound l (refilled l (some b) t) b.timestamp t end b.tokens (λ after. serve l after ts) le
        (Ordered-le t ts end h) refill (λ left. serve-from l (saved l left t) ts end refl h))

-- Between two times a client gets no more requests through than the bucket holds and the time refills:
-- in tokens, `requests` and `requests` more for each window.
pub serve-le :
    (l : Limits) (start : ℕ) (ts : List ℕ) (end : ℕ)
    → Ordered start ts end
    → token l * serve l none ts ≤ capacity l + (end - start) * l.requests
unfolding serve token_bucket stored refilled
serve-le l start [] end h = grind arith
serve-le l start (t ∷ ts) end (le, h) =
    let le' = Ordered-le t ts end h in
    let fresh : capacity l ≤ capacity l + (t - start) * l.requests = omega arith in
    take_bound l (capacity l) start t end (capacity l) (λ after. serve l after ts) le le' fresh
      (λ left. serve-from l (saved l left t) ts end refl h)
