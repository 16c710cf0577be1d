-- ===== src/RateLimit/Traffic.antt =====
-- Requests of many clients, on many paths: each bucket sees its own.
use farm_link.Common.{
  ℕ, ◌+◌, ◌-◌, ◌*◌, ◌≡◌, ◌≤◌, refl, ap, sym, ◌∙◌, subst, inl, inr, Bool-cases, Bool, true, false,
  not, ◌&&◌, String, str_eq, eq_iff, Option, none, some, List, [], ◌∷◌, map, select, if◌then◌else◌,
}
use farm_link.RateLimit.{
  token, capacity, token_bucket, BucketKey, auth, general, same_bucket, bucket_key, Buckets,
  Middleware, limits_of, Verdict, passed, too_many_requests, dispatch,
}
use farm_link.RateLimit.Bounds.{serve, Ordered, serve-le}
use farm_link.RateLimit.Separate.{dispatch-other}

-- A request as the middleware sees it.
pub record Arrival : Type 0 where
  pub path : String
  pub client : Option String
  pub at : ℕ

-- The request is counted by this bucket.
unfoldable pub is_for : BucketKey → Arrival → Bool
is_for key a = not (str_eq a.path "/health") && same_bucket key (bucket_key a.path a.client)

abbrev pub is_passed : Verdict → Bool
is_passed passed = true
is_passed (too_many_requests seconds) = false

-- How many requests for a bucket are let through, among all the others.
unfoldable pub let_through : Middleware → BucketKey → Buckets → List Arrival → ℕ
unfolding is_for
let_through m key buckets [] = 0
let_through m key buckets (a ∷ arrivals) =
    let (verdict, after) = dispatch m a.path a.client a.at buckets in
    let rest = let_through m key after arrivals in
    if is_for key a && is_passed verdict then 1 + rest else rest

-- The times of a bucket's own requests.
abbrev pub times_for : BucketKey → List Arrival → List ℕ
times_for key arrivals = map (λ (a : Arrival). a.at) (select (is_for key) arrivals)

same_bucket-eq : (j k : BucketKey) → same_bucket j k ≡ true → j ≡ k
unfolding same_bucket
same_bucket-eq (auth a) (auth b) h = ap auth ((eq_iff a b).0 h)
same_bucket-eq (general a) (general b) h = ap general ((eq_iff a b).0 h)
same_bucket-eq (auth a) (general b) h = cc
same_bucket-eq (general a) (auth b) h = cc

same_bucket_refl : (k : BucketKey) → same_bucket k k ≡ true
unfolding same_bucket
same_bucket_refl (auth a) = (eq_iff a a).1 refl
same_bucket_refl (general a) = (eq_iff a a).1 refl

dispatch-own :
    (m : Middleware) (a : Arrival) (buckets : Buckets)
    → str_eq a.path "/health" ≡ false
    → let key = bucket_key a.path a.client in
      let (verdict, after) = dispatch m a.path a.client a.at buckets in
      let (allowed, bucket) = token_bucket (limits_of m key) (buckets key) a.at in
      (is_passed verdict ≡ allowed) × (after key ≡ some bucket)
unfolding dispatch
dispatch-own m a buckets no_health =
    let key = bucket_key a.path a.client in
    elim (Bool-cases (token_bucket (limits_of m key) (buckets key) a.at).0) [
      | inl allowed ↦ (rw (no_health, allowed) refl, rw (no_health, same_bucket_refl key) refl)
      | inr refused ↦ (rw (no_health, refused) refl, rw (no_health, same_bucket_refl key) refl)
    ]

abbrev Own : Middleware → Arrival → Buckets → BucketKey → Type 0
Own m a buckets key =
    let (verdict, after) = dispatch m a.path a.client a.at buckets in
    let (allowed, bucket) = token_bucket (limits_of m key) (buckets key) a.at in
    (is_passed verdict ≡ allowed) × (after key ≡ some bucket)

dispatch-health :
    (m : Middleware) (a : Arrival) (buckets : Buckets)
    → str_eq a.path "/health" ≡ true
    → (dispatch m a.path a.client a.at buckets).1 ≡ buckets
unfolding dispatch
dispatch-health m a buckets health = rw health refl

-- Among any other requests, a bucket lets through what it would let through alone.
let_through-serve :
    (m : Middleware) (key : BucketKey) (buckets : Buckets) (arrivals : List Arrival)
    → let_through m key buckets arrivals
      ≡ serve (limits_of m key) (buckets key) (times_for key arrivals)
unfolding let_through serve is_for select
let_through-serve m key buckets [] = refl
let_through-serve m key buckets (a ∷ arrivals) = elim (Bool-cases (str_eq a.path "/health")) [
  | inl health ↦ rw health (
      let_through-serve m key (dispatch m a.path a.client a.at buckets).1 arrivals
      ∙ ap (λ bs. serve (limits_of m key) (bs key) (times_for key arrivals))
          (dispatch-health m a buckets health))
  | inr no_health ↦ elim (Bool-cases (same_bucket key (bucket_key a.path a.client))) [
    | inr other ↦
        rw (no_health, other)
          (let_through-serve m key (dispatch m a.path a.client a.at buckets).1 arrivals
            ∙ ap (λ b. serve (limits_of m key) b (times_for key arrivals))
                (dispatch-other m a.path a.client a.at buckets key other))
    | inl own ↦
        let (verdict, kept) =
          subst (Own m a buckets) (sym (same_bucket-eq key (bucket_key a.path a.client) own))
            (dispatch-own m a buckets no_health) in
        let rest = let_through-serve m key (dispatch m a.path a.client a.at buckets).1 arrivals in
        rw (no_health, own, verdict, rest, kept) refl
  ]
]

-- While requests of any clients on any paths come in the order of their times, a client gets no more
-- of its logins and registrations through than its own bucket for them holds, plus what refills
-- between two times about them; and so for the rest of its requests and their bucket.
pub let_through-le :
    (m : Middleware) (key : BucketKey) (buckets : Buckets) (arrivals : List Arrival) (start end : ℕ)
    → buckets key ≡ none
    → Ordered start (times_for key arrivals) end
    → let l = limits_of m key in
      token l * let_through m key buckets arrivals ≤ capacity l + (end - start) * l.requests
let_through-le m key buckets arrivals start end fresh ordered =
    let alone = let_through-serve m key buckets arrivals in
    let same = ap (λ b. serve (limits_of m key) b (times_for key arrivals)) fresh in
    rw (alone, same) (serve-le (limits_of m key) start (times_for key arrivals) end ordered)
