-- ===== src/History/Fresh.antt =====
-- The cache never disagrees with the table, while requests run one after the other.
use farm_link.Common.{
  ◌≡◌, ◌⊎◌, inl, inr, refl, true, false, Option, none, some, List, [], ◌∷◌, ◌++◌, Option-cases,
  Bool-cases, arith, find, find-append_some, sym, subst, ◌==◌, ==_iff,
}
use farm_link.Schema.{Uuid, Time, Pool, PoolStatus, opened, closed, pool_key}
use farm_link.Cache.{
  Cache, CacheKey, listing, single, CacheValue, same_key, cache_get, cache_set, cache_delete,
}
use farm_link.Cache.Laws.{cache_get-delete, cache_get-set, listed}
use farm_link.Session.{State, Result, ok, err, with_session, pool_not_found}
use farm_link.Pools.{invalidated_keys, listed_pools, pool_cache_ttl_seconds, list_pools, get_pool}
use farm_link.Payments.Paystack.{Platform}
use farm_link.History.{Request, step, run}
use farm_link.History.Steps.{step-Shown}
use farm_link.History.Shows.{
  Agrees, Shows, silent, announced, created, filled, Shown, nothing, and_then,
}

-- Whatever the cache answers, at any time, is what the table has.
abbrev pub IsFresh : Cache → List Pool → Type 0
IsFresh cache pools =
    (key : CacheKey) (now : Time) (value : CacheValue)
    → cache_get key now cache ≡ some value
    → Agrees pools key value

-- A key that a deletion leaves was there before.
kept :
    (keys : List CacheKey) (key : CacheKey) (now : Time) (c : Cache) (value : CacheValue)
    → cache_get key now (cache_delete keys c) ≡ some value
    → (listed key keys ≡ false) × (cache_get key now c ≡ some value)
kept keys key now c value hit = elim (Bool-cases (listed key keys)) [
  | inl gone ↦ absurd (ground (arith, cache_get-delete keys key now c))
  | inr stays ↦ (stays, ground (arith, cache_get-delete keys key now c))
]

listing_gone :
    (f : Option PoolStatus) (pool_id : Option Uuid)
    → listed (listing f) (invalidated_keys pool_id) ≡ true
unfolding same_key
listing_gone none none = refl
listing_gone none (some k) = refl
listing_gone (some opened) none = refl
listing_gone (some opened) (some k) = refl
listing_gone (some closed) none = refl
listing_gone (some closed) (some k) = refl

single_gone : (k : Uuid) → listed (single k) (invalidated_keys (some k)) ≡ true
unfolding same_key
single_gone k = let same : (k == k) ≡ true = (==_iff k k).1 refl in ground arith

-- A deletion that takes every listing with it, and a table in which the other rows are as before.
delete-IsFresh :
    (pool_id : Option Uuid) (c : Cache) (pools pools' : List Pool)
    → ((k : Uuid) (row : Pool)
        → find pool_key k pools ≡ some row
        → (pool_id ≡ some k) ⊎ (find pool_key k pools' ≡ some row))
    → IsFresh c pools
    → IsFresh (cache_delete (invalidated_keys pool_id) c) pools'
delete-IsFresh pool_id c pools pools' rows h (listing f) now value hit =
    let (stays, _) = kept (invalidated_keys pool_id) (listing f) now c value hit in
    absurd (ground (arith, stays, listing_gone f pool_id))
delete-IsFresh pool_id c pools pools' rows h (single k) now value hit =
    let (stays, before) = kept (invalidated_keys pool_id) (single k) now c value hit in
    let (row, is_row, there) = h (single k) now value before in
    elim (rows k row there) [
      | inl changed ↦
          let gone =
            subst (λ o. listed (single k) (invalidated_keys o) ≡ true) (sym changed)
              (single_gone k) in
          absurd (ground (arith, stays, gone))
      | inr same ↦ (row, is_row, same)
    ]

set-IsFresh :
    (key : CacheKey) (value : CacheValue) (now : Time) (c : Cache) (pools : List Pool)
    → Agrees pools key value
    → IsFresh c pools
    → IsFresh (cache_set key value pool_cache_ttl_seconds now c) pools
set-IsFresh key value now c pools agrees h j at v hit =
    elim (cache_get-set key value pool_cache_ttl_seconds now c j at v hit) [
      | inl (same, is_value) ↦ rw (same, is_value) agrees
      | inr before ↦ h j at v before
    ]

abbrev Fresh : State → Type 0
Fresh s = IsFresh s.cache s.committed.pools

Shows-Fresh : (s t : State) → Shows s t → Fresh s → Fresh t
Shows-Fresh s t (silent pools (cache, _, _)) h = rw (pools, cache) h
Shows-Fresh s t (announced pool_id rows (cache, _, _, _)) h =
    rw cache (delete-IsFresh (some pool_id) s.cache s.committed.pools t.committed.pools rows h)
Shows-Fresh s t (created pool pools cache _ _) h =
    rw (pools, cache)
      (delete-IsFresh none s.cache s.committed.pools (s.committed.pools ++ pool ∷ [])
        (λ k row there. inr (find-append_some pool_key k s.committed.pools pool row there)) h)
Shows-Fresh s t (filled key value agrees pools cache _ _) h =
    rw (pools, cache) (set-IsFresh key value s.now s.cache s.committed.pools agrees h)

Shown-Fresh : (s t : State) → Shown s t → Fresh s → Fresh t
Shown-Fresh s t nothing h = h
Shown-Fresh s u (and_then {t = t} before last) h = Shows-Fresh t u last (Shown-Fresh s t before h)

run-Fresh : (p : Platform) (rs : List Request) (s : State) → Fresh s → Fresh (run p rs s)
unfolding run
run-Fresh p [] s h = h
run-Fresh p (r ∷ rs) s h = run-Fresh p rs (step p r s) (Shown-Fresh s _ (step-Shown p r s) h)

abbrev pub row_or_missing : Option Pool → Result Pool
row_or_missing none = err pool_not_found
row_or_missing (some pool) = ok pool

Fresh-list :
    (s : State)
    → Fresh s
    → (f : Option PoolStatus)
    → (with_session (list_pools f) s).0 ≡ ok (listed_pools f s.committed.pools)
unfolding with_session list_pools
Fresh-list s h f = elim (Option-cases (cache_get (listing f) s.now s.cache)) [
  | inl miss ↦ rw miss refl
  | inr (value, hit) ↦ rw (hit, h (listing f) s.now value hit) refl
]

Fresh-get :
    (s : State)
    → Fresh s
    → (k : Uuid)
    → (with_session (get_pool k) s).0 ≡ row_or_missing (find pool_key k s.committed.pools)
unfolding with_session get_pool
Fresh-get s h k = elim (Option-cases (cache_get (single k) s.now s.cache)) [
  | inr (value, hit) ↦
      let (pool, is_pool, there) = h (single k) s.now value hit in rw (hit, is_pool, there) refl
  | inl miss ↦ elim (Option-cases (find pool_key k s.committed.pools)) [
    | inl absent ↦ rw (miss, absent) refl
    | inr (pool, there) ↦ rw (miss, there) refl
  ]
]

-- After any history of requests from a cache that agrees with the table, reading pools through the
-- cache answers what reading the table would: `list_pools` the committed rows with that status,
-- newest first, and `get_pool` the committed row or `PoolNotFound`.
pub run-reads_table :
    (p : Platform) (rs : List Request) (s : State)
    → IsFresh s.cache s.committed.pools
    → let t = run p rs s in
      ((f : Option PoolStatus)
        → (with_session (list_pools f) t).0 ≡ ok (listed_pools f t.committed.pools))
      × ((k : Uuid)
          → (with_session (get_pool k) t).0 ≡ row_or_missing (find pool_key k t.committed.pools))
run-reads_table p rs s h =
    let fresh = run-Fresh p rs s h in (Fresh-list (run p rs s) fresh, Fresh-get (run p rs s) fresh)
