-- ===== src/History/Shows.antt =====
-- What each step of a history shows outside the database: one of four things, or some of them one
-- after another.
use farm_link.Common.{
  ◌≡◌, ◌⊎◌, inl, inr, refl, Option, none, some, List, [], ◌∷◌, ◌++◌, Option-cases, arith, find,
  find_key, ap, ◌∙◌,
}
use farm_link.Schema.{Uuid, Time, Pool, Order, PoolStatus, pool_key, order_key}
use farm_link.Cache.{
  CacheKey, listing, single, CacheValue, many, one, cache_get, cache_set, cache_delete,
}
use farm_link.Session.{State, with_session}
use farm_link.Pools.{invalidated_keys, listed_pools, pool_cache_ttl_seconds, list_pools, get_pool}
use farm_link.Orders.{OrderRequest, find_retried, place_order, create_order}
use farm_link.Orders.Sweep.{release_one_expired_order}
use farm_link.Concurrent.Frames.Orders.{release_one_expired_order-Frame}
use farm_link.Concurrent.Frames.{Frame, place_order-Frame}
use farm_link.History.Effects.Orders.{
  place_order-Effect, release-Effect, release-no_pool, release-no_order,
}
use farm_link.History.Effects.{Quiet, Silent, Announced, Effect, feed_jobs}

-- What a cached value should be.
abbrev pub Agrees : List Pool → CacheKey → CacheValue → Type 0
Agrees pools (listing status_filter) value = value ≡ many (listed_pools status_filter pools)
Agrees pools (single pool_id) value =
    (pool : Pool) × (value ≡ one pool) × (find pool_key pool_id pools ≡ some pool)

pub data Shows (s t : State) : Type 0 where
  silent : t.committed.pools ≡ s.committed.pools → Silent s t → Shows s t
  announced :
      (pool_id : Uuid)
      → ((k : Uuid) (row : Pool)
          → find pool_key k s.committed.pools ≡ some row
          → (some pool_id ≡ some k) ⊎ (find pool_key k t.committed.pools ≡ some row))
      → Announced pool_id s t
      → Shows s t
  created :
      (pool : Pool)
      → t.committed.pools ≡ s.committed.pools ++ pool ∷ []
      → t.cache ≡ cache_delete (invalidated_keys none) s.cache
      → feed_jobs t.jobs ≡ feed_jobs s.jobs
      → t.feed ≡ s.feed
      → Shows s t
  filled :
      (key : CacheKey) (value : CacheValue)
      → Agrees s.committed.pools key value
      → t.committed.pools ≡ s.committed.pools
      → t.cache ≡ cache_set key value pool_cache_ttl_seconds s.now s.cache
      → feed_jobs t.jobs ≡ feed_jobs s.jobs
      → t.feed ≡ s.feed
      → Shows s t

pub data Shown (s : State) : State → Type 0 where
  nothing : Shown s s
  and_then : {t u : State} → Shown s t → Shows t u → Shown s u

pub once : (s t : State) → Shows s t → Shown s t
once s t h = and_then nothing h

-- A change of one pool, with the rows that it leaves alone.
pub Effect-Shows :
    (pool_id : Uuid) (order_id : Option Uuid) (s t : State)
    → Effect pool_id s t
    → Frame (some pool_id) order_id s.committed t.committed
    → Shows s t
Effect-Shows pool_id order_id s t (inl (same, still)) f = silent same still
Effect-Shows pool_id order_id s t (inr shown) f = announced pool_id f.pools shown

pub place_order-Shows : (r : OrderRequest) (s : State) → Shows s (with_session (place_order r) s).1
place_order-Shows r s =
    Effect-Shows r.pool_id none s _ (place_order-Effect r s) (place_order-Frame r s)

pub create_order-Shows :
    (r : OrderRequest) (s : State) → Shows s (with_session (create_order r) s).1
unfolding with_session create_order
create_order-Shows r s =
    elim (Option-cases (find_retried r.buyer_id r.idempotency_key s.committed.orders)) [
      | inl fresh ↦ rw fresh (place_order-Shows r s)
      | inr (o, retried) ↦ rw retried (silent refl (refl, refl, refl))
    ]

pub Quiet-Shows : (s t : State) → Quiet s t → Shows s t
Quiet-Shows s t (pools, cache, jobs, feed) = silent pools (cache, ap feed_jobs jobs, feed)

pub release-Shows :
    (order_id : Uuid) (cutoff : Time) (s : State)
    → Shows s (release_one_expired_order order_id cutoff s).1
release-Shows order_id cutoff s = elim (Option-cases (find order_key order_id s.committed.orders)) [
  | inl absent ↦ Quiet-Shows s _ (release-no_order order_id cutoff s absent)
  | inr (order, there) ↦ elim (Option-cases (find pool_key order.pool_id s.committed.pools)) [
    | inl absent ↦ Quiet-Shows s _ (release-no_pool order_id cutoff order s there absent)
    | inr (pool, found) ↦
        Effect-Shows pool.id (some order_id) s _
          (release-Effect order_id cutoff order pool s there found)
          (release_one_expired_order-Frame order_id cutoff (some pool.id) s
            (λ other row other_there row_found.
              let same : order ≡ other = ground (arith, there, other_there) in
              ap some (
                find_key pool_key order.pool_id s.committed.pools pool found
                ∙ ap (λ (o : Order). o.pool_id) same)))
  ]
]

pub list_pools-Shows :
    (status_filter : Option PoolStatus) (s : State)
    → Shows s (with_session (list_pools status_filter) s).1
unfolding with_session list_pools
list_pools-Shows status_filter s =
    elim (Option-cases (cache_get (listing status_filter) s.now s.cache)) [
      | inl miss ↦ rw miss (
          filled (listing status_filter) (many (listed_pools status_filter s.committed.pools)) refl
            refl refl refl refl)
      | inr (many pools, hit) ↦ rw hit (silent refl (refl, refl, refl))
      | inr (one pool, hit) ↦ rw hit (silent refl (refl, refl, refl))
    ]

pub get_pool-Shows : (pool_id : Uuid) (s : State) → Shows s (with_session (get_pool pool_id) s).1
unfolding with_session get_pool
get_pool-Shows pool_id s = elim (Option-cases (cache_get (single pool_id) s.now s.cache)) [
  | inl miss ↦ elim (Option-cases (find pool_key pool_id s.committed.pools)) [
    | inl absent ↦ rw (miss, absent) (silent refl (refl, refl, refl))
    | inr (pool, there) ↦
        rw (miss, there)
          (filled (single pool_id) (one pool) (pool, refl, there) refl refl refl refl)
  ]
  | inr (many pools, hit) ↦ rw hit (silent refl (refl, refl, refl))
  | inr (one pool, hit) ↦ rw hit (silent refl (refl, refl, refl))
]
