-- ===== src/Pools.antt =====
-- app/features/pools/service.py: pools, and the cache on the two ways to read them.
pub mod Outcome
pub mod Reads
use farm_link.Common.{
  ⊤, ℕ, String, Bool, true, Option, none, some, List, [], ◌∷◌, find, select, sort, descending, not,
}
use farm_link.Schema.{Uuid, Kobo, PoolStatus, opened, closed, Pool, pool_key, is_opened}
use farm_link.Cache.{
  CacheKey, listing, single, CacheValue, many, one, cache_get, cache_set, cache_delete,
}
use farm_link.Session.{
  State, Exn, pool_not_found, pool_already_closed, value_error, FeedEvent, Action, pure, raise,
  gets, ◌>>=◌, ◌>>◌, modify, or_abort, or_raise, abort_if, commit, uuid4, update_pool, insert_pool,
  publish_pool_event,
}

-- `Settings.pool_cache_ttl_seconds`
abbrev pub pool_cache_ttl_seconds : ℕ
pool_cache_ttl_seconds = 30

abbrev pub list_cache_key : Option PoolStatus → CacheKey
list_cache_key status_filter = listing status_filter

abbrev pub pool_cache_key : Uuid → CacheKey
pool_cache_key pool_id = single pool_id

-- The keys that `invalidate_pool_cache` deletes.
abbrev pub invalidated_keys : Option Uuid → List CacheKey
invalidated_keys none =
    list_cache_key none ∷ list_cache_key (some opened) ∷ list_cache_key (some closed) ∷ []
invalidated_keys (some pool_id) =
    list_cache_key none
    ∷ list_cache_key (some opened)
    ∷ list_cache_key (some closed)
    ∷ pool_cache_key pool_id
    ∷ []

unfoldable pub invalidate_pool_cache : Option Uuid → Action ⊤
invalidate_pool_cache pool_id =
    modify (λ s. record s { cache = cache_delete (invalidated_keys pool_id) s.cache })

-- `PoolCreate`
pub record PoolCreate : Type 0 where
  pub product : String
  pub price : Kobo
  pub unit : String

-- `select(Pool).where(Pool.id == pool_id)`, with or without FOR UPDATE
abbrev pub select_pool : Uuid → Action (Option Pool)
select_pool pool_id = gets (λ s. find pool_key pool_id s.working.pools)

unfoldable pub create_pool : PoolCreate → Action Pool
unfolding invalidate_pool_cache
create_pool input = do
  id ← uuid4
  now ← gets (λ s. s.now)
  let pool : Pool = record {
    id = id;
    product = input.product;
    price = input.price;
    unit = input.unit;
    total_qty = 0;
    available_qty = 0;
    status = opened;
    created_at = now;
  }
  insert_pool pool
  commit
  invalidate_pool_cache none
  pure pool

same_status : PoolStatus → PoolStatus → Bool
same_status opened s = is_opened s
same_status closed s = not (is_opened s)

abbrev status_matches : Option PoolStatus → Pool → Bool
status_matches none p = true
status_matches (some s) p = same_status s p.status

-- The rows that `list_pools` reads: newest first, filtered by status.
unfoldable pub listed_pools : Option PoolStatus → List Pool → List Pool
unfolding same_status
listed_pools status_filter pools =
    select (status_matches status_filter) (sort (descending (λ p. p.created_at)) pools)

abbrev cached_list : Option CacheValue → Action (List Pool) → Action (List Pool)
cached_list none miss = miss
cached_list (some (many pools)) miss = pure pools
cached_list (some (one p)) miss = raise value_error

unfoldable pub list_pools : Option PoolStatus → Action (List Pool)
list_pools status_filter = do
  cached ← gets (λ s. cache_get (list_cache_key status_filter) s.now s.cache)
  cached_list cached do
    pools ← gets (λ s. listed_pools status_filter s.working.pools)
    modify (λ s. record s {
      cache =
          cache_set (list_cache_key status_filter) (many pools) pool_cache_ttl_seconds s.now
            s.cache;
    })
    pure pools

abbrev cached_pool : Option CacheValue → Action Pool → Action Pool
cached_pool none miss = miss
cached_pool (some (many pools)) miss = raise value_error
cached_pool (some (one p)) miss = pure p

unfoldable pub get_pool : Uuid → Action Pool
get_pool pool_id = do
  cached ← gets (λ s. cache_get (pool_cache_key pool_id) s.now s.cache)
  cached_pool cached do
    row ← select_pool pool_id
    pool ← or_raise row pool_not_found
    modify (λ s. record s {
      cache = cache_set (pool_cache_key pool_id) (one pool) pool_cache_ttl_seconds s.now s.cache;
    })
    pure pool

-- `close_pool` past the lock on the pool's row, with the row as the lock found it.
abbrev pub close_from : Uuid → Option Pool → Action Pool
close_from pool_id row = do
  pool ← or_abort row pool_not_found
  abort_if (not (is_opened pool.status)) pool_already_closed
  let closed_pool = record pool { status = closed }
  update_pool closed_pool
  commit
  invalidate_pool_cache (some pool_id)
  publish_pool_event pool_id FeedEvent.pool_closed
  pure closed_pool

unfoldable pub close_pool : Uuid → Action Pool
close_pool pool_id = do row ← select_pool pool_id; close_from pool_id row
