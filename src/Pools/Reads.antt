-- ===== src/Pools/Reads.antt =====
-- Reading pools, through the cache or past it, writes nothing to the database.
use farm_link.Common.{◌≡◌, Option, arith, Option-cases, inl, inr}
use farm_link.Schema.{Uuid, PoolStatus}
use farm_link.Cache.{cache_get}
use farm_link.Session.{State, with_session}
use farm_link.Pools.{get_pool, list_pools, pool_cache_key, list_cache_key}

pub get_pool-committed :
    (pool_id : Uuid) (s : State) → (with_session (get_pool pool_id) s).1.committed ≡ s.committed
unfolding with_session get_pool
get_pool-committed pool_id s =
    elim (Option-cases (cache_get (pool_cache_key pool_id) s.now s.cache)) [
      | inl miss ↦ ground arith
      | inr (value, hit) ↦ ground arith
    ]

pub list_pools-committed :
    (status_filter : Option PoolStatus) (s : State)
    → (with_session (list_pools status_filter) s).1.committed ≡ s.committed
unfolding with_session list_pools
list_pools-committed status_filter s =
    elim (Option-cases (cache_get (list_cache_key status_filter) s.now s.cache)) [
      | inl miss ↦ ground arith
      | inr (value, hit) ↦ ground arith
    ]
