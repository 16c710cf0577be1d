-- ===== src/Cache.antt =====
-- app/core/cache.py over Redis, with the keys that app/features/pools/service.py gives it. A key
-- is the constructor for its text: "pools:list:all", "pools:list:open", "pools:list:closed" or
-- "pools:<id>". A value is what its JSON text stands for. An entry is gone once its time has come.
pub mod Laws
use farm_link.Common.{
  ℕ, ◌+◌, Bool, true, false, Option, none, some, List, [], ◌∷◌, ltb, ◌==◌, if◌then◌else◌, not, ◌&&◌,
}
use farm_link.Schema.{Uuid, Time, PoolStatus, opened, closed, Pool}

pub data CacheKey : Type 0 where
  listing : Option PoolStatus → CacheKey
  single : Uuid → CacheKey

pub data CacheValue : Type 0 where
  many : List Pool → CacheValue
  one : Pool → CacheValue

pub record CacheEntry : Type 0 where
  pub key : CacheKey
  pub value : CacheValue
  pub expires_at : Time

abbrev pub Cache : Type 0
Cache = List CacheEntry

same_filter : Option PoolStatus → Option PoolStatus → Bool
same_filter none none = true
same_filter none (some s) = false
same_filter (some s) none = false
same_filter (some opened) (some opened) = true
same_filter (some opened) (some closed) = false
same_filter (some closed) (some opened) = false
same_filter (some closed) (some closed) = true

unfoldable pub same_key : CacheKey → CacheKey → Bool
unfolding same_filter
same_key (listing f) (listing g) = same_filter f g
same_key (listing f) (single k) = false
same_key (single k) (listing f) = false
same_key (single j) (single k) = j == k

unfoldable pub cache_get : CacheKey → Time → Cache → Option CacheValue
cache_get key now [] = none
cache_get key now (e ∷ cache) =
    if same_key key e.key && ltb now e.expires_at then some e.value else cache_get key now cache

remove : CacheKey → Cache → Cache
remove key [] = []
remove key (e ∷ cache) = if same_key key e.key then remove key cache else e ∷ remove key cache

unfoldable pub cache_set : CacheKey → CacheValue → ℕ → Time → Cache → Cache
unfolding remove
cache_set key value ttl_seconds now cache = entry ∷ remove key cache
  where
    entry : CacheEntry
    entry = record { key = key; value = value; expires_at = now + ttl_seconds }

unfoldable pub cache_delete : List CacheKey → Cache → Cache
unfolding remove
cache_delete [] cache = cache
cache_delete (key ∷ keys) cache = cache_delete keys (remove key cache)
