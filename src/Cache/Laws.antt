-- ===== src/Cache/Laws.antt =====
-- What a read of the cache sees after a write or a deletion.
use farm_link.Common.{
  ℕ, ◌+◌, ◌⊎◌, ltb, ◌≡◌, refl, Bool, true, false, ◌||◌, Option, none, some, List, [], ◌∷◌, arith,
  if◌then◌else◌, Bool-cases, inl, inr, ==_iff,
}
use farm_link.Schema.{Time, PoolStatus, opened, closed}
use farm_link.Cache.{
  CacheKey, listing, single, CacheValue, Cache, cache_set, same_filter, same_key, cache_get, remove,
  cache_delete,
}

same_filter_refl : (f : Option PoolStatus) → same_filter f f ≡ true
unfolding same_filter
same_filter_refl none = refl
same_filter_refl (some opened) = refl
same_filter_refl (some closed) = refl

pub same_key_refl : (k : CacheKey) → same_key k k ≡ true
unfolding same_key
same_key_refl (listing f) = same_filter_refl f
same_key_refl (single k) = (==_iff k k).1 refl

same_filter-eq : (f g : Option PoolStatus) → same_filter f g ≡ true → f ≡ g
unfolding same_filter
same_filter-eq none none h = refl
same_filter-eq none (some s) h = cc
same_filter-eq (some s) none h = ground arith
same_filter-eq (some opened) (some opened) h = refl
same_filter-eq (some opened) (some closed) h = cc
same_filter-eq (some closed) (some opened) h = cc
same_filter-eq (some closed) (some closed) h = refl

pub same_key-eq : (j k : CacheKey) → same_key j k ≡ true → j ≡ k
unfolding same_key
same_key-eq (listing f) (listing g) h = cc (same_filter-eq f g h)
same_key-eq (listing f) (single k) h = cc
same_key-eq (single k) (listing f) h = cc
same_key-eq (single j) (single k) h = cc ((==_iff j k).0 h)

cache_get-remove :
    (j k : CacheKey) (now : Time) (c : Cache)
    → cache_get j now (remove k c) ≡ (if same_key k j then none else cache_get j now c)
unfolding cache_get remove
cache_get-remove j k now [] = ground arith
cache_get-remove j k now (e ∷ c) = elim (Bool-cases (same_key j e.key)) [
  | inl hit ↦ let same = same_key-eq j e.key hit in ground (arith, cache_get-remove j k now c)
  | inr miss ↦ ground (arith, cache_get-remove j k now c)
]

-- A key among those to delete.
abbrev pub listed : CacheKey → List CacheKey → Bool
listed j [] = false
listed j (k ∷ ks) = same_key k j || listed j ks

-- A deleted key is not found; every other key is read as before.
pub cache_get-delete :
    (ks : List CacheKey) (j : CacheKey) (now : Time) (c : Cache)
    → cache_get j now (cache_delete ks c) ≡ (if listed j ks then none else cache_get j now c)
unfolding cache_delete
cache_get-delete [] j now c = refl
cache_get-delete (k ∷ ks) j now c =
    ground (arith, cache_get-delete ks j now (remove k c), cache_get-remove j k now c)

-- After a write, a read sees what was written, or what it saw before.
pub cache_get-set :
    (key : CacheKey) (value : CacheValue) (ttl_seconds : ℕ) (now : Time) (c : Cache) (j : CacheKey)
    (at : Time) (v : CacheValue)
    → cache_get j at (cache_set key value ttl_seconds now c) ≡ some v
    → ((j ≡ key) × (v ≡ value)) ⊎ (cache_get j at c ≡ some v)
unfolding cache_get cache_set
cache_get-set key value ttl_seconds now c j at v hit = elim (Bool-cases (same_key j key)) [
  | inr other ↦ inr (ground (arith, cache_get-remove j key at c))
  | inl same ↦ elim (Bool-cases (ltb at (now + ttl_seconds))) [
    | inl live ↦ inl (same_key-eq j key same, ground arith)
    | inr dead ↦ inr (ground (arith, cache_get-remove j key at c))
  ]
]
