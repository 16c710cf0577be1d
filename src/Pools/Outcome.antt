-- ===== src/Pools/Outcome.antt =====
-- `create_pool` and `close_pool` as transactions.
use farm_link.Common.{
  ◌≡◌, true, none, some, [], ◌∷◌, ◌++◌, arith, find, replace, Option-cases, inl, inr,
}
use farm_link.Schema.{Uuid, Pool, Database, pool_key, is_opened, opened, closed, admit_pool}
use farm_link.Session.{
  State, Result, ok, err, with_session, commit, uuid4, update_pool, insert_pool, publish_pool_event,
}
use farm_link.Pools.{PoolCreate, create_pool, close_pool, invalidate_pool_cache}

-- An empty pool that is open.
unfoldable pub pool_of : PoolCreate → State → Pool
pool_of input s = record {
  id = s.uuids s.drawn;
  product = input.product;
  price = input.price;
  unit = input.unit;
  total_qty = 0;
  available_qty = 0;
  status = opened;
  created_at = s.now;
}

abbrev pub Created : PoolCreate → State → Result Pool × Database → Type 0
Created input s (err e, db) = db ≡ s.committed
Created input s (ok p, db) =
    (p ≡ pool_of input s)
    × (find pool_key p.id s.committed.pools ≡ none)
    × (db ≡ record s.committed { pools = s.committed.pools ++ p ∷ [] })

-- A new pool is empty and open, and comes under a key that no pool had; or nothing changes.
pub create_pool-Created :
    (input : PoolCreate) (s : State)
    → let (result, s') = with_session (create_pool input) s in
      Created input s (result, s'.committed)
unfolding with_session create_pool commit uuid4 insert_pool invalidate_pool_cache pool_of admit_pool
create_pool-Created input s =
    elim (Option-cases (find pool_key (s.uuids s.drawn) s.committed.pools)) [
      | inl e ↦ ground arith
      | inr (pool, e) ↦ ground arith
    ]

abbrev pub Closed : Uuid → State → Result Pool × Database → Type 0
Closed pool_id s (err e, db) = db ≡ s.committed
Closed pool_id s (ok p, db) =
    (pool : Pool) × (find pool_key pool_id s.committed.pools ≡ some pool)
    × (is_opened pool.status ≡ true)
    × (p ≡ record pool { status = closed })
    × (db ≡ record s.committed { pools = replace pool_key p s.committed.pools })

-- Closing changes the status of a pool that was open, and nothing else.
pub close_pool-Closed :
    (pool_id : Uuid) (s : State)
    → let (result, s') = with_session (close_pool pool_id) s in
      Closed pool_id s (result, s'.committed)
unfolding with_session close_pool commit update_pool publish_pool_event invalidate_pool_cache
close_pool-Closed pool_id s = elim (Option-cases (find pool_key pool_id s.committed.pools)) [
  | inl e ↦ ground arith
  | inr (pool, e) ↦ ground arith
]
