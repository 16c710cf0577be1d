-- ===== src/Stock/Pools.antt =====
-- Pools and contributions keep the books of every pool.
use farm_link.Common.{ℕ, ◌+◌, ◌≡◌, some, arith, find, find_key}
use farm_link.Schema.{Uuid, Pool, Contribution, Database, pool_key, closed}
use farm_link.Session.{State, Result, ok, err, with_session}
use farm_link.Pools.{PoolCreate, create_pool, close_pool}
use farm_link.Pools.Outcome.{pool_of, Created, create_pool-Created, Closed, close_pool-Closed}
use farm_link.Contributions.{create_contribution}
use farm_link.Contributions.Outcome.{
  contribution_of, contributed_database, Outcome, create_contribution-Outcome,
}
use farm_link.Stock.{contributed_qty, StockedWith}
use farm_link.Stock.Tables.{contributed-append, find-replace_pool, find-append_pool}

-- A pool under a new key, with nothing in it.
Created-StockedWith :
    (extra : ℕ → ℕ) (input : PoolCreate) (s : State) (result : Result Pool) (db : Database)
    → Created input s (result, db)
    → StockedWith extra s.committed
    → StockedWith extra db
unfolding pool_of
Created-StockedWith extra input s (err e) db same h = rw same h
Created-StockedWith extra input s (ok p) db (is_new, absent, same) h =
    rw same (λ k. ground (arith, h k, is_new, find-append_pool k p s.committed.pools absent))

pub create_pool-StockedWith :
    (extra : ℕ → ℕ) (input : PoolCreate) (s : State)
    → StockedWith extra s.committed
    → StockedWith extra (with_session (create_pool input) s).1.committed
create_pool-StockedWith extra input s h =
    Created-StockedWith extra input s _ _ (create_pool-Created input s) h

Closed-StockedWith :
    (extra : ℕ → ℕ) (pool_id : Uuid) (s : State) (result : Result Pool) (db : Database)
    → Closed pool_id s (result, db)
    → StockedWith extra s.committed
    → StockedWith extra db
Closed-StockedWith extra pool_id s (err e) db same h = rw same h
Closed-StockedWith extra pool_id s (ok p) db (pool, there, _, now_closed, same) h =
    rw (same, now_closed)
      (λ k. ground (
        arith,
        h k,
        find_key pool_key pool_id s.committed.pools pool there,
        find-replace_pool k (record pool { status = closed }) pool s.committed.pools,
      ))

pub close_pool-StockedWith :
    (extra : ℕ → ℕ) (pool_id : Uuid) (s : State)
    → StockedWith extra s.committed
    → StockedWith extra (with_session (close_pool pool_id) s).1.committed
close_pool-StockedWith extra pool_id s h =
    Closed-StockedWith extra pool_id s _ _ (close_pool-Closed pool_id s) h

contributed_database-StockedWith :
    (extra : ℕ → ℕ) (farmer_id pool_id : Uuid) (qty : ℕ) (pool : Pool) (s : State)
    → find pool_key pool_id s.committed.pools ≡ some pool
    → StockedWith extra s.committed
    → StockedWith extra (contributed_database farmer_id pool_id qty pool s)
unfolding contributed_database contribution_of contributed_qty
contributed_database-StockedWith extra farmer_id pool_id qty pool s there h k = ground (
  arith,
  h k,
  find_key pool_key pool_id s.committed.pools pool there,
  contributed-append k s.committed.contributions (contribution_of farmer_id pool_id qty s),
  find-replace_pool k
      (record pool { total_qty = pool.total_qty + qty; available_qty = pool.available_qty + qty })
      pool s.committed.pools,
)

Outcome-StockedWith :
    (extra : ℕ → ℕ) (farmer_id pool_id : Uuid) (qty : ℕ) (s : State) (result : Result Contribution)
    (db : Database)
    → Outcome farmer_id pool_id qty s (result, db)
    → StockedWith extra s.committed
    → StockedWith extra db
Outcome-StockedWith extra farmer_id pool_id qty s (err e) db same h = rw same h
Outcome-StockedWith extra farmer_id pool_id qty s (ok c) db (pool, there, _, _, same) h =
    rw same (contributed_database-StockedWith extra farmer_id pool_id qty pool s there h)

pub create_contribution-StockedWith :
    (extra : ℕ → ℕ) (farmer_id pool_id : Uuid) (qty : ℕ) (s : State)
    → StockedWith extra s.committed
    → StockedWith extra (with_session (create_contribution farmer_id pool_id qty) s).1.committed
create_contribution-StockedWith extra farmer_id pool_id qty s h =
    Outcome-StockedWith extra farmer_id pool_id qty s _ _
      (create_contribution-Outcome farmer_id pool_id qty s) h
