-- ===== src/Stock/Orders.antt =====
-- An order takes its quantity from the stock that is available, and no more.
use farm_link.Common.{ℕ, ◌-◌, arith, find_key, inl, inr}
use farm_link.Schema.{Pool, Order, Database, pool_key}
use farm_link.Session.{State, ok, err, Result, with_session}
use farm_link.Orders.{OrderRequest, new_order, create_order, place_order}
use farm_link.Orders.Placement.{
  order_of, placed_database, Serves, Outcome, create_order-Outcome, Placed, place_order-Placed,
}
use farm_link.Stock.{waiting_qty, sold_qty, ordered_qty, StockedWith}
use farm_link.Stock.Tables.{demand-append, find-replace_pool}

pub placed_database-StockedWith :
    (extra : ℕ → ℕ) (r : OrderRequest) (pool : Pool) (s : State)
    → Serves r s.committed pool
    → StockedWith extra s.committed
    → StockedWith extra (placed_database r pool s)
unfolding placed_database order_of new_order waiting_qty sold_qty ordered_qty
placed_database-StockedWith extra r pool s v h k = ground (
  arith,
  h k,
  find_key pool_key r.pool_id s.committed.pools pool v.found,
  demand-append k s.committed.orders (order_of r pool s),
  find-replace_pool k (record pool { available_qty = pool.available_qty - r.qty }) pool
      s.committed.pools,
)

Outcome-StockedWith :
    (extra : ℕ → ℕ) (r : OrderRequest) (s : State) (result : Result Order) (db : Database)
    → Outcome r s (result, db)
    → StockedWith extra s.committed
    → StockedWith extra db
Outcome-StockedWith extra r s (err e) db same h = rw same h
Outcome-StockedWith extra r s (ok o) db (inl (_, same)) h = rw same h
Outcome-StockedWith extra r s (ok o) db (inr (pool, v, _, _, same)) h =
    rw same (placed_database-StockedWith extra r pool s v h)

-- Whatever an order request does, every pool's books still balance.
pub create_order-StockedWith :
    (extra : ℕ → ℕ) (r : OrderRequest) (s : State)
    → StockedWith extra s.committed
    → StockedWith extra (with_session (create_order r) s).1.committed
create_order-StockedWith extra r s h =
    Outcome-StockedWith extra r s _ _ (create_order-Outcome r s) h

Placed-StockedWith :
    (extra : ℕ → ℕ) (r : OrderRequest) (s : State) (result : Result Order) (db : Database)
    → Placed r s (result, db)
    → StockedWith extra s.committed
    → StockedWith extra db
Placed-StockedWith extra r s (err e) db same h = rw same h
Placed-StockedWith extra r s (ok o) db (inl (_, same)) h = rw same h
Placed-StockedWith extra r s (ok o) db (inr (pool, v, _, same)) h =
    rw same (placed_database-StockedWith extra r pool s v h)

-- So does the placement past the first lookup.
pub place_order-StockedWith :
    (extra : ℕ → ℕ) (r : OrderRequest) (s : State)
    → StockedWith extra s.committed
    → StockedWith extra (with_session (place_order r) s).1.committed
unfolding with_session
place_order-StockedWith extra r s h = Placed-StockedWith extra r s _ _ (place_order-Placed r s) h
