-- ===== src/Stock/Sweep.antt =====
-- The sweep gives back exactly what the order held.
use farm_link.Common.{ℕ, ◌+◌, Bool, true, false, arith, find, find_key, Option-cases, inl, inr}
use farm_link.Schema.{Uuid, Time, Order, Database, pool_key, order_key, expired}
use farm_link.Session.{State, Result, ok, err}
use farm_link.Orders.Sweep.{release_one_expired_order}
use farm_link.Orders.Sweep.Release.{
  released_database, Due, Outcome, release_one_expired_order-Outcome,
}
use farm_link.Stock.{waiting_qty, sold_qty, ordered_qty, StockedWith}
use farm_link.Stock.Tables.{demand-replace, find-replace_pool}

released_database-StockedWith :
    (extra : ℕ → ℕ) (order_id cutoff : ℕ) (order : Order) (db : Database)
    → Due order_id cutoff db order
    → StockedWith extra db
    → StockedWith extra (released_database order (find pool_key order.pool_id db.pools) db)
unfolding released_database waiting_qty sold_qty ordered_qty
released_database-StockedWith extra order_id cutoff order db due h k =
    elim (Option-cases (find pool_key order.pool_id db.pools)) [
      | inl absent ↦ rw absent (
          ground (
            arith,
            h k,
            due.unpaid,
            find_key order_key order_id db.orders order due.found,
            demand-replace k (record order { status = expired }) order db.orders,
          ))
      | inr (pool, there) ↦ rw there (
          ground (
            arith,
            h k,
            due.unpaid,
            find_key order_key order_id db.orders order due.found,
            find_key pool_key order.pool_id db.pools pool there,
            demand-replace k (record order { status = expired }) order db.orders,
            find-replace_pool k (record pool { available_qty = pool.available_qty + order.qty })
                pool db.pools,
          ))
    ]

Outcome-StockedWith :
    (extra : ℕ → ℕ) (order_id : Uuid) (cutoff : Time) (s : State) (result : Result Bool)
    (db : Database)
    → Outcome order_id cutoff s (result, db)
    → StockedWith extra s.committed
    → StockedWith extra db
Outcome-StockedWith extra order_id cutoff s (err e) db same h = rw same h
Outcome-StockedWith extra order_id cutoff s (ok false) db same h = rw same h
Outcome-StockedWith extra order_id cutoff s (ok true) db (order, due, same) h =
    rw same (released_database-StockedWith extra order_id cutoff order s.committed due h)

pub release_one_expired_order-StockedWith :
    (extra : ℕ → ℕ) (order_id : Uuid) (cutoff : Time) (s : State)
    → StockedWith extra s.committed
    → StockedWith extra (release_one_expired_order order_id cutoff s).1.committed
release_one_expired_order-StockedWith extra order_id cutoff s h =
    Outcome-StockedWith extra order_id cutoff s _ _
      (release_one_expired_order-Outcome order_id cutoff s) h
