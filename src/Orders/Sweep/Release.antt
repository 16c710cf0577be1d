-- ===== src/Orders/Sweep/Release.antt =====
-- `_release_one_expired_order` as one transaction.
use farm_link.Common.{
  ℕ, ◌+◌, ◌≡◌, ◌<◌, Bool, true, false, Option, none, some, arith, find, replace, Option-cases, inl,
  inr,
}
use farm_link.Schema.{Uuid, Time, Pool, Order, Database, pool_key, order_key, pending, expired}
use farm_link.Session.{
  State, Result, ok, err, with_session, commit, update_pool, update_order, publish_pool_event,
}
use farm_link.Pools.{invalidate_pool_cache}
use farm_link.Orders.Sweep.{expire_order, expire_if_due, announce_expiry, release_one_expired_order}

-- The database with the order expired and its stock back in the pool, if the pool is there.
unfoldable pub released_database : Order → Option Pool → Database → Database
released_database order none db = record db {
  orders = replace order_key (record order { status = expired }) db.orders;
}
released_database order (some pool) db = record db {
  pools =
      replace pool_key (record pool { available_qty = pool.available_qty + order.qty }) db.pools;
  orders = replace order_key (record order { status = expired }) db.orders;
}

-- An order that the sweep may release: unpaid, and from before the cutoff.
pub record Due (order_id cutoff : ℕ) (db : Database) (order : Order) : Type 0 where
  pub found : find order_key order_id db.orders ≡ some order
  pub unpaid : order.status ≡ pending
  pub old : order.created_at < cutoff

abbrev pub Outcome : Uuid → Time → State → Result Bool × Database → Type 0
Outcome order_id cutoff s (err e, db) = db ≡ s.committed
Outcome order_id cutoff s (ok false, db) = db ≡ s.committed
Outcome order_id cutoff s (ok true, db) =
    (order : Order) × Due order_id cutoff s.committed order
    × (db ≡ released_database order (find pool_key order.pool_id s.committed.pools) s.committed)

-- An order is released only if it is still unpaid and past the cutoff; then it is expired and its
-- stock is back, in one commit. Otherwise nothing changes.
pub release_one_expired_order-Outcome :
    (order_id : Uuid) (cutoff : Time) (s : State)
    → let (result, s') = release_one_expired_order order_id cutoff s in
      Outcome order_id cutoff s (result, s'.committed)
unfolding with_session release_one_expired_order expire_if_due expire_order announce_expiry
    released_database commit update_pool update_order publish_pool_event invalidate_pool_cache
release_one_expired_order-Outcome order_id cutoff s =
    elim (Option-cases (find order_key order_id s.committed.orders)) [
      | inl e ↦ ground arith
      | inr (order, e) ↦ elim (Option-cases (find pool_key order.pool_id s.committed.pools)) [
        | inl absent ↦ ground arith
        | inr (pool, there) ↦ ground arith
      ]
    ]
