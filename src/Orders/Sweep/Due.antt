-- ===== src/Orders/Sweep/Due.antt =====
-- Which orders the sweep releases, and that nothing else is touched.
use farm_link.Common.{◌≡◌, ◌≢◌, ◌<◌, ◌≤◌, ◌⊎◌, ◌||◌, true, false, not, none, some, arith, find, leb}
use farm_link.Schema.{
  Uuid, Time, Pool, Order, pool_key, order_key, pending, is_pending, admit_pool_update,
}
use farm_link.Session.{
  State, ok, with_session, commit, update_pool, update_order, publish_pool_event,
}
use farm_link.Pools.{invalidate_pool_cache}
use farm_link.Orders.Sweep.{
  restocked, expire_order, expire_if_due, announce_expiry, release_one_expired_order,
}
use farm_link.Orders.Sweep.Release.{released_database, Due}

due_test :
    (order : Order) (cutoff : Time)
    → order.status ≡ pending
    → order.created_at < cutoff
    → (not (is_pending order.status) || leb cutoff order.created_at) ≡ false
due_test order cutoff unpaid old = ground arith

-- A due order whose pool can take the stock back is released: it is expired, and the pool has its
-- quantity again.
pub release_one_expired_order-Due :
    (order_id : Uuid) (cutoff : Time) (s : State) (order : Order) (pool : Pool)
    → Due order_id cutoff s.committed order
    → find pool_key order.pool_id s.committed.pools ≡ some pool
    → admit_pool_update (restocked pool order.qty) ≡ none
    → let (result, s') = release_one_expired_order order_id cutoff s in
      (result ≡ ok true) × (s'.committed ≡ released_database order (some pool) s.committed)
unfolding with_session release_one_expired_order expire_if_due expire_order announce_expiry
    released_database commit update_pool update_order publish_pool_event invalidate_pool_cache
release_one_expired_order-Due order_id cutoff s order pool due there admitted =
    ground (arith, due_test order cutoff due.unpaid due.old)

-- An order that is paid, expired or cancelled, or that is not older than the cutoff, is left alone.
pub release_one_expired_order-not_due :
    (order_id : Uuid) (cutoff : Time) (s : State) (order : Order)
    → find order_key order_id s.committed.orders ≡ some order
    → (order.status ≢ pending) ⊎ (cutoff ≤ order.created_at)
    → release_one_expired_order order_id cutoff s ≡ (ok false, record s { working = s.committed })
unfolding with_session release_one_expired_order expire_if_due announce_expiry
release_one_expired_order-not_due order_id cutoff s order there reason =
    ground (arith, skip order reason)
  where
    skip :
        (o : Order)
        → (o.status ≢ pending) ⊎ (cutoff ≤ o.created_at)
        → (not (is_pending o.status) || leb cutoff o.created_at) ≡ true
    skip o why = ground arith
