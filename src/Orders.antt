-- ===== src/Orders.antt =====
-- app/features/orders/service.py: placing and reading orders. Orders/Sweep has the release of
-- unpaid orders.
pub mod Sweep
pub mod Placement
pub mod Refusal
pub mod Retry
use farm_link.Common.{
  ⊤, ℕ, ◌-◌, ◌*◌, String, Bool, Option, none, some, List, [], ◌∷◌, ◌==◌, ltb, if◌then◌else◌, find,
  first, select, sort, descending, not,
}
use farm_link.Schema.{
  Uuid, Time, Pool, Order, Allocation, pending, is_opened, order_key, integrity_error, data_error,
  has_idempotency_key,
}
use farm_link.Session.{
  State, Exn, pool_not_found, pool_closed, insufficient_stock, value_error, database, Result, ok,
  err, order_placed, send_order_confirmation_email, notify_admin_of_new_order, Action, pure, raise,
  gets, ◌>>=◌, ◌>>◌, attempt, or_abort, or_raise, abort_if, commit, rollback, uuid4, update_pool,
  insert_order, insert_allocation, enqueue, publish_pool_event,
}
use farm_link.Pools.{select_pool, invalidate_pool_cache}

-- `_find_by_idempotency_key`
unfoldable pub find_by_idempotency_key : Uuid → String → List Order → Option Order
find_by_idempotency_key buyer_id key orders = first (has_idempotency_key buyer_id key) orders

-- The same with a key that may be missing: nothing is looked up without one.
unfoldable pub find_retried : Uuid → Option String → List Order → Option Order
unfolding find_by_idempotency_key
find_retried buyer_id none orders = none
find_retried buyer_id (some key) orders = find_by_idempotency_key buyer_id key orders

abbrev answer_or : Option Order → Action Order → Action Order
answer_or none otherwise = otherwise
answer_or (some order) otherwise = pure order

-- The request of a buyer.
pub record OrderRequest : Type 0 where
  pub buyer_id : Uuid
  pub buyer_email : String
  pub pool_id : Uuid
  pub qty : ℕ
  pub idempotency_key : Option String

unfoldable pub new_order : OrderRequest → Pool → Uuid → Time → Order
new_order r pool id now = record {
  id = id;
  pool_id = r.pool_id;
  buyer_id = r.buyer_id;
  qty = r.qty;
  total = pool.price * r.qty;
  status = pending;
  idempotency_key = r.idempotency_key;
  created_at = now;
}

-- `pool.available_qty -= qty`
abbrev pub reduced : Pool → ℕ → Pool
reduced pool qty = record pool { available_qty = pool.available_qty - qty }

-- What follows a flush that went through.
unfoldable pub complete_order : OrderRequest → Pool → Order → Action Order
complete_order r pool order = do
  id ← uuid4
  now ← gets (λ s. s.now)
  insert_allocation
      (record { id = id; order_id = order.id; pool_id = r.pool_id; qty = r.qty; created_at = now })
  commit
  invalidate_pool_cache (some r.pool_id)
  enqueue (send_order_confirmation_email r.buyer_email order.id r.qty order.total)
  enqueue (notify_admin_of_new_order order.id r.pool_id r.buyer_email r.qty)
  publish_pool_event r.pool_id (order_placed order.id r.qty (reduced pool r.qty).available_qty)
  pure order

-- The handler of an `IntegrityError`: another request with the same key may have won.
unfoldable pub recover_order : OrderRequest → Action Order
unfolding find_retried
recover_order r = do
  rollback
  existing ← gets (λ s. find_retried r.buyer_id r.idempotency_key s.working.orders)
  answer_or existing (raise (database integrity_error))

abbrev after_flush : Result ⊤ → Action Order → Action Order → Action Order
after_flush (ok _) complete recover = complete
after_flush (err (database integrity_error)) complete recover = recover
after_flush (err (database data_error)) complete recover = raise (database data_error)
after_flush (err e) complete recover = raise e

-- `create_order` past the lock on the pool's row, with the row as the lock found it.
abbrev pub place_from : OrderRequest → Option Pool → Action Order
place_from r row = do
  pool ← or_abort row pool_not_found
  abort_if (not (is_opened pool.status)) Exn.pool_closed
  abort_if (ltb pool.available_qty r.qty) insufficient_stock
  id ← uuid4
  now ← gets (λ s. s.now)
  let order = new_order r pool id now
  flushed ← attempt (update_pool (reduced pool r.qty) >> insert_order order)
  after_flush flushed (complete_order r pool order) (recover_order r)

-- `create_order` from the lock on the pool's row on.
unfoldable pub place_order : OrderRequest → Action Order
place_order r = do row ← select_pool r.pool_id; place_from r row

unfoldable pub create_order : OrderRequest → Action Order
unfolding find_retried
create_order r = do
  existing ← gets (λ s. find_retried r.buyer_id r.idempotency_key s.working.orders)
  answer_or existing (place_order r)

unfoldable pub get_order : Uuid → Action Order
get_order order_id = do
  row ← gets (λ s. find order_key order_id s.working.orders)
  or_raise row value_error

abbrev bought_by : Uuid → Order → Bool
bought_by buyer_id o = o.buyer_id == buyer_id

unfoldable pub list_orders_for_buyer : Uuid → Action (List Order)
list_orders_for_buyer buyer_id =
    gets λ s. sort (descending (λ o. o.created_at)) (select (bought_by buyer_id) s.working.orders)
