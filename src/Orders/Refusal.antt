-- ===== src/Orders/Refusal.antt =====
-- The order of the checks in `create_order`, and what a request that passes them all brings about.
use mathlib.Core.List.{append_assoc}
use farm_link.Common.{
  ℕ, ◌≤◌, ◌+◌, ◌-◌, ◌≡◌, false, not, Option, none, some, List, [], ◌∷◌, ◌++◌, arith, ltb,
  if◌then◌else◌, find, replace, Option-cases, Bool-cases, inl, inr,
}
use farm_link.Schema.{
  Database, Pool, Order, pool_key, is_opened, admit_pool_update, admit_order, admit_allocation,
}
use farm_link.Cache.{cache_delete}
use farm_link.Session.{
  State, Exn, pool_not_found, insufficient_stock, ok, err, with_session, commit, uuid4, update_pool,
  insert_order, insert_allocation, enqueue, publish_event, publish_pool_event, Job,
  send_order_confirmation_email, notify_admin_of_new_order, write_pool_feed_event, order_placed,
}
use farm_link.Pools.{invalidate_pool_cache, invalidated_keys}
use farm_link.Orders.{
  OrderRequest, find_retried, new_order, reduced, complete_order, place_order, create_order,
}
use farm_link.Orders.Placement.{order_of, allocation_of, placed_database, Serves}

-- The first check that a request fails.
unfoldable pub refusal : OrderRequest → Database → Option Exn
refusal r db = elim (find pool_key r.pool_id db.pools) [
  | none ↦ some pool_not_found
  | some pool ↦
      if not (is_opened pool.status)
      then some Exn.pool_closed
      else (if ltb pool.available_qty r.qty then some insufficient_stock else none)
]

-- A request with no earlier order for its key is refused for the first check that it fails, and then
-- nothing is left of it: no row, no job, no message, and the cache as it was.
pub create_order-refused :
    (r : OrderRequest) (s : State) (e : Exn)
    → find_retried r.buyer_id r.idempotency_key s.committed.orders ≡ none
    → refusal r s.committed ≡ some e
    → with_session (create_order r) s ≡ (err e, record s { working = s.committed })
unfolding with_session create_order place_order refusal
create_order-refused r s e fresh why =
    elim (Option-cases (find pool_key r.pool_id s.committed.pools)) [
      | inl absent ↦ ground arith
      | inr (pool, there) ↦ elim (Bool-cases (is_opened pool.status)) [
        | inr shut ↦ ground arith
        | inl open_now ↦ elim (Bool-cases (ltb pool.available_qty r.qty)) [
          | inl short ↦ ground arith
          | inr enough ↦ ground arith
        ]
      ]
    ]

-- The jobs of a new order, in the order in which they are put into the queue.
abbrev pub order_jobs : OrderRequest → Pool → Order → List Job
order_jobs r pool order =
    send_order_confirmation_email r.buyer_email order.id r.qty order.total
    ∷ notify_admin_of_new_order order.id r.pool_id r.buyer_email r.qty
    ∷ write_pool_feed_event r.pool_id (order_placed order.id r.qty (pool.available_qty - r.qty))
    ∷ []

-- The state after a new order.
unfoldable pub placed_state : OrderRequest → Pool → State → State
unfolding placed_database order_of
placed_state r pool s =
    let db = placed_database r pool s in
    let order = order_of r pool s in
    record s {
      committed = db;
      working = db;
      cache = cache_delete (invalidated_keys (some r.pool_id)) s.cache;
      jobs = s.jobs ++ order_jobs r pool order;
      feed =
          s.feed
          ++ record {
            pool_id = r.pool_id;
            event = order_placed order.id r.qty (pool.available_qty - r.qty);
            timestamp = s.now;
          }
            ∷ [];
      drawn = s.drawn + 1 + 1;
    }

-- The database lets the three rows in.
pub record Admits (r : OrderRequest) (pool : Pool) (s : State) : Type 0 where
  pub pool_row : admit_pool_update (reduced pool r.qty) ≡ none
  pub order_row :
      admit_order
        (record s.committed { pools = replace pool_key (reduced pool r.qty) s.committed.pools })
        (order_of r pool s)
      ≡ none
  pub allocation_row :
      admit_allocation
        (record s.committed {
          pools = replace pool_key (reduced pool r.qty) s.committed.pools;
          orders = s.committed.orders ++ order_of r pool s ∷ [];
        })
        (allocation_of r s)
      ≡ none

not_below : (a b : ℕ) → b ≤ a → ltb a b ≡ false
not_below a b h = ground arith

-- The part past the flush, in a session that has the order.
complete_order_lem :
    (r : OrderRequest) (pool : Pool) (s : State)
    → Admits r pool s
    → complete_order r pool (order_of r pool s) (record s {
      working = record s.committed {
        pools = replace pool_key (reduced pool r.qty) s.committed.pools;
        orders = s.committed.orders ++ order_of r pool s ∷ [];
      };
      drawn = s.drawn + 1;
    })
      ≡ (ok (order_of r pool s), placed_state r pool s)
unfolding complete_order commit uuid4 insert_allocation enqueue publish_pool_event publish_event
    invalidate_pool_cache placed_state placed_database order_of allocation_of new_order
complete_order_lem r pool s a = ground (arith, a.allocation_row, jobs_assoc)
  where
    order : Order
    order = order_of r pool s

    jobs_assoc :
        ((s.jobs ++ send_order_confirmation_email r.buyer_email order.id r.qty order.total ∷ [])
            ++ notify_admin_of_new_order order.id r.pool_id r.buyer_email r.qty ∷ [])
          ++ write_pool_feed_event r.pool_id
              (order_placed order.id r.qty (pool.available_qty - r.qty))
            ∷ []
        ≡ s.jobs ++ order_jobs r pool order
    jobs_assoc = simp append_assoc

-- A request that the pool serves and whose rows are admitted succeeds, with all its effects.
pub create_order-placed :
    (r : OrderRequest) (pool : Pool) (s : State)
    → find_retried r.buyer_id r.idempotency_key s.committed.orders ≡ none
    → Serves r s.committed pool
    → Admits r pool s
    → with_session (create_order r) s ≡ (ok (order_of r pool s), placed_state r pool s)
unfolding with_session create_order place_order uuid4 update_pool insert_order order_of placed_state
create_order-placed r pool s fresh v a =
    let enough : ltb pool.available_qty r.qty ≡ false = not_below _ _ v.enough in
    rw (fresh, v.found, v.is_open, enough, a.pool_row, a.order_row)
      (ground (arith, complete_order_lem r pool s a))
