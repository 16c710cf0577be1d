-- ===== src/Orders/Placement.antt =====
-- `create_order` as one transaction: what it commits, on every way through it.
use farm_link.Common.{
  ◌+◌, ◌≤◌, ◌≡◌, ◌⊎◌, inl, inr, true, none, some, [], ◌∷◌, ◌++◌, arith, find, replace, Option-cases,
  Bool-cases, ltb, refl,
}
use farm_link.Schema.{
  Database, Pool, Order, Allocation, pool_key, is_opened, admit_pool_update, admit_order,
  integrity_error, data_error,
}
use farm_link.Session.{
  State, Result, ok, err, with_session, commit, rollback, uuid4, update_pool, insert_order,
  insert_allocation, enqueue, publish_pool_event,
}
use farm_link.Pools.{invalidate_pool_cache}
use farm_link.Orders.{
  OrderRequest, find_retried, new_order, reduced, complete_order, recover_order, place_order,
  create_order,
}

-- The order and the allocation that a request gets, with the identifiers that are drawn next.
unfoldable pub order_of : OrderRequest → Pool → State → Order
order_of r pool s = new_order r pool (s.uuids s.drawn) s.now

unfoldable pub allocation_of : OrderRequest → State → Allocation
allocation_of r s = record {
  id = s.uuids (s.drawn + 1);
  order_id = s.uuids s.drawn;
  pool_id = r.pool_id;
  qty = r.qty;
  created_at = s.now;
}

-- The database with the order in it.
unfoldable pub placed_database : OrderRequest → Pool → State → Database
unfolding order_of allocation_of
placed_database r pool s =
    let db = s.committed in
    record db {
      pools = replace pool_key (reduced pool r.qty) db.pools;
      orders = db.orders ++ order_of r pool s ∷ [];
      allocations = db.allocations ++ allocation_of r s ∷ [];
    }

-- The pool can serve the request.
pub record Serves (r : OrderRequest) (db : Database) (pool : Pool) : Type 0 where
  pub found : find pool_key r.pool_id db.pools ≡ some pool
  pub is_open : is_opened pool.status ≡ true
  pub enough : r.qty ≤ pool.available_qty

-- What a request may commit, by how it ended.
abbrev pub Outcome : OrderRequest → State → Result Order × Database → Type 0
Outcome r s (err e, db) = db ≡ s.committed
Outcome r s (ok order, db) =
    ((find_retried r.buyer_id r.idempotency_key s.committed.orders ≡ some order)
      × (db ≡ s.committed))
    ⊎ ((pool : Pool) × Serves r s.committed pool
        × (find_retried r.buyer_id r.idempotency_key s.committed.orders ≡ none)
        × (order ≡ order_of r pool s)
        × (db ≡ placed_database r pool s))

-- The part past the flush commits the session with the allocation in it, or nothing.
abbrev Completed : OrderRequest → Order → State → Result Order × Database → Type 0
Completed r order t (err e, db) = db ≡ t.committed
Completed r order t (ok o, db) =
    (o ≡ order)
    × (db ≡ record t.working {
      allocations =
          t.working.allocations
          ++ record {
            id = t.uuids t.drawn;
            order_id = order.id;
            pool_id = r.pool_id;
            qty = r.qty;
            created_at = t.now;
          }
            ∷ [];
    })

complete_order-Completed :
    (r : OrderRequest) (pool : Pool) (order : Order) (t : State)
    → let (result, t') = complete_order r pool order t in Completed r order t (result, t'.committed)
unfolding complete_order commit uuid4 insert_allocation enqueue publish_pool_event
    invalidate_pool_cache
complete_order-Completed r pool order t = ground arith

abbrev Recovered : OrderRequest → State → Result Order × Database → Type 0
Recovered r t (err e, db) = db ≡ t.committed
Recovered r t (ok o, db) =
    (find_retried r.buyer_id r.idempotency_key t.committed.orders ≡ some o) × (db ≡ t.committed)

recover_order-Recovered :
    (r : OrderRequest) (t : State)
    → let (result, t') = recover_order r t in Recovered r t (result, t'.committed)
unfolding recover_order rollback
recover_order-Recovered r t = ground arith

-- What the transaction of a placement may commit, past the first lookup of its key.
abbrev pub Placed : OrderRequest → State → Result Order × Database → Type 0
Placed r s (err e, db) = db ≡ s.committed
Placed r s (ok order, db) =
    ((find_retried r.buyer_id r.idempotency_key s.committed.orders ≡ some order)
      × (db ≡ s.committed))
    ⊎ ((pool : Pool) × Serves r s.committed pool
        × (order ≡ order_of r pool s)
        × (db ≡ placed_database r pool s))

Recovered-Placed :
    (r : OrderRequest) (s : State) (x : Result Order × Database) → Recovered r s x → Placed r s x
Recovered-Placed r s (err e, db) same = same
Recovered-Placed r s (ok o, db) found = inl found

Completed-Placed :
    (r : OrderRequest) (pool : Pool) (s : State) (x : Result Order × Database)
    → Serves r s.committed pool
    → Completed r
        (order_of r pool s)
        (record s {
          working = record s.committed {
            pools = replace pool_key (reduced pool r.qty) s.committed.pools;
            orders = s.committed.orders ++ order_of r pool s ∷ [];
          };
          drawn = s.drawn + 1;
        })
        x
    → Placed r s x
unfolding placed_database new_order
Completed-Placed r pool s (err e, db) serves same = same
Completed-Placed r pool s (ok o, db) serves (made, same) = inr (pool, serves, made, same)

pub place_order-Placed :
    (r : OrderRequest) (s : State)
    → let (result, s') = place_order r (record s { working = s.committed }) in
      Placed r s (result, s'.committed)
unfolding place_order uuid4 update_pool insert_order placed_database order_of
place_order-Placed r s = elim (Option-cases (find pool_key r.pool_id s.committed.pools)) [
  | inl absent ↦ rw absent refl
  | inr (pool, there) ↦ elim (Bool-cases (is_opened pool.status)) [
    | inr shut ↦ rw (there, shut) refl
    | inl open_now ↦ elim (Bool-cases (ltb pool.available_qty r.qty)) [
      | inl short ↦ rw (there, open_now, short) refl
      | inr enough ↦
          let db = s.committed in
          let order = order_of r pool s in
          let stocked : Database = record db {
            pools = replace pool_key (reduced pool r.qty) db.pools;
          } in
          let written : Database = record stocked { orders = stocked.orders ++ order ∷ [] } in
          let drawn = s.drawn + 1 in
          let serves : Serves r db pool = record {
            found = there;
            is_open = open_now;
            enough = ground (arith, enough);
          } in
          elim (Option-cases (admit_pool_update (reduced pool r.qty))) [
            | inr (integrity_error, bad) ↦
                rw (there, open_now, enough, bad)
                  (Recovered-Placed r s _
                    (recover_order-Recovered r (record s { working = db; drawn = drawn })))
            | inr (data_error, bad) ↦ rw (there, open_now, enough, bad) refl
            | inl fine ↦ elim (Option-cases (admit_order stocked order)) [
              | inr (integrity_error, bad) ↦
                  rw (there, open_now, enough, fine, bad)
                    (Recovered-Placed r s _
                      (recover_order-Recovered r (record s { working = stocked; drawn = drawn })))
              | inr (data_error, bad) ↦ rw (there, open_now, enough, fine, bad) refl
              | inl new ↦
                  rw (there, open_now, enough, fine, new)
                    (Completed-Placed r pool s _ serves (
                      complete_order-Completed r pool order
                        (record s { working = written; drawn = drawn })))
            ]
          ]
    ]
  ]
]

fresh_Outcome :
    (r : OrderRequest) (s : State) (result : Result Order) (db : Database)
    → find_retried r.buyer_id r.idempotency_key s.committed.orders ≡ none
    → Placed r s (result, db)
    → Outcome r s (result, db)
fresh_Outcome r s (err e) db fresh same = same
fresh_Outcome r s (ok o) db fresh (inl (found, same)) = inl (found, same)
fresh_Outcome r s (ok o) db fresh (inr (pool, v, made, same)) = inr (pool, v, fresh, made, same)

-- A request answers with the order of an earlier one with its key and changes nothing, or it places
-- one order, or it raises and changes nothing.
pub create_order-Outcome :
    (r : OrderRequest) (s : State)
    → let (result, s') = with_session (create_order r) s in Outcome r s (result, s'.committed)
unfolding with_session create_order
create_order-Outcome r s =
    elim (Option-cases (find_retried r.buyer_id r.idempotency_key s.committed.orders)) [
      | inr (o, e) ↦ ground arith
      | inl fresh ↦ rw fresh (fresh_Outcome r s _ _ fresh (place_order-Placed r s))
    ]
