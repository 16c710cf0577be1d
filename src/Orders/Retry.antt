-- ===== src/Orders/Retry.antt =====
-- A retried request with the same `Idempotency-Key` gets the order of the first one.
use text.Mathlib.TextPositions.{eq_refl}
use farm_link.Common.{
  ◌≡◌, refl, true, none, some, [], ◌∷◌, arith, String, ==_iff, first, first-append_none, inl, inr,
}
use farm_link.Schema.{Database, Pool, Order, has_idempotency_key}
use farm_link.Session.{State, Result, ok, err, with_session}
use farm_link.Orders.{OrderRequest, find_by_idempotency_key, find_retried, new_order, create_order}
use farm_link.Orders.Placement.{order_of, placed_database, Outcome, create_order-Outcome}

-- An order is found under the key that it was placed with.
new_order-key :
    (r : OrderRequest) (pool : Pool) (s : State) (key : String)
    → r.idempotency_key ≡ some key
    → has_idempotency_key r.buyer_id key (order_of r pool s) ≡ true
unfolding has_idempotency_key order_of new_order
new_order-key r pool s key e = rw (e, eq_refl, (==_iff r.buyer_id r.buyer_id).1 refl)

find_retried-placed :
    (r : OrderRequest) (pool : Pool) (s : State) (key : String)
    → r.idempotency_key ≡ some key
    → find_retried r.buyer_id (some key) s.committed.orders ≡ none
    → find_retried r.buyer_id (some key) (placed_database r pool s).orders
      ≡ some (order_of r pool s)
unfolding find_retried find_by_idempotency_key placed_database first
find_retried-placed r pool s key e fresh = rw (
  first-append_none (has_idempotency_key r.buyer_id key) s.committed.orders (order_of r pool s ∷ [])
      fresh,
  new_order-key r pool s key e,
)

module _ (r : OrderRequest) (s : State) (key : String) (keyed : r.idempotency_key ≡ some key) where
  found_after :
      (result : Result Order) (db : Database) (order : Order)
      → Outcome r s (result, db)
      → result ≡ ok order
      → find_retried r.buyer_id (some key) db.orders ≡ some order
  found_after (err e) db order o is_ok = cc
  found_after (ok first_order) db order (inl (old, same)) is_ok = ground (arith, keyed)
  found_after (ok first_order) db order (inr (pool, v, fresh, is_new, same)) is_ok =
      let fresh_key : find_retried r.buyer_id (some key) s.committed.orders ≡ none =
        rw (← keyed) fresh in
      ground (arith, find_retried-placed r pool s key keyed fresh_key)

-- Where an order is found under the key, the request is answered with it, and leaves nothing behind.
pub create_order-found :
    (r : OrderRequest) (s : State) (order : Order)
    → find_retried r.buyer_id r.idempotency_key s.committed.orders ≡ some order
    → with_session (create_order r) s ≡ (ok order, record s { working = s.committed })
unfolding with_session create_order
create_order-found r s order e = rw e

-- After a request with a key has been answered, the same buyer's next request with that key, for
-- whatever pool and quantity, gets the same order, and changes nothing.
pub create_order-retried :
    (r retry : OrderRequest) (key : String) (order : Order) (s : State)
    → r.idempotency_key ≡ some key
    → retry.idempotency_key ≡ some key
    → retry.buyer_id ≡ r.buyer_id
    → (with_session (create_order r) s).0 ≡ ok order
    → let s' = (with_session (create_order r) s).1 in
      with_session (create_order retry) s' ≡ (ok order, record s' { working = s'.committed })
create_order-retried r retry key order s keyed keyed' same answered =
    let s' = (with_session (create_order r) s).1 in
    create_order-found retry s' order (
      rw (keyed', same)
        (found_after r s key keyed _ s'.committed order (create_order-Outcome r s) answered))
