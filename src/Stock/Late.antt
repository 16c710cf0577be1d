-- ===== src/Stock/Late.antt =====
-- A payment that comes after the sweep has released its order.
use farm_link.Common.{String, ◌+◌, ◌≡◌, refl, none, some, arith, ==_iff, find}
use farm_link.Schema.{Uuid, Kobo, Pool, Order, pool_key, order_key, paid, expired, admit_payment}
use farm_link.Session.{State, ok, with_session}
use farm_link.Payments.Paystack.{Platform, Bytes}
use farm_link.Payments.{Incoming, process_webhook_event}
use farm_link.Payments.Effect.{payment_of, paid_database}
use farm_link.Payments.Outcome.{with_event}
use farm_link.Payments.Settlement.{Charges, paying_state, process_webhook_event-pays}
use farm_link.Stock.{IsStocked, waiting, sold}
use farm_link.Stock.Payments.{late_qty, paid_database-StockedWith, paid_found}

-- The payment of an expired order in a database whose books balance.
late_books :
    (order_id : Uuid) (order : Order) (amount : Kobo) (t : State) (pool : Pool)
    → find order_key order_id t.working.orders ≡ some order
    → order.status ≡ expired
    → find pool_key order.pool_id t.working.pools ≡ some pool
    → IsStocked t.working
    → let db = paid_database order amount t in
      (find pool_key order.pool_id db.pools ≡ some pool)
      × (pool.available_qty + waiting order.pool_id db.orders + sold order.pool_id db.orders
          ≡ pool.total_qty + order.qty)
unfolding late_qty paid_database
late_books order_id order amount t pool there gone has_pool h =
    let books =
      paid_database-StockedWith (λ k. 0) order_id order amount t there (ground arith) h
        order.pool_id in
    ground (arith, books, (==_iff order.pool_id order.pool_id).1 refl)

-- A successful charge for an expired order is answered as usual: the order is marked paid, and the
-- pool, which has the order's stock back on offer, is oversold by exactly that quantity.
pub late_payment_oversells :
    (p : Platform) (raw_body : Bytes) (signature : String) (s : State) (e : Incoming)
    (order_id : Uuid) (order : Order) (amount : Kobo) (pool : Pool)
    → Charges p raw_body signature s e order_id order amount
    → order.status ≡ expired
    → find pool_key order.pool_id s.committed.pools ≡ some pool
    → IsStocked s.committed
    → admit_payment
        (paying_state e order s).working
        (payment_of order amount (paying_state e order s))
      ≡ none
    → let (result, s') = with_session (process_webhook_event p raw_body signature) s in
      (result ≡ ok tt)
      × (find order_key order_id s'.committed.orders ≡ some (record order { status = paid }))
      × (find pool_key order.pool_id s'.committed.pools ≡ some pool)
      × (pool.available_qty
            + waiting order.pool_id s'.committed.orders
            + sold order.pool_id s'.committed.orders
          ≡ pool.total_qty + order.qty)
unfolding with_event
late_payment_oversells p raw_body signature s e order_id order amount pool c gone has_pool h
      admitted =
    let t = with_event e s in
    let (done, same) =
      process_webhook_event-pays p raw_body signature s e order_id order amount c (ground arith)
        admitted in
    let books = late_books order_id order amount t pool c.found gone has_pool h in
    (done, rw same (paid_found order_id order amount t c.found), rw same books.0, rw same books.1)
