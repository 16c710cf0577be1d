-- ===== src/Payouts/Late.antt =====
-- A payment that comes after the pool's revenue has been shared out.
use farm_link.Common.{
  String, ◌+◌, ◌≡◌, refl, true, false, none, some, List, [], ◌∷◌, arith, find, find_key, replace,
  select, sum_by, sum_by-replace, if◌then◌else◌, ==_iff,
}
use farm_link.Schema.{
  Uuid, Kobo, Pool, Order, pool_key, order_key, paid, is_paid, is_opened, admit_payment,
}
use farm_link.Session.{State, err, pool_already_paid_out, with_session}
use farm_link.Payments.Paystack.{Platform, Bytes}
use farm_link.Payments.{Incoming, process_webhook_event}
use farm_link.Payments.Effect.{payment_of, paid_database}
use farm_link.Payments.Outcome.{with_event}
use farm_link.Payments.Settlement.{Charges, paying_state, process_webhook_event-pays}
use farm_link.Payouts.{earns_for, pool_revenue, already_paid_out, calculate_and_create_payouts}
use farm_link.Payouts.Revenue.{distribution_refusal, calculate_and_create_payouts-refused}

-- What an order adds to the revenue of pool k.
revenue_of : Uuid → Order → Kobo
revenue_of k o = if earns_for k o then o.total else 0

pool_revenue-sum :
    (k : Uuid) (orders : List Order) → pool_revenue k orders ≡ sum_by (revenue_of k) orders
unfolding pool_revenue select sum_by revenue_of
pool_revenue-sum k [] = refl
pool_revenue-sum k (o ∷ orders) = ground (arith, pool_revenue-sum k orders)

-- A payment raises the revenue of its order's pool by the order's total.
pool_revenue-paid :
    (order_id : Uuid) (order : Order) (orders : List Order)
    → find order_key order_id orders ≡ some order
    → is_paid order.status ≡ false
    → pool_revenue order.pool_id (replace order_key (record order { status = paid }) orders)
      ≡ pool_revenue order.pool_id orders + order.total
unfolding revenue_of
pool_revenue-paid order_id order orders there unpaid =
    let k = order.pool_id in
    let paid_order = record order { status = paid } in
    ground (
      arith,
      find_key order_key order_id orders order there,
      pool_revenue-sum k orders,
      pool_revenue-sum k (replace order_key paid_order orders),
      sum_by-replace order_key (revenue_of k) paid_order order orders,
      (==_iff k k).1 refl,
    )

-- An unpaid order of a pool that is paid out already can still be paid: the revenue grows by its
-- total, no payout is made for that, and a distribution that follows raises PoolAlreadyPaidOut and
-- commits nothing.
pub late_revenue_undistributed :
    (p : Platform) (raw_body : Bytes) (signature : String) (s : State) (e : Incoming)
    (order_id : Uuid) (order : Order) (amount : Kobo) (pool : Pool)
    → Charges p raw_body signature s e order_id order amount
    → is_paid order.status ≡ false
    → find pool_key order.pool_id s.committed.pools ≡ some pool
    → is_opened pool.status ≡ false
    → already_paid_out order.pool_id s.committed.payouts ≡ true
    → admit_payment
        (paying_state e order s).working
        (payment_of order amount (paying_state e order s))
      ≡ none
    → let s' = (with_session (process_webhook_event p raw_body signature) s).1 in
      (pool_revenue order.pool_id s'.committed.orders
        ≡ pool_revenue order.pool_id s.committed.orders + order.total)
      × (s'.committed.payouts ≡ s.committed.payouts)
      × (with_session (calculate_and_create_payouts order.pool_id) s'
          ≡ (err pool_already_paid_out, record s' { working = s'.committed }))
unfolding with_event paid_database distribution_refusal
late_revenue_undistributed p raw_body signature s e order_id order amount pool c unpaid has_pool
      shut done admitted =
    let (_, same) =
      process_webhook_event-pays p raw_body signature s e order_id order amount c unpaid admitted in
    (
      rw same (pool_revenue-paid order_id order s.committed.orders c.found unpaid),
      rw same refl,
      calculate_and_create_payouts-refused order.pool_id
          (with_session (process_webhook_event p raw_body signature) s).1 pool_already_paid_out
          (rw same (ground arith)),
    )
