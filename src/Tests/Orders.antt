-- ===== src/Tests/Orders.antt =====
-- Orders and the sweep at concrete inputs.
use farm_link.Common.{◌≡◌, refl, some, arith, find, first, replace}
use farm_link.Schema.{admit_pool_update, admit_order, admit_allocation, has_idempotency_key}
use farm_link.Session.{
  insufficient_stock, ok, err, with_session, commit, uuid4, update_pool, insert_order,
  insert_allocation, enqueue, publish_pool_event,
}
use farm_link.Pools.{invalidate_pool_cache}
use farm_link.Orders.{
  OrderRequest, find_retried, new_order, complete_order, place_order, create_order,
}
use farm_link.Orders.Placement.{order_of, allocation_of, Outcome, create_order-Outcome}
use farm_link.Orders.Refusal.{refusal, create_order-refused, placed_state, create_order-placed}
use farm_link.Orders.Retry.{create_order-retried}
use farm_link.Tests.Market.{market, yams}

abbrev ten_yams : OrderRequest
ten_yams = record {
  buyer_id = 10;
  buyer_email = "ada@x.ng";
  pool_id = 1;
  qty = 40;
  idempotency_key = some "k2";
}

abbrev too_many : OrderRequest
too_many = record ten_yams { qty = 41 }

create_order-Outcome_example :
    let (result, s') = with_session (create_order ten_yams) market in
    Outcome ten_yams market (result, s'.committed)
create_order-Outcome_example = create_order-Outcome ten_yams market

create_order-refused_example :
    with_session (create_order too_many) market ≡ (err insufficient_stock, market)
unfolding find_retried refusal first find has_idempotency_key
create_order-refused_example = create_order-refused too_many market insufficient_stock refl refl

create_order-placed_example :
    with_session (create_order ten_yams) market
    ≡ (ok (order_of ten_yams yams market), placed_state ten_yams yams market)
unfolding find_retried first find has_idempotency_key replace admit_pool_update admit_order
    admit_allocation order_of allocation_of new_order
create_order-placed_example =
    create_order-placed ten_yams yams market refl
      (record { found = refl; is_open = refl; enough = omega arith })
      (record { pool_row = refl; order_row = refl; allocation_row = refl })

-- The last 40 yams, asked for twice with one key: one order.
create_order-retried_example :
    let s' = (with_session (create_order ten_yams) market).1 in
    with_session (create_order too_many) s'
    ≡ (ok (order_of ten_yams yams market), record s' { working = s'.committed })
unfolding find_retried first find has_idempotency_key replace admit_pool_update admit_order
    admit_allocation order_of allocation_of new_order with_session create_order place_order
    complete_order commit uuid4 update_pool insert_order insert_allocation enqueue
    publish_pool_event invalidate_pool_cache
create_order-retried_example =
    create_order-retried ten_yams too_many "k2" (order_of ten_yams yams market) market refl refl
      refl refl
