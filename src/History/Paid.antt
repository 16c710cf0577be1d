-- ===== src/History/Paid.antt =====
-- Orders that are paid, and payments.
pub mod Run
use farm_link.Common.{
  ⊤, ℕ, ◌+◌, ◌≡◌, ◌≢◌, ◌⊎◌, inl, inr, refl, sym, ap, ◌∙◌, subst, Bool, true, false, Option, none,
  some, List, [], ◌∷◌, ◌++◌, Option-cases, Bool-cases, String, arith, find, find_key,
  find-replace_self, find-replace_ne, find-append_none, find-append_some, replace, sum_by,
  sum_by-append, ◌==◌, if◌then◌else◌,
}
use farm_link.Schema.{
  Uuid, Kobo, Time, Pool, Order, Payment, Database, order_key, is_paid, paid, pending, expired,
}
use farm_link.Session.{State, Result, ok, err, with_session}
use farm_link.Pools.{PoolCreate}
use farm_link.Pools.Reads.{get_pool-committed, list_pools-committed}
use farm_link.Pools.Outcome.{Created, create_pool-Created, Closed, close_pool-Closed}
use farm_link.Contributions.Outcome as Contributing
use farm_link.Contributions.Outcome.{contributed_database, create_contribution-Outcome}
use farm_link.Orders.{OrderRequest, new_order}
use farm_link.Orders.Placement as Placing
use farm_link.Orders.Placement.{
  order_of, placed_database, Placed, place_order-Placed, create_order-Outcome,
}
use farm_link.Orders.Sweep.{release_one_expired_order}
use farm_link.Orders.Sweep.Invariant.{sweep_expired_orders_inv}
use farm_link.Orders.Sweep.Release as Releasing
use farm_link.Orders.Sweep.Release.{Due, released_database, release_one_expired_order-Outcome}
use farm_link.Payments.Paystack.{Platform, Bytes}
use farm_link.Payments.{Incoming}
use farm_link.Payments.Effect.{payment_of, paid_database, Pays}
use farm_link.Payments.Outcome as Paying
use farm_link.Payments.Outcome.{with_event, Delivered, process_webhook_event-Outcome}
use farm_link.Payouts.Outcome as Sharing
use farm_link.Payouts.Outcome.{calculate_and_create_payouts-Outcome}
use farm_link.History.{
  Request, creates, closes, lists, views, contributes, places, resumes, releases, delivers,
  distributes, sweeps, waits, step, run,
}

-- A payment of an order, counted.
unfoldable pub payment_for : ℕ → Payment → ℕ
payment_for k p = if p.order_id == k then 1 else 0

unfoldable pub one_if_paid : Option Order → ℕ
one_if_paid none = 0
one_if_paid (some order) = if is_paid order.status then 1 else 0

-- A paid order has one payment; any other order, and an order that is not there, has none.
abbrev pub IsPaidOnce : Database → Type 0
IsPaidOnce db =
    (k : ℕ) → sum_by (payment_for k) db.payments ≡ one_if_paid (find order_key k db.orders)

pub append_unpaid :
    (k : ℕ) (orders : List Order) (order : Order)
    → is_paid order.status ≡ false
    → one_if_paid (find order_key k (orders ++ order ∷ [])) ≡ one_if_paid (find order_key k orders)
unfolding one_if_paid
append_unpaid k orders order unpaid = elim (Option-cases (find order_key k orders)) [
  | inl absent ↦ ground (arith, find-append_none order_key k orders order absent)
  | inr (old, there) ↦ ground (arith, find-append_some order_key k orders order old there)
]

-- A row that is replaced by one that is paid or not.
replaced :
    (k order_id : ℕ) (orders : List Order) (order row : Order)
    → find order_key order_id orders ≡ some order
    → order_key row ≡ order_id
    → one_if_paid (find order_key k (replace order_key row orders))
      ≡ (if k == order_id then one_if_paid (some row) else one_if_paid (find order_key k orders))
unfolding one_if_paid
replaced k order_id orders order row there same = elim (Bool-cases (k == order_id)) [
  | inl here ↦ ground (arith, here, find-replace_self order_key row orders order, there, same)
  | inr other ↦ ground (arith, other, find-replace_ne order_key k row orders, same)
]

pub released-IsPaidOnce :
    (order_id : Uuid) (order : Order) (pool : Option Pool) (db : Database)
    → find order_key order_id db.orders ≡ some order
    → order.status ≡ pending
    → IsPaidOnce db
    → IsPaidOnce (released_database order pool db)
unfolding released_database one_if_paid
released-IsPaidOnce order_id order pool db there unpaid h = with_pool pool
  where
    orders_same :
        (k : ℕ)
        → sum_by (payment_for k) db.payments
          ≡ one_if_paid
              (find order_key k (replace order_key (record order { status = expired }) db.orders))
    orders_same k =
        let kept =
          replaced k order_id db.orders order (record order { status = expired }) there
            (find_key order_key order_id db.orders order there) in
        elim (Bool-cases (k == order_id)) [
          | inr other ↦ ground (arith, other, h k, kept)
          | inl here ↦
              let same : order_id ≡ k = ground (arith, here) in
              let found = subst (λ j. find order_key j db.orders ≡ some order) same there in
              ground (arith, here, h k, kept, found, unpaid)
        ]

    with_pool : (pool : Option Pool) → IsPaidOnce (released_database order pool db)
    with_pool none k = orders_same k
    with_pool (some p) k = orders_same k

pub paid-IsPaidOnce :
    (order_id : Uuid) (order : Order) (amount : Kobo) (t : State)
    → find order_key order_id t.working.orders ≡ some order
    → is_paid order.status ≡ false
    → IsPaidOnce t.working
    → IsPaidOnce (paid_database order amount t)
unfolding paid_database payment_of one_if_paid payment_for sum_by
paid-IsPaidOnce order_id order amount t there unpaid h k =
    let key = find_key order_key order_id t.working.orders order there in
    let kept =
      replaced k order_id t.working.orders order (record order { status = paid }) there key in
    let one_more =
      sum_by-append (payment_for k) t.working.payments (payment_of order amount t ∷ []) in
    elim (Bool-cases (k == order_id)) [
      | inr other ↦ ground (arith, other, h k, kept, one_more, key)
      | inl here ↦
          let same : order_id ≡ k = ground (arith, here) in
          let found = subst (λ j. find order_key j t.working.orders ≡ some order) same there in
          ground (arith, here, h k, kept, found, unpaid, one_more, key)
    ]
