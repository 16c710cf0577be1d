-- ===== src/Stock/Payments.antt =====
-- A payment keeps the books, unless its order has given its stock back: then the pool is oversold by
-- exactly that order's quantity.
use farm_link.Common.{
  ◌⊎◌, Bool-cases, find-replace_self, ⊤, ℕ, ◌+◌, ◌≡◌, true, false, some, arith, ◌==◌, ◌&&◌, not,
  if◌then◌else◌, find, find_key, find-le-sum_by, String, inl, inr,
}
use farm_link.Schema.{Uuid, Kobo, Order, Database, order_key, paid, is_paid}
use farm_link.Session.{State, Result, ok, err, with_session}
use farm_link.Payments.Paystack.{Platform, Bytes}
use farm_link.Payments.{Incoming, process_webhook_event}
use farm_link.Payments.Effect.{paid_database, Pays}
use farm_link.Payments.Outcome.{with_event, Delivered, Outcome, process_webhook_event-Outcome}
use farm_link.Stock.{holds_stock, waiting_qty, sold_qty, ordered_qty, StockedWith}
use farm_link.Stock.Tables.{demand-replace}

-- What a payment for this order takes from pool k beyond what is accounted for.
unfoldable pub late_qty : Order → ℕ → ℕ
late_qty o k = if k == o.pool_id && not (holds_stock o.status) then o.qty else 0

-- An order that is paid while it does not hold stock adds its quantity to the excess.
pub paid_database-StockedWith :
    (extra : ℕ → ℕ) (order_id : Uuid) (order : Order) (amount : Kobo) (t : State)
    → find order_key order_id t.working.orders ≡ some order
    → is_paid order.status ≡ false
    → StockedWith extra t.working
    → StockedWith (λ k. extra k + late_qty order k) (paid_database order amount t)
unfolding paid_database late_qty waiting_qty sold_qty ordered_qty
paid_database-StockedWith extra order_id order amount t there unpaid h k = ground (
  arith,
  h k,
  find_key order_key order_id t.working.orders order there,
  demand-replace k (record order { status = paid }) order t.working.orders,
  find-le-sum_by order_key (ordered_qty k) order_id t.working.orders order there,
)

-- A delivery pays for an order that has given its stock back.
pub record PaysLate (p : Platform) (raw_body : Bytes) (signature : String) (s : State)
    (order_id : Uuid) (order : Order) : Type 0 where
  pub before : find order_key order_id s.committed.orders ≡ some order
  pub released : holds_stock order.status ≡ false
  pub after :
      find order_key order_id
        (with_session (process_webhook_event p raw_body signature) s).1.committed.orders
      ≡ some (record order { status = paid })

-- What a delivery does to the books: nothing, or it pays late for an order, and then the pool is
-- oversold by that order's quantity.
abbrev pub Settles : Platform → Bytes → String → State → (ℕ → ℕ) → Type 0
Settles p raw_body signature s extra =
    let after = (with_session (process_webhook_event p raw_body signature) s).1.committed in
    StockedWith extra after
    ⊎ ((order_id : Uuid) × (order : Order) × PaysLate p raw_body signature s order_id order
        × StockedWith (λ k. extra k + late_qty order k) after)

pub paid_found :
    (order_id : Uuid) (order : Order) (amount : Kobo) (t : State)
    → find order_key order_id t.working.orders ≡ some order
    → find order_key order_id (paid_database order amount t).orders
      ≡ some (record order { status = paid })
unfolding paid_database
paid_found order_id order amount t there = ground (
  arith,
  find_key order_key order_id t.working.orders order there,
  find-replace_self order_key (record order { status = paid }) t.working.orders order,
)

late_qty-held : (order : Order) (k : ℕ) → holds_stock order.status ≡ true → late_qty order k ≡ 0
unfolding late_qty
late_qty-held order k h = ground arith

StockedWith-same :
    (extra late : ℕ → ℕ) (db : Database)
    → ((k : ℕ) → late k ≡ 0)
    → StockedWith (λ k. extra k + late k) db
    → StockedWith extra db
StockedWith-same extra late db none_late h k = ground (arith, h k, none_late k)

module _ (p : Platform) (raw_body : Bytes) (signature : String) (s : State) where
  abbrev committed_after : Database
  committed_after = (with_session (process_webhook_event p raw_body signature) s).1.committed

  Pays-Settles :
      (extra : ℕ → ℕ) (e : Incoming)
      → Pays p e.charge e.reference (with_event e s) committed_after
      → StockedWith extra s.committed
      → Settles p raw_body signature s extra
  unfolding with_event
  Pays-Settles extra e (id_text, order_id, order, amount, _, _, there, unpaid, _, same) h =
      elim (Bool-cases (holds_stock order.status)) [
        | inl held ↦ inl (
            StockedWith-same extra (late_qty order) committed_after
              (λ k. late_qty-held order k held) books)
        | inr gone ↦ inr (order_id, order, late gone, books)
      ]
    where
      books : StockedWith (λ k. extra k + late_qty order k) committed_after
      books =
          rw same
            (paid_database-StockedWith extra order_id order amount (with_event e s) there unpaid h)

      late : holds_stock order.status ≡ false → PaysLate p raw_body signature s order_id order
      late gone = record {
        before = there;
        released = gone;
        after = rw same (paid_found order_id order amount (with_event e s) there);
      }

  Delivered-Settles :
      (extra : ℕ → ℕ) (e : Incoming) (result : Result ⊤)
      → Delivered p e s (result, committed_after)
      → StockedWith extra s.committed
      → Settles p raw_body signature s extra
  unfolding with_event
  Delivered-Settles extra e (err x) same h = inl (rw same h)
  Delivered-Settles extra e (ok _) (inl (_, same)) h = inl (rw same h)
  Delivered-Settles extra e (ok _) (inr (_, inl same)) h = inl (rw same h)
  Delivered-Settles extra e (ok _) (inr (_, inr (_, pays))) h = Pays-Settles extra e pays h

  Outcome-Settles :
      (extra : ℕ → ℕ) (result : Result ⊤)
      → Outcome p raw_body signature s (result, committed_after)
      → StockedWith extra s.committed
      → Settles p raw_body signature s extra
  Outcome-Settles extra (err x) same h = inl (rw same h)
  Outcome-Settles extra (ok a) (_, e, _, d) h = Delivered-Settles extra e (ok a) d h

  -- A delivery keeps the books of every pool, or it pays for an order that no longer holds its stock.
  pub process_webhook_event-Settles :
      (extra : ℕ → ℕ) → StockedWith extra s.committed → Settles p raw_body signature s extra
  process_webhook_event-Settles extra h =
      Outcome-Settles extra _ (process_webhook_event-Outcome p raw_body signature s) h
