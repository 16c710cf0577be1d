-- ===== src/History/Books.antt =====
-- The books of every pool after any history.
use farm_link.Common.{ℕ, ◌+◌, ◌≡◌, ◌≤◌, ◌⊎◌, inl, inr, some, List, [], ◌∷◌, arith, find}
use farm_link.Schema.{Uuid, Pool, Order, Database, pool_key}
use farm_link.Session.{State, Result, ok, err}
use farm_link.Pools.Reads.{get_pool-committed, list_pools-committed}
use farm_link.Payouts.Outcome.{Outcome, calculate_and_create_payouts-Outcome}
use farm_link.Orders.Sweep.Invariant.{sweep_expired_orders_inv}
use farm_link.Payments.Paystack.{Platform}
use farm_link.Stock.{StockedWith, IsStocked, contributed, waiting}
use farm_link.Stock.Orders.{create_order-StockedWith, place_order-StockedWith}
use farm_link.Stock.Pools.{
  create_pool-StockedWith, close_pool-StockedWith, create_contribution-StockedWith,
}
use farm_link.Stock.Sweep.{release_one_expired_order-StockedWith}
use farm_link.Stock.Payments.{PaysLate, late_qty, process_webhook_event-Settles}
use farm_link.History.{
  Request, creates, closes, lists, views, contributes, places, resumes, releases, delivers,
  distributes, sweeps, waits, step, run,
}

-- A distribution of payouts touches no pool, order or contribution.
payouts-StockedWith :
    (extra : ℕ → ℕ) (pool_id : Uuid) (s : State) (result : Result _) (db : Database)
    → Outcome pool_id s (result, db)
    → StockedWith extra s.committed
    → StockedWith extra db
payouts-StockedWith extra pool_id s (err e) db same h = rw same h
payouts-StockedWith extra pool_id s (ok ps) db (_, _, _, _, inl (_, _, same)) h = rw same h
payouts-StockedWith extra pool_id s (ok ps) db (_, _, _, _, inr (_, _, _, _, same)) h = rw same h

-- A step that is a delivery which pays late for an order.
abbrev pub IsLate : Platform → Request → State → Type 0
IsLate p (delivers raw_body signature) s =
    (order_id : Uuid) × (order : Order) × PaysLate p raw_body signature s order_id order
IsLate p (creates input) s = ⊥
IsLate p (closes pool_id) s = ⊥
IsLate p (lists status_filter) s = ⊥
IsLate p (views pool_id) s = ⊥
IsLate p (contributes farmer_id pool_id qty) s = ⊥
IsLate p (places r) s = ⊥
IsLate p (resumes r) s = ⊥
IsLate p (releases order_id cutoff) s = ⊥
IsLate p (distributes pool_id) s = ⊥
IsLate p (sweeps max_age_hours) s = ⊥
IsLate p (waits seconds) s = ⊥

-- The books after a step: with the same excess, or with more of it after a late payment.
abbrev StepBooks : Platform → Request → State → (ℕ → ℕ) → Type 0
StepBooks p r s extra =
    StockedWith extra (step p r s).committed
    ⊎ (IsLate p r s × (more : ℕ → ℕ) × StockedWith more (step p r s).committed)

step-StepBooks :
    (p : Platform) (r : Request) (s : State) (extra : ℕ → ℕ)
    → StockedWith extra s.committed
    → StepBooks p r s extra
unfolding step
step-StepBooks p (creates input) s extra h = inl (create_pool-StockedWith extra input s h)
step-StepBooks p (closes pool_id) s extra h = inl (close_pool-StockedWith extra pool_id s h)
step-StepBooks p (lists status_filter) s extra h = inl (rw (list_pools-committed status_filter s) h)
step-StepBooks p (views pool_id) s extra h = inl (rw (get_pool-committed pool_id s) h)
step-StepBooks p (contributes farmer_id pool_id qty) s extra h =
    inl (create_contribution-StockedWith extra farmer_id pool_id qty s h)
step-StepBooks p (places r) s extra h = inl (create_order-StockedWith extra r s h)
step-StepBooks p (resumes r) s extra h = inl (place_order-StockedWith extra r s h)
step-StepBooks p (releases order_id cutoff) s extra h =
    inl (release_one_expired_order-StockedWith extra order_id cutoff s h)
step-StepBooks p (delivers raw_body signature) s extra h =
    elim (process_webhook_event-Settles p raw_body signature s extra h) [
      | inl same ↦ inl same
      | inr (order_id, order, late, books) ↦
          inr ((order_id, order, late), (λ k. extra k + late_qty order k), books)
    ]
step-StepBooks p (distributes pool_id) s extra h =
    inl (payouts-StockedWith extra pool_id s _ _ (calculate_and_create_payouts-Outcome pool_id s) h)
step-StepBooks p (sweeps max_age_hours) s extra h = inl (
    sweep_expired_orders_inv (StockedWith extra) (release_one_expired_order-StockedWith extra)
      max_age_hours s h)
step-StepBooks p (waits seconds) s extra h = inl h

-- Some step of the history pays late for an order.
abbrev pub HasLate : Platform → List Request → State → Type 0
HasLate p [] s = ⊥
HasLate p (r ∷ rs) s = IsLate p r s ⊎ HasLate p rs (step p r s)

run-StockedWith :
    (p : Platform) (rs : List Request) (s : State) (extra : ℕ → ℕ)
    → StockedWith extra s.committed
    → (more : ℕ → ℕ) × StockedWith more (run p rs s).committed
unfolding run
run-StockedWith p [] s extra h = (extra, h)
run-StockedWith p (r ∷ rs) s extra h = elim (step-StepBooks p r s extra h) [
  | inl same ↦ run-StockedWith p rs (step p r s) extra same
  | inr (_, more, books) ↦ run-StockedWith p rs (step p r s) more books
]

-- What is available of a pool, together with what unpaid orders keep back, never exceeds what was
-- brought in, after any history from balanced books.
pub run-available-le :
    (p : Platform) (rs : List Request) (s : State) (k : Uuid) (pool : Pool)
    → IsStocked s.committed
    → find pool_key k (run p rs s).committed.pools ≡ some pool
    → let db = (run p rs s).committed in
      (pool.available_qty + waiting k db.orders ≤ pool.total_qty)
      × (pool.total_qty ≡ contributed k db.contributions)
run-available-le p rs s k pool h there =
    let (more, books) = run-StockedWith p rs s (λ k. 0) h in ground (arith, books k)

-- The books balance to the unit after any history, unless a delivery in it pays for an order that
-- had given its stock back.
pub run-IsStocked :
    (p : Platform) (rs : List Request) (s : State)
    → IsStocked s.committed
    → IsStocked (run p rs s).committed ⊎ HasLate p rs s
unfolding run
run-IsStocked p [] s h = inl h
run-IsStocked p (r ∷ rs) s h = elim (step-StepBooks p r s (λ k. 0) h) [
  | inr (late, _, _) ↦ inr (inl late)
  | inl same ↦ elim (run-IsStocked p rs (step p r s) same) [
    | inl fine ↦ inl fine
    | inr late ↦ inr (inr late)
  ]
]
