-- ===== src/History/Paid/Run.antt =====
-- Every order is paid at most once, whatever the requests.
use farm_link.Common.{⊤, ℕ, inl, inr, refl, sym, ◌∙◌, Bool, true, false, List, [], ◌∷◌, String}
use farm_link.Schema.{Uuid, Time, Pool, Order, Database}
use farm_link.Session.{State, Result, ok, err, with_session}
use farm_link.Pools.{PoolCreate}
use farm_link.Pools.Reads.{get_pool-committed, list_pools-committed}
use farm_link.Pools.Outcome.{Created, create_pool-Created, Closed, close_pool-Closed}
use farm_link.Contributions.Outcome as Contributing
use farm_link.Contributions.Outcome.{contributed_database, create_contribution-Outcome}
use farm_link.Orders.{OrderRequest, new_order}
use farm_link.Orders.Placement as Placing
use farm_link.Orders.Placement.{
  order_of, placed_database, Placed, place_order-Placed, create_order-Outcome,
}
use farm_link.Orders.Sweep.{release_one_expired_order}
use farm_link.Orders.Sweep.Invariant.{sweep_expired_orders_inv}
use farm_link.Orders.Sweep.Release as Releasing
use farm_link.Orders.Sweep.Release.{Due, released_database, release_one_expired_order-Outcome}
use farm_link.Payments.Paystack.{Platform, Bytes}
use farm_link.Payments.{Incoming}
use farm_link.Payments.Outcome as Paying
use farm_link.Payments.Outcome.{with_event, Delivered, process_webhook_event-Outcome}
use farm_link.Payouts.Outcome as Sharing
use farm_link.Payouts.Outcome.{calculate_and_create_payouts-Outcome}
use farm_link.History.{
  Request, creates, closes, lists, views, contributes, places, resumes, releases, delivers,
  distributes, sweeps, waits, step, run,
}
use farm_link.History.Paid.{IsPaidOnce, append_unpaid, released-IsPaidOnce, paid-IsPaidOnce}

Placed-IsPaidOnce :
    (r : OrderRequest) (s : State) (result : Result Order) (db : Database)
    → Placed r s (result, db)
    → IsPaidOnce s.committed
    → IsPaidOnce db
unfolding placed_database order_of new_order
Placed-IsPaidOnce r s (err e) db same h = rw same h
Placed-IsPaidOnce r s (ok o) db (inl (_, same)) h = rw same h
Placed-IsPaidOnce r s (ok o) db (inr (pool, _, _, same)) h =
    rw same (λ k. h k ∙ sym (append_unpaid k s.committed.orders (order_of r pool s) refl))

Retried-Placed :
    (r : OrderRequest) (s : State) (result : Result Order) (db : Database)
    → Placing.Outcome r s (result, db)
    → Placed r s (result, db)
Retried-Placed r s (err e) db same = same
Retried-Placed r s (ok o) db (inl retried) = inl retried
Retried-Placed r s (ok o) db (inr (pool, v, _, made, same)) = inr (pool, v, made, same)

Delivered-IsPaidOnce :
    (p : Platform) (e : Incoming) (s : State) (result : Result ⊤) (db : Database)
    → Delivered p e s (result, db)
    → IsPaidOnce s.committed
    → IsPaidOnce db
unfolding with_event
Delivered-IsPaidOnce p e s (err x) db same h = rw same h
Delivered-IsPaidOnce p e s (ok a) db (inl (known, same)) h = rw same h
Delivered-IsPaidOnce p e s (ok a) db (inr (new, inl same)) h = rw same h
Delivered-IsPaidOnce p e s (ok a) db
      (inr (
        new,
        inr (
          charged,
          (id_text, order_id, order, amount, refers, parsed, there, unpaid, read, same),
        ),
      ))
      h =
    rw same (paid-IsPaidOnce order_id order amount (with_event e s) there unpaid h)

Webhook-IsPaidOnce :
    (p : Platform) (raw_body : Bytes) (signature : String) (s : State) (result : Result ⊤)
    (db : Database)
    → Paying.Outcome p raw_body signature s (result, db)
    → IsPaidOnce s.committed
    → IsPaidOnce db
Webhook-IsPaidOnce p raw_body signature s (err e) db same h = rw same h
Webhook-IsPaidOnce p raw_body signature s (ok a) db (signed, e, read, d) h =
    Delivered-IsPaidOnce p e s (ok a) db d h

Released-IsPaidOnce :
    (order_id : Uuid) (cutoff : Time) (s : State) (result : Result Bool) (db : Database)
    → Releasing.Outcome order_id cutoff s (result, db)
    → IsPaidOnce s.committed
    → IsPaidOnce db
Released-IsPaidOnce order_id cutoff s (err e) db same h = rw same h
Released-IsPaidOnce order_id cutoff s (ok false) db same h = rw same h
Released-IsPaidOnce order_id cutoff s (ok true) db (order, due, same) h =
    rw same (released-IsPaidOnce order_id order _ s.committed due.found due.unpaid h)

release-IsPaidOnce :
    (order_id : Uuid) (cutoff : Time) (s : State)
    → IsPaidOnce s.committed
    → IsPaidOnce (release_one_expired_order order_id cutoff s).1.committed
release-IsPaidOnce order_id cutoff s h =
    Released-IsPaidOnce order_id cutoff s _ _ (release_one_expired_order-Outcome order_id cutoff s)
      h

Created-IsPaidOnce :
    (input : PoolCreate) (s : State) (result : Result Pool) (db : Database)
    → Created input s (result, db)
    → IsPaidOnce s.committed
    → IsPaidOnce db
Created-IsPaidOnce input s (err e) db same h = rw same h
Created-IsPaidOnce input s (ok p) db (_, _, same) h = rw same h

Closed-IsPaidOnce :
    (pool_id : Uuid) (s : State) (result : Result Pool) (db : Database)
    → Closed pool_id s (result, db)
    → IsPaidOnce s.committed
    → IsPaidOnce db
Closed-IsPaidOnce pool_id s (err e) db same h = rw same h
Closed-IsPaidOnce pool_id s (ok p) db (_, _, _, _, same) h = rw same h

Contributed-IsPaidOnce :
    (farmer_id pool_id : Uuid) (qty : ℕ) (s : State) (result : Result _) (db : Database)
    → Contributing.Outcome farmer_id pool_id qty s (result, db)
    → IsPaidOnce s.committed
    → IsPaidOnce db
unfolding contributed_database
Contributed-IsPaidOnce farmer_id pool_id qty s (err e) db same h = rw same h
Contributed-IsPaidOnce farmer_id pool_id qty s (ok c) db (_, _, _, _, same) h = rw same h

Payout-IsPaidOnce :
    (pool_id : Uuid) (s : State) (result : Result _) (db : Database)
    → Sharing.Outcome pool_id s (result, db)
    → IsPaidOnce s.committed
    → IsPaidOnce db
Payout-IsPaidOnce pool_id s (err e) db same h = rw same h
Payout-IsPaidOnce pool_id s (ok ps) db (_, _, _, _, inl (_, _, same)) h = rw same h
Payout-IsPaidOnce pool_id s (ok ps) db (_, _, _, _, inr (_, _, _, _, same)) h = rw same h

step-IsPaidOnce :
    (p : Platform) (r : Request) (s : State)
    → IsPaidOnce s.committed
    → IsPaidOnce (step p r s).committed
unfolding step with_session
step-IsPaidOnce p (creates input) s h =
    Created-IsPaidOnce input s _ _ (create_pool-Created input s) h
step-IsPaidOnce p (closes pool_id) s h =
    Closed-IsPaidOnce pool_id s _ _ (close_pool-Closed pool_id s) h
step-IsPaidOnce p (lists status_filter) s h = rw (list_pools-committed status_filter s) h
step-IsPaidOnce p (views pool_id) s h = rw (get_pool-committed pool_id s) h
step-IsPaidOnce p (contributes farmer_id pool_id qty) s h =
    Contributed-IsPaidOnce farmer_id pool_id qty s _ _
      (create_contribution-Outcome farmer_id pool_id qty s) h
step-IsPaidOnce p (places r) s h =
    Placed-IsPaidOnce r s _ _ (Retried-Placed r s _ _ (create_order-Outcome r s)) h
step-IsPaidOnce p (resumes r) s h = Placed-IsPaidOnce r s _ _ (place_order-Placed r s) h
step-IsPaidOnce p (releases order_id cutoff) s h = release-IsPaidOnce order_id cutoff s h
step-IsPaidOnce p (delivers raw_body signature) s h =
    Webhook-IsPaidOnce p raw_body signature s _ _
      (process_webhook_event-Outcome p raw_body signature s) h
step-IsPaidOnce p (distributes pool_id) s h =
    Payout-IsPaidOnce pool_id s _ _ (calculate_and_create_payouts-Outcome pool_id s) h
step-IsPaidOnce p (sweeps max_age_hours) s h =
    sweep_expired_orders_inv IsPaidOnce release-IsPaidOnce max_age_hours s h
step-IsPaidOnce p (waits seconds) s h = h

-- After any history of requests, deliveries and sweeps, every order that is paid has exactly one
-- payment, and no payment is for any other order.
pub run-IsPaidOnce :
    (p : Platform) (rs : List Request) (s : State)
    → IsPaidOnce s.committed
    → IsPaidOnce (run p rs s).committed
unfolding run
run-IsPaidOnce p [] s h = h
run-IsPaidOnce p (r ∷ rs) s h = run-IsPaidOnce p rs (step p r s) (step-IsPaidOnce p r s h)
