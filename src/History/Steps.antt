-- ===== src/History/Steps.antt =====
-- What each request shows outside the database.
use farm_link.Common.{
  String, ⊤, ℕ, ◌≡◌, inl, inr, refl, Option, none, List, [], ◌∷◌, ◌++◌, arith, ap,
}
use farm_link.Schema.{Uuid, Time, Database, Pool}
use farm_link.Cache.{cache_delete}
use farm_link.Session.{State, Result, ok, err, with_session, commit, uuid4, insert_pool}
use farm_link.Pools.{invalidate_pool_cache, invalidated_keys, PoolCreate, create_pool}
use farm_link.Orders.Sweep.{
  release_one_expired_order, release_each, sweep_expired_orders, candidate_ids, counted,
  cutoff_time, max_age,
}
use farm_link.Payments.Paystack.{Platform, Bytes}
use farm_link.Payments.{Incoming}
use farm_link.Payments.Effect.{paid_database}
use farm_link.Payments.Outcome as Paying
use farm_link.Payments.Outcome.{with_event, Delivered, process_webhook_event-Outcome}
use farm_link.Payouts.Outcome as Sharing
use farm_link.Payouts.Outcome.{calculate_and_create_payouts-Outcome}
use farm_link.History.{
  Request, creates, closes, lists, views, contributes, places, resumes, releases, delivers,
  distributes, sweeps, waits, step,
}
use farm_link.History.Effects.Payments.{process_webhook_event-Silent}
use farm_link.History.Effects.Payouts.{calculate_and_create_payouts-Still}
use farm_link.Concurrent.Frames.{create_contribution-Frame, close_pool-Frame}
use farm_link.History.Effects.Pools.{create_contribution-Effect, close_pool-Effect}
use farm_link.History.Effects.{Quiet, feed_jobs}
use farm_link.History.Shows.{
  Shows, silent, created, Shown, and_then, once, Effect-Shows, Quiet-Shows, place_order-Shows,
  create_order-Shows, release-Shows, list_pools-Shows, get_pool-Shows,
}

abbrev Created : PoolCreate → State → Result Pool × State → Type 0
Created input s (err e, t) = Quiet s t
Created input s (ok p, t) =
    (t.committed.pools ≡ s.committed.pools ++ p ∷ [])
    × (t.cache ≡ cache_delete (invalidated_keys none) s.cache)
    × (t.jobs ≡ s.jobs)
    × (t.feed ≡ s.feed)

create_pool-Created :
    (input : PoolCreate) (s : State) → Created input s (with_session (create_pool input) s)
unfolding with_session create_pool commit uuid4 insert_pool invalidate_pool_cache
create_pool-Created input s = ground arith

Created-Shows :
    (input : PoolCreate) (s : State) (x : Result Pool × State) → Created input s x → Shows s x.1
Created-Shows input s (err e, t) quiet = Quiet-Shows s t quiet
Created-Shows input s (ok p, t) (pools, cache, jobs, feed) =
    created p pools cache (ap feed_jobs jobs) feed

-- A delivery changes no pool.
Delivered-pools :
    (p : Platform) (e : Incoming) (s : State) (result : Result ⊤) (db : Database)
    → Delivered p e s (result, db)
    → db.pools ≡ s.committed.pools
unfolding with_event paid_database
Delivered-pools p e s (err x) db same = ap (λ (db : Database). db.pools) same
Delivered-pools p e s (ok a) db (inl (known, same)) = ap (λ (db : Database). db.pools) same
Delivered-pools p e s (ok a) db (inr (new, inl same)) = ap (λ (db : Database). db.pools) same
Delivered-pools p e s (ok a) db
      (inr (
        new,
        inr (
          charged,
          (id_text, order_id, order, amount, refers, parsed, there, unpaid, read, same),
        ),
      )) =
    ap (λ (db : Database). db.pools) same

Webhook-pools :
    (p : Platform) (raw_body : Bytes) (signature : String) (s : State) (result : Result ⊤)
    (db : Database)
    → Paying.Outcome p raw_body signature s (result, db)
    → db.pools ≡ s.committed.pools
Webhook-pools p raw_body signature s (err e) db same = ap (λ (db : Database). db.pools) same
Webhook-pools p raw_body signature s (ok a) db (signed, e, read, d) =
    Delivered-pools p e s (ok a) db d

Payout-pools :
    (pool_id : Uuid) (s : State) (result : Result _) (db : Database)
    → Sharing.Outcome pool_id s (result, db)
    → db.pools ≡ s.committed.pools
Payout-pools pool_id s (err e) db same = ap (λ (db : Database). db.pools) same
Payout-pools pool_id s (ok ps) db (_, _, _, _, inl (_, _, same)) =
    ap (λ (db : Database). db.pools) same
Payout-pools pool_id s (ok ps) db (_, _, _, _, inr (_, _, _, _, same)) =
    ap (λ (db : Database). db.pools) same

release_each-Shown :
    (ids : List Uuid) (cutoff : Time) (n : ℕ) (s t : State)
    → Shown s t
    → Shown s (release_each ids cutoff n t).1
unfolding release_each
release_each-Shown [] cutoff n s t h = h
release_each-Shown (id ∷ ids) cutoff n s t h =
    let (outcome, u) = release_one_expired_order id cutoff t in
    release_each-Shown ids cutoff (counted outcome n) s u (and_then h (release-Shows id cutoff t))

sweep-Shown :
    (max_age_hours : Option ℕ) (s : State) → Shown s (sweep_expired_orders max_age_hours s).1
unfolding sweep_expired_orders with_session
sweep-Shown max_age_hours s =
    let cutoff = cutoff_time s.now (max_age max_age_hours) in
    let began = record s { working = s.committed } in
    release_each-Shown (candidate_ids cutoff s.committed) cutoff 0 s began
      (once s began (silent refl (refl, refl, refl)))

pub step-Shown : (p : Platform) (r : Request) (s : State) → Shown s (step p r s)
unfolding step
step-Shown p (creates input) s = once s _ (Created-Shows input s _ (create_pool-Created input s))
step-Shown p (closes pool_id) s =
    once s _
      (Effect-Shows pool_id none s _ (close_pool-Effect pool_id s) (close_pool-Frame pool_id s))
step-Shown p (lists status_filter) s = once s _ (list_pools-Shows status_filter s)
step-Shown p (views pool_id) s = once s _ (get_pool-Shows pool_id s)
step-Shown p (contributes farmer_id pool_id qty) s = once s _ (
    Effect-Shows pool_id none s _ (create_contribution-Effect farmer_id pool_id qty s)
      (create_contribution-Frame farmer_id pool_id qty s))
step-Shown p (places r) s = once s _ (create_order-Shows r s)
step-Shown p (resumes r) s = once s _ (place_order-Shows r s)
step-Shown p (releases order_id cutoff) s = once s _ (release-Shows order_id cutoff s)
step-Shown p (delivers raw_body signature) s = once s _ (
    silent
      (Webhook-pools p raw_body signature s _ _
        (process_webhook_event-Outcome p raw_body signature s))
      (process_webhook_event-Silent p raw_body signature s))
step-Shown p (distributes pool_id) s =
    let (cache, jobs, feed) = calculate_and_create_payouts-Still pool_id s in
    once s _ (
      silent (Payout-pools pool_id s _ _ (calculate_and_create_payouts-Outcome pool_id s))
        (cache, ap feed_jobs jobs, feed))
step-Shown p (sweeps max_age_hours) s = sweep-Shown max_age_hours s
step-Shown p (waits seconds) s = once s _ (silent refl (refl, refl, refl))
