-- ===== src/History/Effects.antt =====
-- What an operation does to the cache, the queue and the feeds, besides its commit.
pub mod Pools
pub mod Orders
pub mod Payments
pub mod Payouts
use farm_link.Common.{
  ⊤, ℕ, ◌+◌, ◌-◌, ◌≡◌, ◌⊎◌, inl, inr, refl, Option, none, some, List, [], ◌∷◌, ◌++◌, Option-cases,
  Bool-cases, arith, find, ap, ltb, not, true, false, map, subst, sym, ◌∙◌, replace,
}
use mathlib.Core.List.{append-nil}
use farm_link.Schema.{
  Uuid, Pool, Order, Contribution, Database, pool_key, order_key, admit_pool_update, admit_order,
  is_opened, integrity_error, data_error, is_pending,
}
use farm_link.Session.{
  State, Result, ok, err, Job, Published, FeedEvent, order_placed, contribution_added,
  order_expired, pool_closed, write_pool_feed_event, send_order_confirmation_email,
  notify_admin_of_new_order, send_payment_confirmation_email, with_session, commit, rollback, uuid4,
  update_pool, update_order, insert_order, insert_allocation, insert_contribution, enqueue,
  publish_event, publish_pool_event,
}
use farm_link.Cache.{cache_delete}
use farm_link.Pools.{invalidate_pool_cache, invalidated_keys, close_pool, close_from}
use farm_link.Contributions.{create_contribution, contribute_from}
use farm_link.Orders.{
  OrderRequest, new_order, reduced, complete_order, recover_order, place_order, find_retried,
}
use farm_link.Orders.Placement.{order_of}

-- Nothing is seen from outside.
abbrev pub Quiet : State → State → Type 0
Quiet s t =
    (t.committed.pools ≡ s.committed.pools)
    × (t.cache ≡ s.cache)
    × (t.jobs ≡ s.jobs)
    × (t.feed ≡ s.feed)

-- A message on a feed.
abbrev pub message : Uuid → FeedEvent → State → Published
message pool_id event s = record { pool_id = pool_id; event = event; timestamp = s.now }

-- The pool's cache entries are deleted, and the event is sent and put in the queue.
abbrev pub Announces : Uuid → FeedEvent → State → State → Type 0
Announces pool_id event s t =
    (t.cache ≡ cache_delete (invalidated_keys (some pool_id)) s.cache)
    × (t.jobs ≡ s.jobs ++ write_pool_feed_event pool_id event ∷ [])
    × (t.feed ≡ s.feed ++ message pool_id event s ∷ [])

-- The events in the queue, for the durable copies.
unfoldable pub feed_jobs : List Job → List (Uuid × FeedEvent)
feed_jobs [] = []
feed_jobs (write_pool_feed_event pool_id event ∷ jobs) = (pool_id, event) ∷ feed_jobs jobs
feed_jobs (send_order_confirmation_email buyer_email order_id qty total ∷ jobs) = feed_jobs jobs
feed_jobs (notify_admin_of_new_order order_id pool_id buyer_email qty ∷ jobs) = feed_jobs jobs
feed_jobs (send_payment_confirmation_email buyer_email order_id amount ∷ jobs) = feed_jobs jobs

pub feed_jobs-append : (xs ys : List Job) → feed_jobs (xs ++ ys) ≡ feed_jobs xs ++ feed_jobs ys
unfolding feed_jobs
feed_jobs-append [] ys = refl
feed_jobs-append (write_pool_feed_event pool_id event ∷ xs) ys =
    ap (λ zs. (pool_id, event) ∷ zs) (feed_jobs-append xs ys)
feed_jobs-append (send_order_confirmation_email buyer_email order_id qty total ∷ xs) ys =
    feed_jobs-append xs ys
feed_jobs-append (notify_admin_of_new_order order_id pool_id buyer_email qty ∷ xs) ys =
    feed_jobs-append xs ys
feed_jobs-append (send_payment_confirmation_email buyer_email order_id amount ∷ xs) ys =
    feed_jobs-append xs ys

-- Neither the cache nor a feed is touched.
abbrev pub Silent : State → State → Type 0
Silent s t = (t.cache ≡ s.cache) × (feed_jobs t.jobs ≡ feed_jobs s.jobs) × (t.feed ≡ s.feed)

-- The pool's cache entries are deleted, and one event goes to its feed and to the queue.
abbrev pub Announced : Uuid → State → State → Type 0
Announced pool_id s t =
    (t.cache ≡ cache_delete (invalidated_keys (some pool_id)) s.cache)
    × (event : FeedEvent) × (feed_jobs t.jobs ≡ feed_jobs s.jobs ++ (pool_id, event) ∷ [])
    × (t.feed ≡ s.feed ++ message pool_id event s ∷ [])

-- What a change of one pool shows.
abbrev pub Effect : Uuid → State → State → Type 0
Effect pool_id s t = ((t.committed.pools ≡ s.committed.pools) × Silent s t) ⊎ Announced pool_id s t

pub Quiet-Effect : (pool_id : Uuid) (s t : State) → Quiet s t → Effect pool_id s t
Quiet-Effect pool_id s t (pools, cache, jobs, feed) = inl (pools, (cache, ap feed_jobs jobs, feed))

pub Announces-Effect :
    (pool_id : Uuid) (event : FeedEvent) (s t : State)
    → Announces pool_id event s t
    → Effect pool_id s t
unfolding feed_jobs
Announces-Effect pool_id event s t (cache, jobs, feed) =
    inr (cache, event, ap feed_jobs jobs ∙ feed_jobs-append s.jobs _, feed)
