-- ===== src/History/Effects/Orders.antt =====
-- The effects of a placement and of a release.
use farm_link.Common.{
  Bool, ℕ, ◌+◌, ◌≡◌, ◌⊎◌, inl, inr, refl, none, some, [], ◌∷◌, ◌++◌, Option-cases, Bool-cases,
  arith, find, ap, ltb, true, false, ◌∙◌, replace,
}
use mathlib.Core.List.{append-nil}
use farm_link.Schema.{
  Uuid, Pool, Order, Database, pool_key, order_key, admit_pool_update, admit_order, is_opened,
  integrity_error, data_error,
}
use farm_link.Session.{
  State, Result, ok, err, order_placed, order_expired, write_pool_feed_event,
  send_order_confirmation_email, notify_admin_of_new_order, with_session, commit, rollback, uuid4,
  update_pool, update_order, insert_order, insert_allocation, enqueue, publish_event,
  publish_pool_event,
}
use farm_link.Cache.{cache_delete}
use farm_link.Pools.{invalidate_pool_cache, invalidated_keys}
use farm_link.Orders.{OrderRequest, reduced, complete_order, recover_order, place_order}
use farm_link.Orders.Placement.{order_of}
use farm_link.Orders.Sweep.{release_one_expired_order, expire_if_due, expire_order, announce_expiry}
use farm_link.History.Effects.{
  Quiet, message, Announces, feed_jobs, feed_jobs-append, Silent, Announced, Effect, Quiet-Effect,
  Announces-Effect,
}

abbrev Completed : OrderRequest → Pool → Order → State → Result Order × State → Type 0
Completed r pool order s (err e, t) = Quiet s t
Completed r pool order s (ok o, t) =
    (t.cache ≡ cache_delete (invalidated_keys (some r.pool_id)) s.cache)
    × (t.jobs
        ≡ ((s.jobs ++ send_order_confirmation_email r.buyer_email order.id r.qty order.total ∷ [])
            ++ notify_admin_of_new_order order.id r.pool_id r.buyer_email r.qty ∷ [])
          ++ write_pool_feed_event r.pool_id
              (order_placed order.id r.qty (reduced pool r.qty).available_qty)
            ∷ [])
    × (t.feed
        ≡ s.feed
          ++ message r.pool_id (order_placed order.id r.qty (reduced pool r.qty).available_qty) s
            ∷ [])

complete_order-Completed :
    (r : OrderRequest) (pool : Pool) (order : Order) (s : State)
    → Completed r pool order s (complete_order r pool order s)
unfolding complete_order commit uuid4 insert_allocation enqueue publish_pool_event publish_event
    invalidate_pool_cache
complete_order-Completed r pool order s = ground arith

recover_order-Quiet : (r : OrderRequest) (s : State) → Quiet s (recover_order r s).1
unfolding recover_order rollback
recover_order-Quiet r s = ground arith

Completed-Effect :
    (r : OrderRequest) (pool : Pool) (order : Order) (s : State) (x : Result Order × State)
    → Completed r pool order s x
    → Effect r.pool_id s x.1
unfolding feed_jobs
Completed-Effect r pool order s (err e, t) quiet = Quiet-Effect r.pool_id s t quiet
Completed-Effect r pool order s (ok o, t) (cache, jobs, feed) =
    inr (cache, _, ap feed_jobs jobs ∙ simp (feed_jobs-append, append-nil), feed)

-- Seen from the begin of the session.
recover_order-Effect :
    (r : OrderRequest) (s : State) (working : Database) (drawn : ℕ)
    → Effect r.pool_id s (recover_order r (record s { working = working; drawn = drawn })).1
recover_order-Effect r s working drawn =
    let t = record s { working = working; drawn = drawn } in
    Quiet-Effect r.pool_id s (recover_order r t).1 (recover_order-Quiet r t)

complete_order-Effect :
    (r : OrderRequest) (pool : Pool) (order : Order) (s : State) (working : Database) (drawn : ℕ)
    → Effect r.pool_id s
        (complete_order r pool order (record s { working = working; drawn = drawn })).1
complete_order-Effect r pool order s working drawn =
    let t = record s { working = working; drawn = drawn } in
    Completed-Effect r pool order s (complete_order r pool order t)
      (complete_order-Completed r pool order t)

pub place_order-Effect :
    (r : OrderRequest) (s : State) → Effect r.pool_id s (with_session (place_order r) s).1
unfolding with_session place_order uuid4 update_pool insert_order order_of
place_order-Effect r s = elim (Option-cases (find pool_key r.pool_id s.committed.pools)) [
  | inl absent ↦ rw absent nothing
  | inr (pool, there) ↦ elim (Bool-cases (is_opened pool.status)) [
    | inr shut ↦ rw (there, shut) nothing
    | inl open_now ↦ elim (Bool-cases (ltb pool.available_qty r.qty)) [
      | inl short ↦ rw (there, open_now, short) nothing
      | inr enough ↦
          let db = s.committed in
          let order = order_of r pool s in
          let stocked : Database = record db {
            pools = replace pool_key (reduced pool r.qty) db.pools;
          } in
          let written : Database = record stocked { orders = stocked.orders ++ order ∷ [] } in
          let drawn = s.drawn + 1 in
          elim (Option-cases (admit_pool_update (reduced pool r.qty))) [
            | inr (integrity_error, bad) ↦
                rw (there, open_now, enough, bad) (recover_order-Effect r s db drawn)
            | inr (data_error, bad) ↦ rw (there, open_now, enough, bad) nothing
            | inl fine ↦ elim (Option-cases (admit_order stocked order)) [
              | inr (integrity_error, bad) ↦
                  rw (there, open_now, enough, fine, bad) (recover_order-Effect r s stocked drawn)
              | inr (data_error, bad) ↦ rw (there, open_now, enough, fine, bad) nothing
              | inl new ↦
                  rw (there, open_now, enough, fine, new)
                    (complete_order-Effect r pool order s written drawn)
            ]
          ]
    ]
  ]
]
  where
    nothing : ((s.committed.pools ≡ s.committed.pools) × Silent s s) ⊎ Announced r.pool_id s s
    nothing = inl (refl, (refl, refl, refl))

abbrev Released : Order → Pool → State → Result Bool × State → Type 0
Released order pool s (err e, t) = Quiet s t
Released order pool s (ok false, t) = Quiet s t
Released order pool s (ok true, t) =
    Announces pool.id (order_expired order.id order.qty (pool.available_qty + order.qty)) s t

release-Released :
    (order_id : Uuid) (cutoff : ℕ) (order : Order) (pool : Pool) (s : State)
    → find order_key order_id s.committed.orders ≡ some order
    → find pool_key order.pool_id s.committed.pools ≡ some pool
    → Released order pool s (release_one_expired_order order_id cutoff s)
unfolding with_session release_one_expired_order expire_if_due expire_order announce_expiry commit
    update_pool update_order publish_pool_event publish_event enqueue invalidate_pool_cache
release-Released order_id cutoff order pool s e there = ground arith

pub release-no_pool :
    (order_id : Uuid) (cutoff : ℕ) (order : Order) (s : State)
    → find order_key order_id s.committed.orders ≡ some order
    → find pool_key order.pool_id s.committed.pools ≡ none
    → Quiet s (release_one_expired_order order_id cutoff s).1
unfolding with_session release_one_expired_order expire_if_due expire_order announce_expiry commit
    update_pool update_order publish_pool_event publish_event enqueue invalidate_pool_cache
release-no_pool order_id cutoff order s e there = ground arith

pub release-no_order :
    (order_id : Uuid) (cutoff : ℕ) (s : State)
    → find order_key order_id s.committed.orders ≡ none
    → Quiet s (release_one_expired_order order_id cutoff s).1
unfolding with_session release_one_expired_order expire_if_due expire_order announce_expiry commit
    update_pool update_order publish_pool_event publish_event enqueue invalidate_pool_cache
release-no_order order_id cutoff s e = ground arith

Released-Effect :
    (order : Order) (pool : Pool) (s : State) (x : Result Bool × State)
    → Released order pool s x
    → Effect pool.id s x.1
Released-Effect order pool s (err e, t) quiet = Quiet-Effect pool.id s t quiet
Released-Effect order pool s (ok false, t) quiet = Quiet-Effect pool.id s t quiet
Released-Effect order pool s (ok true, t) shown = Announces-Effect pool.id _ s t shown

pub release-Effect :
    (order_id : Uuid) (cutoff : ℕ) (order : Order) (pool : Pool) (s : State)
    → find order_key order_id s.committed.orders ≡ some order
    → find pool_key order.pool_id s.committed.pools ≡ some pool
    → Effect pool.id s (release_one_expired_order order_id cutoff s).1
release-Effect order_id cutoff order pool s e there =
    Released-Effect order pool s _ (release-Released order_id cutoff order pool s e there)
