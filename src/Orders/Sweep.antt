-- ===== src/Orders/Sweep.antt =====
-- The sweep of app/features/orders/service.py: it gives the stock of unpaid orders back.
pub mod Release
pub mod Invariant
pub mod Due
use farm_link.Common.{
  ⊤, ℕ, ◌+◌, ◌-◌, ◌*◌, Bool, true, false, Option, none, some, List, [], ◌∷◌, ltb, leb,
  if◌then◌else◌, ◌&&◌, ◌||◌, not, find, select, map,
}
use farm_link.Schema.{Uuid, Time, Pool, Order, expired, is_pending, order_key, Database}
use farm_link.Session.{
  State, Result, ok, err, order_expired, Action, pure, gets, ◌>>=◌, ◌>>◌, branch, attempt, commit,
  with_session, update_pool, update_order, publish_pool_event,
}
use farm_link.Pools.{select_pool, invalidate_pool_cache}

abbrev pub restocked : Pool → ℕ → Pool
restocked pool qty = record pool { available_qty = pool.available_qty + qty }

-- `if pool is not None: pool.available_qty += order.qty`
abbrev restock : Option Pool → ℕ → Action ⊤
restock none qty = pure tt
restock (some pool) qty = update_pool (restocked pool qty)

-- The transaction past the three checks: the order, and its pool as the second lock found it.
abbrev pub expire_from : Order → Option Pool → Action (Option (Order × Option Pool))
expire_from order pool = do
  restock pool order.qty
  update_order (record order { status = expired })
  commit
  pure (some (order, pool))

unfoldable pub expire_order : Order → Action (Option (Order × Option Pool))
expire_order order = do pool ← select_pool order.pool_id; expire_from order pool

-- The checks under the lock on the order's row: `none` where nothing is to be released.
unfoldable pub expire_if_due : Option Order → Time → Action (Option (Order × Option Pool))
unfolding expire_order
expire_if_due none cutoff = pure none
expire_if_due (some order) cutoff =
    branch (not (is_pending order.status) || leb cutoff order.created_at) (pure none)
      (expire_order order)

-- After the session has closed.
unfoldable pub announce_expiry : Option (Order × Option Pool) → Action Bool
announce_expiry none = pure false
announce_expiry (some (order, none)) = pure true
announce_expiry (some (order, some pool)) = do
  invalidate_pool_cache (some pool.id)
  publish_pool_event pool.id
      (order_expired order.id order.qty (restocked pool order.qty).available_qty)
  pure true

-- `_release_one_expired_order`
unfoldable pub release_one_expired_order : Uuid → Time → Action Bool
release_one_expired_order order_id cutoff = do
  outcome ←
      with_session
        do row ← gets (λ s. find order_key order_id s.working.orders); expire_if_due row cutoff
  announce_expiry outcome

-- `Order.status == PENDING, Order.created_at < cutoff`
abbrev pub is_candidate : Time → Order → Bool
is_candidate cutoff o = is_pending o.status && ltb o.created_at cutoff

unfoldable pub candidate_ids : Time → Database → List Uuid
candidate_ids cutoff db = map (λ o. o.id) (select (is_candidate cutoff) db.orders)

-- `released_count` after one candidate, an exception included.
abbrev pub counted : Result Bool → ℕ → ℕ
counted (ok true) n = n + 1
counted (ok false) n = n
counted (err e) n = n

unfoldable pub release_each : List Uuid → Time → ℕ → Action ℕ
release_each [] cutoff released = pure released
release_each (id ∷ ids) cutoff released = do
  outcome ← attempt (release_one_expired_order id cutoff)
  release_each ids cutoff (counted outcome released)

-- `Settings.sweep_order_max_age_hours`
abbrev pub sweep_order_max_age_hours : ℕ
sweep_order_max_age_hours = 24

abbrev pub seconds_per_hour : ℕ
seconds_per_hour = 3600

abbrev pub max_age : Option ℕ → ℕ
max_age none = sweep_order_max_age_hours
max_age (some hours) = hours

-- `now - timedelta(hours=hours)`: times are counted from far enough back that this is no loss.
abbrev pub cutoff_time : Time → ℕ → Time
cutoff_time now hours = now - hours * seconds_per_hour

unfoldable pub sweep_expired_orders : Option ℕ → Action ℕ
unfolding release_each candidate_ids
sweep_expired_orders max_age_hours = do
  now ← gets (λ s. s.now)
  let cutoff = cutoff_time now (max_age max_age_hours)
  ids ← with_session (gets (λ s. candidate_ids cutoff s.working))
  release_each ids cutoff 0
