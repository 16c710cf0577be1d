-- ===== src/Session/Writes.antt =====
-- The statements that the services send: each checks its row, and writes it to the session.
use farm_link.Common.{⊤, ◌+◌, [], ◌∷◌, ◌++◌, replace}
use farm_link.Schema.{
  Uuid, User, Pool, Contribution, Order, Allocation, Payment, ProcessedEvent, Payout, Database,
  user_key, pool_key, order_key, admit_pool_update, admit_pool, admit_contribution, admit_order,
  admit_allocation, admit_payment, admit_event, admit_payout, admit_user,
}
use farm_link.Session.Types.{FeedEvent, Job, write_pool_feed_event, Published, ok}
use farm_link.Session.Monad.{Action, gets, ◌>>=◌, ◌>>◌, modify, admitted}

-- `uuid.uuid4()`, the default of every primary key.
unfoldable pub uuid4 : Action Uuid
uuid4 s = (ok (s.uuids s.drawn), record s { drawn = s.drawn + 1 })

abbrev on_working : (Database → Database) → Action ⊤
on_working f = modify (λ s. record s { working = f s.working })

-- UPDATE of a pool, an order or a user that was read before.
unfoldable pub update_pool : Pool → Action ⊤
update_pool p = do
  admitted (admit_pool_update p)
  on_working (λ db. record db { pools = replace pool_key p db.pools })

unfoldable pub update_order : Order → Action ⊤
update_order o = on_working (λ db. record db { orders = replace order_key o db.orders })

unfoldable pub update_user : User → Action ⊤
update_user u = on_working (λ db. record db { users = replace user_key u db.users })

-- INSERT, table by table.
unfoldable pub insert_pool : Pool → Action ⊤
insert_pool p = do
  admitted (admit_pool (← gets (λ s. s.working)) p)
  on_working (λ db. record db { pools = db.pools ++ p ∷ [] })

unfoldable pub insert_contribution : Contribution → Action ⊤
insert_contribution c = do
  admitted (admit_contribution (← gets (λ s. s.working)) c)
  on_working (λ db. record db { contributions = db.contributions ++ c ∷ [] })

unfoldable pub insert_order : Order → Action ⊤
insert_order o = do
  admitted (admit_order (← gets (λ s. s.working)) o)
  on_working (λ db. record db { orders = db.orders ++ o ∷ [] })

unfoldable pub insert_allocation : Allocation → Action ⊤
insert_allocation a = do
  admitted (admit_allocation (← gets (λ s. s.working)) a)
  on_working (λ db. record db { allocations = db.allocations ++ a ∷ [] })

unfoldable pub insert_payment : Payment → Action ⊤
insert_payment p = do
  admitted (admit_payment (← gets (λ s. s.working)) p)
  on_working (λ db. record db { payments = db.payments ++ p ∷ [] })

unfoldable pub insert_event : ProcessedEvent → Action ⊤
insert_event e = do
  admitted (admit_event (← gets (λ s. s.working)) e)
  on_working (λ db. record db { processed_events = db.processed_events ++ e ∷ [] })

unfoldable pub insert_payout : Payout → Action ⊤
insert_payout p = do
  admitted (admit_payout (← gets (λ s. s.working)) p)
  on_working (λ db. record db { payouts = db.payouts ++ p ∷ [] })

unfoldable pub insert_user : User → Action ⊤
insert_user u = do
  admitted (admit_user (← gets (λ s. s.working)) u)
  on_working (λ db. record db { users = db.users ++ u ∷ [] })

-- `enqueue`
unfoldable pub enqueue : Job → Action ⊤
enqueue job = modify (λ s. record s { jobs = s.jobs ++ job ∷ [] })

-- `publish_event`
unfoldable pub publish_event : Uuid → FeedEvent → Action ⊤
publish_event pool_id event s = (ok tt, record s { feed = s.feed ++ message ∷ [] })
  where
    message : Published
    message = record { pool_id = pool_id; event = event; timestamp = s.now }

-- `publish_pool_event`: the live message first, then the job for the durable copy.
unfoldable pub publish_pool_event : Uuid → FeedEvent → Action ⊤
unfolding publish_event enqueue
publish_pool_event pool_id event = do
  publish_event pool_id event
  enqueue (write_pool_feed_event pool_id event)
