-- ===== src/Session/Types.antt =====
-- What a request handler can see and change: the database as last committed and as its session
-- has it, the Redis cache, the job queue (app/core/jobs.py), the events sent to the pools' feeds
-- (app/core/realtime.py), the clock, and the identifiers that `uuid.uuid4` is going to return.
use farm_link.Common.{ℕ, String, List}
use farm_link.Schema.{Uuid, Kobo, Time, Database, DbError}
use farm_link.Cache.{Cache}

-- The `event_type` and the `data` of an event on a pool's feed.
pub data FeedEvent : Type 0 where
  pool_closed : FeedEvent
  contribution_added : (farmer_id : Uuid) (qty available_qty : ℕ) → FeedEvent
  order_placed : (order_id : Uuid) (qty available_qty : ℕ) → FeedEvent
  order_expired : (order_id : Uuid) (qty available_qty : ℕ) → FeedEvent

-- A job in the queue: the function, with its arguments.
pub data Job : Type 0 where
  send_order_confirmation_email :
      (buyer_email : String) (order_id : Uuid) (qty : ℕ) (total : Kobo) → Job
  notify_admin_of_new_order : (order_id pool_id : Uuid) (buyer_email : String) (qty : ℕ) → Job
  send_payment_confirmation_email : (buyer_email : String) (order_id : Uuid) (amount : Kobo) → Job
  write_pool_feed_event : (pool_id : Uuid) (event : FeedEvent) → Job

-- A message on the channel "feed:pool:<id>".
pub record Published : Type 0 where
  pub pool_id : Uuid
  pub event : FeedEvent
  pub timestamp : Time

pub record State : Type 0 where
  pub committed : Database
  pub working : Database
  pub cache : Cache
  pub jobs : List Job
  pub feed : List Published
  pub now : Time
  pub uuids : ℕ → Uuid
  pub drawn : ℕ

-- The exceptions of the services, and those of the libraries that reach them.
pub data Exn : Type 0 where
  pool_not_found pool_closed insufficient_stock : Exn
  pool_already_closed pool_not_closed pool_already_paid_out : Exn
  order_not_found order_not_owned_by_buyer order_not_pending : Exn
  invalid_webhook_signature : Exn
  email_already_registered invalid_credentials user_not_found : Exn
  value_error attribute_error key_error json_decode_error decimal_error upstream_error : Exn
  response_validation_error : Exn
  http_exception : (status_code : ℕ) → Exn
  database : DbError → Exn

pub data Result {ℓ} (A : Type ℓ) : Type ℓ where
  ok : A → Result A
  err : Exn → Result A
