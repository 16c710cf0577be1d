-- ===== src/Worker.antt =====
-- The worker of app/worker.py: it runs the jobs of the queue, whose bodies are app/features/orders/tasks.py,
-- app/features/payments/tasks.py and app/features/feed/firestore_client.py. A log line is the
-- constructor for its text. RQ takes the jobs in the order in which they were put, forks a process for
-- each, and keeps a job that raises among the failed ones.
pub mod Copies
pub mod Unconfigured
use farm_link.Common.{
  ℕ, ◌+◌, Bool, true, false, not, String, str_eq, Option, none, some, List, [], ◌∷◌, ◌++◌,
  if◌then◌else◌,
}
use farm_link.Schema.{Uuid, Kobo, Time}
use farm_link.Session.{
  FeedEvent, Job, write_pool_feed_event, send_order_confirmation_email, notify_admin_of_new_order,
  send_payment_confirmation_email,
}

-- The settings that the client reads.
pub record FirestoreSettings : Type 0 where
  pub firestore_project_id : Option String
  pub firestore_credentials_path : Option String

-- `firestore.Client(...)`, by one of its two constructors
pub data Client : Type 0 where
  from_service_account_json : (path project : String) → Client
  with_project : (project : String) → Client

-- A document under pools/<pool_id>/feed.
pub record Document : Type 0 where
  pub pool_id : Uuid
  pub event : FeedEvent
  pub created_at : Time

-- Google's side of the SDK: whether a client can be made, and whether it takes a document. Where it
-- does not, the call raises.
pub record Sdk : Type 0 where
  pub connects : Client → Bool
  pub takes : Client → Document → Bool

pub data Line : Type 0 where
  order_confirmed : (buyer_email : String) (order_id : Uuid) (qty : ℕ) (total : Kobo) → Line
  new_order : (order_id pool_id : Uuid) (buyer_email : String) (qty : ℕ) → Line
  payment_received : (buyer_email : String) (order_id : Uuid) (amount : Kobo) → Line
  firestore_unconfigured : Line

-- The worker's process: the two globals of the client, and what it has left behind.
pub record Worker : Type 0 where
  pub client : Option Client
  pub warned_unconfigured : Bool
  pub documents : List Document
  pub log : List Line
  pub failed : List Job

-- `if text:` of a text that may be `None`
unfoldable pub is_set : Option String → Bool
is_set none = false
is_set (some text) = not (str_eq text "")

text_of : Option String → String
text_of none = ""
text_of (some text) = text

abbrev pub say : Line → Worker → Worker
say line w = record w { log = w.log ++ line ∷ [] }

-- What `_get_client` makes of the settings.
unfoldable pub client_of : FirestoreSettings → Client
unfolding text_of
client_of settings =
    if is_set settings.firestore_credentials_path
    then from_service_account_json (text_of settings.firestore_credentials_path)
        (text_of settings.firestore_project_id)
    else with_project (text_of settings.firestore_project_id)

-- A client, none where there is no project, or an exception of the SDK.
pub data Connection : Type 0 where
  connected : Client → Connection
  unconfigured : Connection
  connection_error : Connection

abbrev connect : Option Client → FirestoreSettings → Sdk → Worker → Connection × Worker
connect (some client) settings sdk w = (connected client, w)
connect none settings sdk w =
    let client = client_of settings in
    if sdk.connects client
    then (connected client, record w { client = some client })
    else (connection_error, w)

-- `_get_client`
unfoldable pub get_client : FirestoreSettings → Sdk → Worker → Connection × Worker
get_client settings sdk w =
    if not (is_set settings.firestore_project_id)
    then (
      unconfigured,
      if w.warned_unconfigured
          then w
          else record (say firestore_unconfigured w) { warned_unconfigured = true },
    )
    else connect w.client settings sdk w

-- Whether the job went through, and the worker after it.
abbrev add_document : Sdk → Document → Connection → Worker → Bool × Worker
add_document sdk document unconfigured w = (true, w)
add_document sdk document connection_error w = (false, w)
add_document sdk document (connected client) w =
    if sdk.takes client document
    then (true, record w { documents = w.documents ++ document ∷ [] })
    else (false, w)

-- `write_pool_feed_event`
unfoldable pub write_event :
    FirestoreSettings → Sdk → Time → Uuid → FeedEvent → Worker → Bool × Worker
write_event settings sdk now pool_id event w =
    let (connection, w') = get_client settings sdk w in
    add_document sdk (record { pool_id = pool_id; event = event; created_at = now }) connection w'

-- `reset_client_for_testing`
unfoldable pub reset_client : Worker → Worker
reset_client w = record w { client = none; warned_unconfigured = false }

-- `send_order_confirmation_email`, `notify_admin_of_new_order`, `send_payment_confirmation_email`
abbrev pub confirm_order : String → Uuid → ℕ → Kobo → Worker → Worker
confirm_order buyer_email order_id qty total = say (order_confirmed buyer_email order_id qty total)

abbrev pub notify_admin : Uuid → Uuid → String → ℕ → Worker → Worker
notify_admin order_id pool_id buyer_email qty = say (new_order order_id pool_id buyer_email qty)

abbrev pub confirm_payment : String → Uuid → Kobo → Worker → Worker
confirm_payment buyer_email order_id amount = say (payment_received buyer_email order_id amount)

-- A job's body.
unfoldable pub run_job : FirestoreSettings → Sdk → Time → Job → Worker → Bool × Worker
run_job settings sdk now (send_order_confirmation_email buyer_email order_id qty total) w =
    (true, confirm_order buyer_email order_id qty total w)
run_job settings sdk now (notify_admin_of_new_order order_id pool_id buyer_email qty) w =
    (true, notify_admin order_id pool_id buyer_email qty w)
run_job settings sdk now (send_payment_confirmation_email buyer_email order_id amount) w =
    (true, confirm_payment buyer_email order_id amount w)
run_job settings sdk now (write_pool_feed_event pool_id event) w =
    write_event settings sdk now pool_id event w

abbrev pub kept_if_failed : Job → Bool × Worker → Worker
kept_if_failed job (true, w) = w
kept_if_failed job (false, w) = record w { failed = w.failed ++ job ∷ [] }

-- The process that RQ forks for a job: the module's globals are as the worker has imported them.
abbrev pub forked : Worker → Worker
forked w = record w { client = none; warned_unconfigured = false }

-- The jobs of the queue, each at its time and in a process of its own.
unfoldable pub work : FirestoreSettings → Sdk → (ℕ → Time) → ℕ → List Job → Worker → Worker
work settings sdk clock i [] w = w
work settings sdk clock i (job ∷ jobs) w =
    let done = run_job settings sdk (clock i) job (forked w) in
    work settings sdk clock (i + 1) jobs (kept_if_failed job done)

-- A process that has just started.
abbrev pub new_worker : Worker
new_worker = record {
  client = none;
  warned_unconfigured = false;
  documents = [];
  log = [];
  failed = [];
}
