-- ===== src/Tests/Program.antt =====
-- The program as a whole: its cache, its worker, its settings, and the middleware.
use farm_link.Common.{
  length, split_on, none_of, first, ℕ, ◌+◌, ◌≡◌, refl, true, false, Option, none, some, List, [],
  ◌∷◌, map, find, arith,
}
use farm_link.Schema.{Time, PoolStatus, pool_key, has_email}
use farm_link.Session.{ok, with_session, update_user, commit}
use farm_link.Pools.{listed_pools, list_pools, get_pool}
use farm_link.History.{Request, lists, views, contributes, run}
use farm_link.History.Fresh.{IsFresh, row_or_missing, run-reads_table}
use farm_link.History.Mirror.{sent}
use farm_link.Cache.{cache_get}
use farm_link.Worker.{FirestoreSettings, Sdk, is_set, work, new_worker}
use farm_link.Worker.Copies.{copied, run-Copies}
use farm_link.Worker.Unconfigured.{warnings, work-unconfigured}
use farm_link.Config.{Settings}
use farm_link.App.{Process, start}
use farm_link.Auth.{bootstrap_admin, ensure_admin}
use farm_link.Auth.Accounts.{HasAdmin}
use farm_link.App.{schedule, bootstrap}
use farm_link.App.Start.{Scheduled, start-HasAdmin}
use farm_link.Feed.{Message, subscribe_confirmation, message, event_stream, body}
use farm_link.Feed.Stream.{subscribed, published, silence, events, is_newline, event_stream-events}
use farm_link.Tests.Access.{stub_crypto}
use farm_link.Tests.Market.{market, stub_platform}

empty_cache-IsFresh : IsFresh market.cache market.committed.pools
unfolding cache_get
empty_cache-IsFresh key now value hit = absurd (ground arith)

-- A listing and a pool are cached, and a contribution changes the pool.
abbrev browsing : List Request
browsing = lists none ∷ views 1 ∷ contributes 20 1 5 ∷ views 1 ∷ []

run-reads_table_example :
    let t = run stub_platform browsing market in
    ((f : Option PoolStatus)
      → (with_session (list_pools f) t).0 ≡ ok (listed_pools f t.committed.pools))
    × ((k : ℕ)
        → (with_session (get_pool k) t).0 ≡ row_or_missing (find pool_key k t.committed.pools))
run-reads_table_example = run-reads_table stub_platform browsing market empty_cache-IsFresh

abbrev firestore : FirestoreSettings
firestore = record { firestore_project_id = some "farm"; firestore_credentials_path = none }

abbrev willing : Sdk
willing = record { connects = λ c. true; takes = λ c d. true }

abbrev each_second : ℕ → Time
each_second i = 86500 + i

run-Copies_example :
    let t = run stub_platform browsing market in
    let w = work firestore willing each_second 0 t.jobs new_worker in
    (map copied w.documents ≡ map sent t.feed) × (w.failed ≡ [])
unfolding is_set
run-Copies_example =
    run-Copies firestore willing stub_platform browsing market each_second
      (record { has_project = refl; connects = λ c. refl; takes = λ c d. refl }) refl refl

abbrev no_firestore : FirestoreSettings
no_firestore = record { firestore_project_id = none; firestore_credentials_path = none }

work-unconfigured_example :
    let t = run stub_platform browsing market in
    let w = work no_firestore willing each_second 0 t.jobs new_worker in
    (w.documents ≡ []) × (w.failed ≡ []) × (warnings w.log ≡ length t.feed)
unfolding is_set
work-unconfigured_example =
    work-unconfigured no_firestore willing stub_platform browsing market each_second refl refl refl

abbrev production : Settings
production = record {
  app_name = "FarmLink";
  environment = "production";
  api_v1_prefix = "/api/v1";
  database_url = "";
  redis_url = "";
  jwt_secret = "";
  jwt_algorithm = "HS256";
  jwt_expire_minutes = 1440;
  rate_limit_requests = 100;
  rate_limit_window_seconds = 60;
  auth_rate_limit_requests = 5;
  auth_rate_limit_window_seconds = 300;
  pool_cache_ttl_seconds = 30;
  sweep_order_max_age_hours = 24;
  sweep_interval_minutes = 60;
  disable_scheduler = false;
  cors_allowed_origins = "a, b";
  paystack_secret_key = "";
  paystack_public_key = "";
  paystack_webhook_ip_allowlist = true;
  admin_bootstrap_email = some "ada@x.ng";
  admin_bootstrap_password = some "plantain";
  firestore_project_id = none;
  firestore_credentials_path = none;
}

abbrev stopped : Process
stopped = record { scheduled = []; running = false; redis_open = true }

start-HasAdmin_example :
    HasAdmin "ada@x.ng" (start stub_crypto "s" production stopped market).1.committed
    × Scheduled production stopped (schedule production stopped)
unfolding is_set start bootstrap with_session bootstrap_admin ensure_admin update_user commit first
    has_email
start-HasAdmin_example =
    start-HasAdmin stub_crypto "s" production stopped market (schedule production stopped) refl refl
      refl

abbrev two_messages : List Message
two_messages =
    subscribe_confirmation ∷ message ("o" ∷ "n" ∷ "e" ∷ []) ∷ message ("t" ∷ "w" ∷ "o" ∷ []) ∷ []

event_stream-events_example :
    events none (split_on is_newline (body (event_stream two_messages)))
    ≡ ("o" ∷ "n" ∷ "e" ∷ []) ∷ ("t" ∷ "w" ∷ "o" ∷ []) ∷ []
unfolding none_of
event_stream-events_example =
    event_stream-events (subscribed (published _ (published _ silence))) (refl, (refl, tt))
