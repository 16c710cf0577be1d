-- ===== src/History.antt =====
-- A day in the life of the program: requests, webhook deliveries and runs of the sweep, one after the
-- other, each in its own session. A request that raises leaves what it had not committed.
pub mod Books
pub mod Effects
pub mod Shows
pub mod Steps
pub mod Fresh
pub mod Mirror
pub mod Paid
use farm_link.Common.{ℕ, ◌+◌, String, Option, List, [], ◌∷◌}
use farm_link.Schema.{Uuid, Time}
use farm_link.Session.{State, with_session}
use farm_link.Pools.{PoolCreate, create_pool, close_pool, get_pool, list_pools}
use farm_link.Schema.{PoolStatus}
use farm_link.Contributions.{create_contribution}
use farm_link.Orders.{OrderRequest, place_order, create_order}
use farm_link.Orders.Sweep.{release_one_expired_order, sweep_expired_orders}
use farm_link.Payments.Paystack.{Platform, Bytes}
use farm_link.Payments.{process_webhook_event}
use farm_link.Payouts.{calculate_and_create_payouts}

pub data Request : Type 0 where
  creates : PoolCreate → Request
  closes : (pool_id : Uuid) → Request
  lists : Option PoolStatus → Request
  views : (pool_id : Uuid) → Request
  contributes : (farmer_id pool_id : Uuid) (qty : ℕ) → Request
  places : OrderRequest → Request
  -- a placement past its first lookup, and the release of one order: parts of others, by themselves
  resumes : OrderRequest → Request
  releases : (order_id : Uuid) (cutoff : Time) → Request
  delivers : Bytes → (signature : String) → Request
  distributes : (pool_id : Uuid) → Request
  sweeps : Option ℕ → Request
  waits : (seconds : ℕ) → Request

unfoldable pub step : Platform → Request → State → State
step p (creates input) s = (with_session (create_pool input) s).1
step p (closes pool_id) s = (with_session (close_pool pool_id) s).1
step p (lists status_filter) s = (with_session (list_pools status_filter) s).1
step p (views pool_id) s = (with_session (get_pool pool_id) s).1
step p (contributes farmer_id pool_id qty) s =
    (with_session (create_contribution farmer_id pool_id qty) s).1
step p (places r) s = (with_session (create_order r) s).1
step p (resumes r) s = (with_session (place_order r) s).1
step p (releases order_id cutoff) s = (release_one_expired_order order_id cutoff s).1
step p (delivers raw_body signature) s =
    (with_session (process_webhook_event p raw_body signature) s).1
step p (distributes pool_id) s = (with_session (calculate_and_create_payouts pool_id) s).1
step p (sweeps max_age_hours) s = (sweep_expired_orders max_age_hours s).1
step p (waits seconds) s = record s { now = s.now + seconds }

unfoldable pub run : Platform → List Request → State → State
run p [] s = s
run p (r ∷ rs) s = run p rs (step p r s)
