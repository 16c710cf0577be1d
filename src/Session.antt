-- ===== src/Session.antt =====
-- Sessions, exceptions and effects of the services (app/core/database.py, app/core/jobs.py,
-- app/core/realtime.py, app/features/feed/service.py).
mod Types
mod Monad
mod Writes
pub use Types.*
pub use Monad.*
pub use Writes.*
unfoldable pub use Monad.{commit, rollback, with_session}
unfoldable pub use Writes.{
  uuid4, update_pool, update_order, update_user, insert_pool, insert_contribution, insert_order,
  insert_allocation, insert_payment, insert_event, insert_payout, insert_user, enqueue,
  publish_event, publish_pool_event,
}
