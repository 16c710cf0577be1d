-- ===== src/Schema.antt =====
-- The tables (app/features/*/models.py, app/core/database.py) and the constraints on them.
mod Rows
mod Constraints
pub use Rows.{
  Uuid, Kobo, Time, UserRole, farmer, buyer, admin, PoolStatus, opened, closed, OrderStatus,
  pending, paid, expired, cancelled, is_opened, is_pending, is_paid, is_admin, User, Pool,
  Contribution, Order, Allocation, Payment, ProcessedEvent, Payout, user_key, pool_key,
  contribution_key, order_key, allocation_key, payment_key, event_key, payout_key,
}
pub use Constraints.{Database, empty_database, DbError, data_error, integrity_error, is_some}
unfoldable pub use Constraints.{
  fits_integer, fits_numeric, fits_string, admit_pool_update, admit_pool, admit_contribution,
  has_idempotency_key, key_taken, admit_order, admit_allocation, pays_order, admit_payment,
  has_event_id, admit_event, pays_farmer, admit_payout, has_email, admit_user,
}
