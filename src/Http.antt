-- ===== src/Http.antt =====
-- The routes of app/features/*/router.py: who may call a service, what its body must satisfy, and the
-- status that each exception becomes. An exception that no route catches is a 500
-- (app/middleware/request_context.py). FastAPI solves the dependencies of a route, and with them
-- `require_role`, before it refuses a body.
pub mod Status
pub mod Accounts
pub mod Market
pub mod Money
pub mod Atomic
pub mod Shown
pub mod Login
pub mod Calls
pub mod Errors
pub mod Access
pub mod Ownership
