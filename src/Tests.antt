-- ===== src/Tests.antt =====
-- Tests on a small market, and the theorems at concrete inputs.
mod Market
mod Orders
mod Payments
mod Payouts
mod Books
mod Concurrent
mod Program
mod Migrations
mod Access
mod RateLimit
