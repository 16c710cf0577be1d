-- ===== src/Stock.antt =====
-- The stock of the pools, as an abstract view of the database: for every pool, what farmers have
-- brought in is what is available plus what unpaid and paid orders hold.
pub mod Tables
pub mod Orders
pub mod Pools
pub mod Sweep
pub mod Payments
pub mod Late
use farm_link.Common.{
  ℕ, ◌+◌, ◌≡◌, ◌≤◌, Bool, true, false, Option, none, some, List, ◌==◌, ◌&&◌, if◌then◌else◌, find,
  sum_by,
}
use farm_link.Schema.{
  Uuid, OrderStatus, pending, paid, expired, cancelled, Pool, Contribution, Order, Database,
  pool_key, is_pending, is_paid,
}

-- An order holds stock while it waits for its payment and once it is paid.
abbrev pub holds_stock : OrderStatus → Bool
holds_stock pending = true
holds_stock paid = true
holds_stock expired = false
holds_stock cancelled = false

-- What an unpaid order keeps back in pool k.
unfoldable pub waiting_qty : Uuid → Order → ℕ
waiting_qty k o = if k == o.pool_id && is_pending o.status then o.qty else 0

-- What was sold of pool k by a paid order.
unfoldable pub sold_qty : Uuid → Order → ℕ
sold_qty k o = if k == o.pool_id && is_paid o.status then o.qty else 0

-- What an order was placed for in pool k, whatever became of it.
unfoldable pub ordered_qty : Uuid → Order → ℕ
ordered_qty k o = if k == o.pool_id then o.qty else 0

unfoldable pub contributed_qty : Uuid → Contribution → ℕ
contributed_qty k c = if k == c.pool_id then c.qty else 0

abbrev pub waiting : Uuid → List Order → ℕ
waiting k orders = sum_by (waiting_qty k) orders

abbrev pub sold : Uuid → List Order → ℕ
sold k orders = sum_by (sold_qty k) orders

abbrev pub ordered : Uuid → List Order → ℕ
ordered k orders = sum_by (ordered_qty k) orders

abbrev pub contributed : Uuid → List Contribution → ℕ
contributed k contributions = sum_by (contributed_qty k) contributions

-- What the orders of a pool add up to.
pub record Demand : Type 0 where
  pub unpaid : ℕ
  pub paid_for : ℕ
  pub placed : ℕ

abbrev pub demand : Uuid → List Order → Demand
demand k orders = record {
  unpaid = waiting k orders;
  paid_for = sold k orders;
  placed = ordered k orders;
}

-- A pool's books: what is available, unpaid and sold is what was brought in, but for an excess that
-- was sold without being there. Where there is no pool, nothing was brought in or ordered.
abbrev pub Balanced : ℕ → Option Pool → Demand → ℕ → Type 0
Balanced extra none d brought =
    (extra ≡ 0) × (d.unpaid ≡ 0) × (d.paid_for ≡ 0) × (d.placed ≡ 0) × (brought ≡ 0)
Balanced extra (some p) d brought =
    (p.available_qty + d.unpaid + d.paid_for ≡ p.total_qty + extra)
    × (extra ≤ d.paid_for)
    × (p.total_qty ≡ brought)

-- The books of every pool, with an excess for each.
abbrev pub StockedWith : (ℕ → ℕ) → Database → Type 0
StockedWith extra db =
    (k : ℕ)
    → Balanced (extra k) (find pool_key k db.pools) (demand k db.orders)
        (contributed k db.contributions)

-- With no excess anywhere.
abbrev pub IsStocked : Database → Type 0
IsStocked db = StockedWith (λ k. 0) db
