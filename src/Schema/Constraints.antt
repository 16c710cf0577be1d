-- ===== src/Schema/Constraints.antt =====
-- What the database refuses when a row is written: the column types, primary keys, foreign keys
-- and unique constraints that app/features/*/models.py declare. `none` admits the row. A value
-- out of its column's range is a `DataError`, and is met before any constraint is looked at; a
-- constraint is an `IntegrityError`.
use Prim.Native.String.{count}
use farm_link.Common.{
  ℕ, String, Bool, true, false, not, ◌&&◌, Option, none, some, List, [], ltb, leb, ◌==◌, str_eq,
  if◌then◌else◌, first, find,
}
use farm_link.Schema.Rows.{
  User, Pool, Contribution, Order, Allocation, Payment, ProcessedEvent, Payout, user_key, pool_key,
  contribution_key, order_key, allocation_key, payment_key, event_key, payout_key,
}

pub record Database : Type 0 where
  pub users : List User
  pub pools : List Pool
  pub contributions : List Contribution
  pub orders : List Order
  pub allocations : List Allocation
  pub payments : List Payment
  pub processed_events : List ProcessedEvent
  pub payouts : List Payout

abbrev pub empty_database : Database
empty_database = record {
  users = [];
  pools = [];
  contributions = [];
  orders = [];
  allocations = [];
  payments = [];
  processed_events = [];
  payouts = [];
}

pub data DbError : Type 0 where
  data_error integrity_error : DbError

abbrev pub is_some {ℓ} : {A : Type ℓ} → Option A → Bool
is_some none = false
is_some (some a) = true

-- `Integer`: a signed 32-bit column.
unfoldable pub fits_integer : ℕ → Bool
fits_integer n = ltb n 2147483648

-- `Numeric(12, 2)`: twelve digits, two of them after the point.
unfoldable pub fits_numeric : ℕ → Bool
fits_numeric n = ltb n 1000000000000

-- `String(n)`: at most n characters.
unfoldable pub fits_string : ℕ → String → Bool
fits_string n s = leb (count s) n

abbrev check_row : Bool → Bool → Option DbError
check_row in_range allowed =
    if in_range then (if allowed then none else some integrity_error) else some data_error

-- `ForeignKey("users.id")`, `ForeignKey("pools.id")`, `ForeignKey("orders.id")`
abbrev user_exists : Database → ℕ → Bool
user_exists db k = is_some (find user_key k db.users)

abbrev pool_exists : Database → ℕ → Bool
pool_exists db k = is_some (find pool_key k db.pools)

abbrev order_exists : Database → ℕ → Bool
order_exists db k = is_some (find order_key k db.orders)

-- A pool's row, changed in place.
unfoldable pub admit_pool_update : Pool → Option DbError
unfolding fits_integer
admit_pool_update p = check_row (fits_integer p.total_qty && fits_integer p.available_qty) true

unfoldable pub admit_pool : Database → Pool → Option DbError
unfolding fits_integer fits_numeric fits_string
admit_pool db p =
    check_row
      (fits_integer p.total_qty
        && fits_integer p.available_qty
        && fits_numeric p.price
        && fits_string 255 p.product
        && fits_string 50 p.unit)
      (not (is_some (find pool_key p.id db.pools)))

unfoldable pub admit_contribution : Database → Contribution → Option DbError
unfolding fits_integer
admit_contribution db c = check_row (fits_integer c.qty) (
    not (is_some (find contribution_key c.id db.contributions))
    && pool_exists db c.pool_id
    && user_exists db c.farmer_id)

-- The `WHERE` clause of `_find_by_idempotency_key`, and the partial unique index
-- `uq_orders_buyer_idempotency_key`: an order with no key never matches.
unfoldable pub has_idempotency_key : ℕ → String → Order → Bool
has_idempotency_key buyer_id key o =
    o.buyer_id == buyer_id && (elim o.idempotency_key [ none ↦ false | some k ↦ str_eq k key ])

unfoldable pub key_taken : List Order → Order → Bool
unfolding has_idempotency_key
key_taken rows o = elim o.idempotency_key [
  | none ↦ false
  | some key ↦ is_some (first (has_idempotency_key o.buyer_id key) rows)
]

abbrev fits_key : Option String → Bool
fits_key none = true
fits_key (some key) = fits_string 255 key

unfoldable pub admit_order : Database → Order → Option DbError
unfolding fits_integer fits_numeric fits_string key_taken
admit_order db o =
    check_row (fits_integer o.qty && fits_numeric o.total && fits_key o.idempotency_key) (
      not (is_some (find order_key o.id db.orders))
      && pool_exists db o.pool_id
      && user_exists db o.buyer_id
      && not (key_taken db.orders o))

unfoldable pub admit_allocation : Database → Allocation → Option DbError
unfolding fits_integer
admit_allocation db a = check_row (fits_integer a.qty) (
    not (is_some (find allocation_key a.id db.allocations))
    && order_exists db a.order_id
    && pool_exists db a.pool_id)

-- `uq_payments_order_id`: one payment for an order.
unfoldable pub pays_order : ℕ → Payment → Bool
pays_order order_id p = p.order_id == order_id

unfoldable pub admit_payment : Database → Payment → Option DbError
unfolding fits_numeric pays_order
admit_payment db p = check_row (fits_numeric p.amount) (
    not (is_some (find payment_key p.id db.payments))
    && order_exists db p.order_id
    && not (is_some (first (pays_order p.order_id) db.payments)))

-- `event_id` is unique.
unfoldable pub has_event_id : String → ProcessedEvent → Bool
has_event_id event_id e = str_eq e.event_id event_id

unfoldable pub admit_event : Database → ProcessedEvent → Option DbError
unfolding has_event_id fits_string
admit_event db e = check_row (fits_string 255 e.event_id && fits_string 255 e.reference) (
    not (is_some (find event_key e.id db.processed_events))
    && not (is_some (first (has_event_id e.event_id) db.processed_events)))

-- `uq_payouts_pool_farmer`
unfoldable pub pays_farmer : ℕ → ℕ → Payout → Bool
pays_farmer pool_id farmer_id p = p.pool_id == pool_id && p.farmer_id == farmer_id

unfoldable pub admit_payout : Database → Payout → Option DbError
unfolding fits_numeric pays_farmer
admit_payout db p = check_row (fits_numeric p.amount) (
    not (is_some (find payout_key p.id db.payouts))
    && pool_exists db p.pool_id
    && user_exists db p.farmer_id
    && not (is_some (first (pays_farmer p.pool_id p.farmer_id) db.payouts)))

unfoldable pub has_email : String → User → Bool
has_email email u = str_eq u.email email

unfoldable pub admit_user : Database → User → Option DbError
unfolding has_email fits_string
admit_user db u = check_row (fits_string 255 u.email && fits_string 255 u.password_hash) (
    not (is_some (find user_key u.id db.users))
    && not (is_some (first (has_email u.email) db.users)))
