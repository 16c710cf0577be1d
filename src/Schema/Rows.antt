-- ===== src/Schema/Rows.antt =====
-- The rows of the eight tables: app/features/*/models.py over the mixins of app/core/database.py.
-- A UUID is a number. Money is in kobo, since every amount is a `Numeric(12, 2)`. A time is a
-- number of seconds.
use farm_link.Common.{ℕ, String, Bool, true, false, Option}

abbrev pub Uuid : Type 0
Uuid = ℕ

abbrev pub Kobo : Type 0
Kobo = ℕ

abbrev pub Time : Type 0
Time = ℕ

pub data UserRole : Type 0 where
  farmer buyer admin : UserRole

pub data PoolStatus : Type 0 where
  opened closed : PoolStatus

pub data OrderStatus : Type 0 where
  pending paid expired cancelled : OrderStatus

-- `status == PoolStatus.OPEN`
abbrev pub is_opened : PoolStatus → Bool
is_opened opened = true
is_opened closed = false

-- `status == OrderStatus.PENDING`
abbrev pub is_pending : OrderStatus → Bool
is_pending pending = true
is_pending _ = false

-- `status == OrderStatus.PAID`
abbrev pub is_paid : OrderStatus → Bool
is_paid paid = true
is_paid _ = false

abbrev pub is_admin : UserRole → Bool
is_admin admin = true
is_admin _ = false

pub record User : Type 0 where
  pub id : Uuid
  pub email : String
  pub password_hash : String
  pub role : UserRole
  pub approved : Bool
  pub created_at : Time

pub record Pool : Type 0 where
  pub id : Uuid
  pub product : String
  pub price : Kobo
  pub unit : String
  pub total_qty : ℕ
  pub available_qty : ℕ
  pub status : PoolStatus
  pub created_at : Time

pub record Contribution : Type 0 where
  pub id : Uuid
  pub pool_id : Uuid
  pub farmer_id : Uuid
  pub qty : ℕ
  pub created_at : Time

pub record Order : Type 0 where
  pub id : Uuid
  pub pool_id : Uuid
  pub buyer_id : Uuid
  pub qty : ℕ
  pub total : Kobo
  pub status : OrderStatus
  pub idempotency_key : Option String
  pub created_at : Time

pub record Allocation : Type 0 where
  pub id : Uuid
  pub order_id : Uuid
  pub pool_id : Uuid
  pub qty : ℕ
  pub created_at : Time

pub record Payment : Type 0 where
  pub id : Uuid
  pub order_id : Uuid
  pub amount : Kobo
  pub recorded_by : Option Uuid
  pub recorded_at : Time

pub record ProcessedEvent : Type 0 where
  pub id : Uuid
  pub event_id : String
  pub reference : String
  pub created_at : Time

pub record Payout : Type 0 where
  pub id : Uuid
  pub pool_id : Uuid
  pub farmer_id : Uuid
  pub amount : Kobo
  pub created_at : Time

abbrev pub user_key : User → ℕ
user_key u = u.id

abbrev pub pool_key : Pool → ℕ
pool_key p = p.id

abbrev pub contribution_key : Contribution → ℕ
contribution_key c = c.id

abbrev pub order_key : Order → ℕ
order_key o = o.id

abbrev pub allocation_key : Allocation → ℕ
allocation_key a = a.id

abbrev pub payment_key : Payment → ℕ
payment_key p = p.id

abbrev pub event_key : ProcessedEvent → ℕ
event_key e = e.id

abbrev pub payout_key : Payout → ℕ
payout_key p = p.id
