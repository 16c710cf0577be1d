-- ===== src/Tests/Market.antt =====
-- A small market for the tests: an open pool with an unpaid order, and a closed pool with a paid
-- order and an unpaid one.
use farm_link.Common.{
  ℕ, ◌+◌, String, true, none, some, [], ◌∷◌, str_eq, if◌then◌else◌, find, sum_by, arith,
}
use farm_link.Schema.{
  User, farmer, buyer, Pool, opened, closed, Contribution, Order, pending, paid, expired, Database,
}
use farm_link.Session.{State}
use farm_link.Payments.Values.{Json, null, number, text, object, field, end}
use farm_link.Payments.Paystack.{Platform}
use farm_link.Stock.{waiting_qty, sold_qty, ordered_qty, contributed_qty, IsStocked}

abbrev pub ada : User
ada = record {
  id = 10;
  email = "ada@x.ng";
  password_hash = "h";
  role = buyer;
  approved = true;
  created_at = 0;
}

abbrev pub bayo : User
bayo = record {
  id = 20;
  email = "bayo@x.ng";
  password_hash = "h";
  role = farmer;
  approved = true;
  created_at = 0;
}

abbrev pub chidi : User
chidi = record {
  id = 21;
  email = "chidi@x.ng";
  password_hash = "h";
  role = farmer;
  approved = true;
  created_at = 0;
}

abbrev pub yams : Pool
yams = record {
  id = 1;
  product = "yam";
  price = 500;
  unit = "tuber";
  total_qty = 50;
  available_qty = 40;
  status = opened;
  created_at = 0;
}

abbrev pub maize : Pool
maize = record {
  id = 2;
  product = "maize";
  price = 500;
  unit = "bag";
  total_qty = 3;
  available_qty = 1;
  status = closed;
  created_at = 5;
}

abbrev contribution : ℕ → ℕ → ℕ → ℕ → Contribution
contribution id pool_id farmer_id qty = record {
  id = id;
  pool_id = pool_id;
  farmer_id = farmer_id;
  qty = qty;
  created_at = 1;
}

abbrev pub unpaid_yams : Order
unpaid_yams = record {
  id = 100;
  pool_id = 1;
  buyer_id = 10;
  qty = 10;
  total = 5000;
  status = pending;
  idempotency_key = some "k1";
  created_at = 60;
}

abbrev pub paid_maize : Order
paid_maize = record {
  id = 201;
  pool_id = 2;
  buyer_id = 10;
  qty = 1;
  total = 1000;
  status = paid;
  idempotency_key = none;
  created_at = 70;
}

abbrev pub unpaid_maize : Order
unpaid_maize = record {
  id = 202;
  pool_id = 2;
  buyer_id = 10;
  qty = 1;
  total = 500;
  status = pending;
  idempotency_key = none;
  created_at = 80;
}

abbrev pub market_database : Database
market_database = record {
  users = ada ∷ bayo ∷ chidi ∷ [];
  pools = yams ∷ maize ∷ [];
  contributions = contribution 31 1 20 50 ∷ contribution 32 2 20 1 ∷ contribution 33 2 21 2 ∷ [];
  orders = unpaid_yams ∷ paid_maize ∷ unpaid_maize ∷ [];
  allocations = [];
  payments =
      record { id = 41; order_id = 201; amount = 1000; recorded_by = none; recorded_at = 75 } ∷ [];
  processed_events = [];
  payouts = [];
}

-- At a time when orders from before second 90 are a day old.
abbrev pub market : State
market = record {
  committed = market_database;
  working = market_database;
  cache = [];
  jobs = [];
  feed = [];
  now = 86490;
  uuids = λ n. 1000 + n;
  drawn = 0;
}

pub market-IsStocked : IsStocked market_database
unfolding find sum_by waiting_qty sold_qty ordered_qty contributed_qty
market-IsStocked k = ground arith

-- The market with other rows.
abbrev pub market_with : Database → State
market_with db = record market { committed = db; working = db }

-- The yams' order has expired, and its stock is back.
abbrev pub expired_yams : Order
expired_yams = record unpaid_yams { status = expired }

abbrev pub restocked_yams : Pool
restocked_yams = record yams { available_qty = 50 }

abbrev pub expired_market : State
expired_market = market_with (record market_database {
  pools = restocked_yams ∷ maize ∷ [];
  orders = expired_yams ∷ paid_maize ∷ unpaid_maize ∷ [];
})

pub expired_market-IsStocked : IsStocked expired_market.committed
unfolding find sum_by waiting_qty sold_qty ordered_qty contributed_qty
expired_market-IsStocked k = ground arith

-- The yams' order is paid.
abbrev pub paid_yams : Order
paid_yams = record unpaid_yams { status = paid }

abbrev pub paid_market : State
paid_market =
    market_with (record market_database { orders = paid_yams ∷ paid_maize ∷ unpaid_maize ∷ [] })

-- The maize has been shared out.
abbrev pub shared_market : State
shared_market = market_with (record market_database {
  payouts =
      record { id = 51; pool_id = 2; farmer_id = 20; amount = 333; created_at = 90 }
      ∷ record { id = 52; pool_id = 2; farmer_id = 21; amount = 667; created_at = 90 }
      ∷ [];
})

-- The `data` of a charge for an order.
abbrev pub charge_data : String → ℕ → Json
charge_data reference id =
    object (
      field "reference" (text reference)
        (field "id" (number id) (field "amount" (number 5000) end)))

-- A charge for an order, as Paystack reports it.
abbrev pub charge_for : String → ℕ → Json
charge_for reference id =
    object (field "event" (text "charge.success") (field "data" (charge_data reference id) end))

-- Every body is signed by "good". Body 1 is a charge for order 100, any other one for order 202.
abbrev pub stub_platform : Platform
stub_platform = record {
  secret_key = "sk";
  hmac_sha512 = λ key body. "good";
  loads = λ body. elim body [
    | [] ↦ none
    | n ∷ rest ↦ elim rest [ [] ↦ some (charge_for "100" 7) | m ∷ more ↦ some (charge_for "202" 8) ]
  ];
  str = λ value. "7";
  uuid_text = λ id. "id";
  parse_uuid = λ reference.
      if str_eq reference "100"
      then some 100
      else (if str_eq reference "202" then some 202 else none);
  decimal = λ digits. none;
  post = λ transaction. record { status_code = 500; body = null };
}
