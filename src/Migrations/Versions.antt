-- ===== src/Migrations/Versions.antt =====
-- The four files of alembic/versions, from the first revision to the last.
use farm_link.Common.{String, true, false, none, some, List, [], ◌∷◌, Bool}
use farm_link.Migrations.{
  is_not_null, ColumnType, sql_string, numeric, integer, sql_enum, sql_uuid, date_time, sql_boolean,
  Column, ForeignKey, Index, Table, Operation, create_table, drop_table, add_column, drop_column,
  create_index, drop_index, create_unique_constraint, drop_constraint, drop_enum,
}

abbrev pub required : String → ColumnType → Column
required name kind = record { name = name; kind = kind; nullable = false; server_default = none }

abbrev pub optional : String → ColumnType → Column
optional name kind = record { name = name; kind = kind; nullable = true; server_default = none }

abbrev pub id : Column
id = required "id" sql_uuid

abbrev pub created_at : Column
created_at = required "created_at" date_time

abbrev pub refers : String → String → ForeignKey
refers column table = record { column = column; refers_to = table }

abbrev pub index_on : String → List String → Bool → Index
index_on name columns unique = record {
  name = name;
  columns = columns;
  unique = unique;
  condition = none;
}

abbrev pub pool_status : ColumnType
pool_status = sql_enum "pool_status" ("OPEN" ∷ "CLOSED" ∷ [])

abbrev pub user_role : ColumnType
user_role = sql_enum "user_role" ("FARMER" ∷ "BUYER" ∷ "ADMIN" ∷ [])

abbrev pub order_status : ColumnType
order_status = sql_enum "order_status" ("PENDING" ∷ "PAID" ∷ "CANCELLED" ∷ "EXPIRED" ∷ [])

abbrev pools_created : Table
pools_created = record {
  name = "pools";
  columns =
      required "product" (sql_string 255)
      ∷ required "price" (numeric 12 2)
      ∷ required "total_qty" integer
      ∷ required "available_qty" integer
      ∷ required "status" pool_status
      ∷ id
      ∷ created_at
      ∷ [];
  foreign_keys = [];
  unique_keys = [];
  indexes = [];
  rows = [];
}

abbrev processed_events_created : Table
processed_events_created = record {
  name = "processed_events";
  columns =
      required "event_id" (sql_string 255)
      ∷ required "reference" (sql_string 255)
      ∷ required "processed_at" date_time
      ∷ id
      ∷ [];
  foreign_keys = [];
  unique_keys = [];
  indexes = [];
  rows = [];
}

abbrev users_created : Table
users_created = record {
  name = "users";
  columns =
      required "email" (sql_string 255)
      ∷ required "password_hash" (sql_string 255)
      ∷ required "role" user_role
      ∷ required "approved" sql_boolean
      ∷ id
      ∷ created_at
      ∷ [];
  foreign_keys = [];
  unique_keys = [];
  indexes = [];
  rows = [];
}

abbrev contributions_created : Table
contributions_created = record {
  name = "contributions";
  columns =
      required "pool_id" sql_uuid
      ∷ required "farmer_id" sql_uuid
      ∷ required "qty" integer
      ∷ id
      ∷ created_at
      ∷ [];
  foreign_keys = refers "farmer_id" "users" ∷ refers "pool_id" "pools" ∷ [];
  unique_keys = [];
  indexes = [];
  rows = [];
}

abbrev orders_created : Table
orders_created = record {
  name = "orders";
  columns =
      required "pool_id" sql_uuid
      ∷ required "buyer_id" sql_uuid
      ∷ required "qty" integer
      ∷ required "total" (numeric 12 2)
      ∷ required "status" order_status
      ∷ id
      ∷ created_at
      ∷ [];
  foreign_keys = refers "buyer_id" "users" ∷ refers "pool_id" "pools" ∷ [];
  unique_keys = [];
  indexes = [];
  rows = [];
}

abbrev payouts_created : Table
payouts_created = record {
  name = "payouts";
  columns =
      required "pool_id" sql_uuid
      ∷ required "farmer_id" sql_uuid
      ∷ required "amount" (numeric 12 2)
      ∷ required "at" date_time
      ∷ id
      ∷ [];
  foreign_keys = refers "farmer_id" "users" ∷ refers "pool_id" "pools" ∷ [];
  unique_keys =
      record { name = "uq_payouts_pool_farmer"; columns = "pool_id" ∷ "farmer_id" ∷ [] } ∷ [];
  indexes = [];
  rows = [];
}

abbrev allocations_created : Table
allocations_created = record {
  name = "allocations";
  columns =
      required "order_id" sql_uuid
      ∷ required "pool_id" sql_uuid
      ∷ required "qty" integer
      ∷ id
      ∷ created_at
      ∷ [];
  foreign_keys = refers "order_id" "orders" ∷ refers "pool_id" "pools" ∷ [];
  unique_keys = [];
  indexes = [];
  rows = [];
}

abbrev payments_created : Table
payments_created = record {
  name = "payments";
  columns =
      required "order_id" sql_uuid
      ∷ required "amount" (numeric 12 2)
      ∷ optional "recorded_by" sql_uuid
      ∷ required "recorded_at" date_time
      ∷ id
      ∷ [];
  foreign_keys = refers "order_id" "orders" ∷ refers "recorded_by" "users" ∷ [];
  unique_keys = [];
  indexes = [];
  rows = [];
}

-- 46520ed8368a
unfoldable pub initial_schema : List Operation
initial_schema =
    create_table pools_created
    ∷ create_index "pools" (index_on "ix_pools_status" ("status" ∷ []) false)
    ∷ create_table processed_events_created
    ∷ create_index "processed_events"
        (index_on "ix_processed_events_event_id" ("event_id" ∷ []) true)
    ∷ create_table users_created
    ∷ create_index "users" (index_on "ix_users_email" ("email" ∷ []) true)
    ∷ create_table contributions_created
    ∷ create_index "contributions" (index_on "ix_contributions_pool_id" ("pool_id" ∷ []) false)
    ∷ create_table orders_created
    ∷ create_index "orders"
        (index_on "ix_orders_status_created_at" ("status" ∷ "created_at" ∷ []) false)
    ∷ create_table payouts_created
    ∷ create_table allocations_created
    ∷ create_table payments_created
    ∷ []

unfoldable pub undo_initial_schema : List Operation
undo_initial_schema =
    drop_table "payments"
    ∷ drop_table "allocations"
    ∷ drop_table "payouts"
    ∷ drop_index "orders" "ix_orders_status_created_at"
    ∷ drop_table "orders"
    ∷ drop_index "contributions" "ix_contributions_pool_id"
    ∷ drop_table "contributions"
    ∷ drop_index "users" "ix_users_email"
    ∷ drop_table "users"
    ∷ drop_index "processed_events" "ix_processed_events_event_id"
    ∷ drop_table "processed_events"
    ∷ drop_index "pools" "ix_pools_status"
    ∷ drop_table "pools"
    ∷ drop_enum "pool_status"
    ∷ drop_enum "order_status"
    ∷ drop_enum "user_role"
    ∷ []

-- a327830a5b63
unfoldable pub standardize_timestamps : List Operation
standardize_timestamps =
    create_unique_constraint "payments"
      (record { name = "uq_payments_order_id"; columns = "order_id" ∷ [] })
    ∷ add_column "payouts" created_at
    ∷ drop_column "payouts" "at"
    ∷ add_column "processed_events" created_at
    ∷ drop_column "processed_events" "processed_at"
    ∷ []

unfoldable pub undo_standardize_timestamps : List Operation
undo_standardize_timestamps =
    add_column "processed_events" (required "processed_at" date_time)
    ∷ drop_column "processed_events" "created_at"
    ∷ add_column "payouts" (required "at" date_time)
    ∷ drop_column "payouts" "created_at"
    ∷ drop_constraint "payments" "uq_payments_order_id"
    ∷ []

-- 4a7b02995b0b
unfoldable pub add_idempotency_key : List Operation
add_idempotency_key =
    add_column "orders" (optional "idempotency_key" (sql_string 255))
    ∷ create_index "orders" (record {
      name = "uq_orders_buyer_idempotency_key";
      columns = "buyer_id" ∷ "idempotency_key" ∷ [];
      unique = true;
      condition = some (is_not_null "idempotency_key");
    })
    ∷ []

unfoldable pub undo_add_idempotency_key : List Operation
undo_add_idempotency_key =
    drop_index "orders" "uq_orders_buyer_idempotency_key"
    ∷ drop_column "orders" "idempotency_key"
    ∷ []

-- a6f89e9db827
unfoldable pub add_unit : List Operation
add_unit =
    add_column "pools" (record {
      name = "unit";
      kind = sql_string 50;
      nullable = false;
      server_default = some "unit";
    })
    ∷ []

unfoldable pub undo_add_unit : List Operation
undo_add_unit = drop_column "pools" "unit" ∷ []
