-- ===== src/Migrations/Models.antt =====
-- The tables of app/features/*/models.py, as `Base.metadata` has them: the columns of the class, then
-- those of app/core/database.py's mixins. The order of a table's columns and foreign keys means
-- nothing.
use mathlib.Core.List.{Perm}
use farm_link.Common.{⊤, true, false, some, List, [], ◌∷◌, ◌≡◌, length, first}
use farm_link.Migrations.{
  is_not_null, sql_string, numeric, integer, sql_uuid, date_time, sql_boolean, Table, Catalogue,
  named,
}
use farm_link.Migrations.Versions.{
  required, optional, id, created_at, refers, index_on, pool_status, user_role, order_status,
}

abbrev users : Table
users = record {
  name = "users";
  columns =
      required "email" (sql_string 255)
      ∷ required "password_hash" (sql_string 255)
      ∷ required "role" user_role
      ∷ required "approved" sql_boolean
      ∷ id
      ∷ created_at
      ∷ [];
  foreign_keys = [];
  unique_keys = [];
  indexes = index_on "ix_users_email" ("email" ∷ []) true ∷ [];
  rows = [];
}

abbrev pools : Table
pools = record {
  name = "pools";
  columns =
      required "product" (sql_string 255)
      ∷ required "price" (numeric 12 2)
      ∷ record {
        name = "unit";
        kind = sql_string 50;
        nullable = false;
        server_default = some "unit";
      }
      ∷ required "total_qty" integer
      ∷ required "available_qty" integer
      ∷ required "status" pool_status
      ∷ id
      ∷ created_at
      ∷ [];
  foreign_keys = [];
  unique_keys = [];
  indexes = index_on "ix_pools_status" ("status" ∷ []) false ∷ [];
  rows = [];
}

abbrev contributions : Table
contributions = record {
  name = "contributions";
  columns =
      required "pool_id" sql_uuid
      ∷ required "farmer_id" sql_uuid
      ∷ required "qty" integer
      ∷ id
      ∷ created_at
      ∷ [];
  foreign_keys = refers "pool_id" "pools" ∷ refers "farmer_id" "users" ∷ [];
  unique_keys = [];
  indexes = index_on "ix_contributions_pool_id" ("pool_id" ∷ []) false ∷ [];
  rows = [];
}

abbrev orders : Table
orders = record {
  name = "orders";
  columns =
      required "pool_id" sql_uuid
      ∷ required "buyer_id" sql_uuid
      ∷ required "qty" integer
      ∷ required "total" (numeric 12 2)
      ∷ required "status" order_status
      ∷ optional "idempotency_key" (sql_string 255)
      ∷ id
      ∷ created_at
      ∷ [];
  foreign_keys = refers "pool_id" "pools" ∷ refers "buyer_id" "users" ∷ [];
  unique_keys = [];
  indexes =
      index_on "ix_orders_status_created_at" ("status" ∷ "created_at" ∷ []) false
      ∷ record {
        name = "uq_orders_buyer_idempotency_key";
        columns = "buyer_id" ∷ "idempotency_key" ∷ [];
        unique = true;
        condition = some (is_not_null "idempotency_key");
      }
      ∷ [];
  rows = [];
}

abbrev allocations : Table
allocations = record {
  name = "allocations";
  columns =
      required "order_id" sql_uuid
      ∷ required "pool_id" sql_uuid
      ∷ required "qty" integer
      ∷ id
      ∷ created_at
      ∷ [];
  foreign_keys = refers "order_id" "orders" ∷ refers "pool_id" "pools" ∷ [];
  unique_keys = [];
  indexes = [];
  rows = [];
}

abbrev payments : Table
payments = record {
  name = "payments";
  columns =
      required "order_id" sql_uuid
      ∷ required "amount" (numeric 12 2)
      ∷ optional "recorded_by" sql_uuid
      ∷ required "recorded_at" date_time
      ∷ id
      ∷ [];
  foreign_keys = refers "order_id" "orders" ∷ refers "recorded_by" "users" ∷ [];
  unique_keys = record { name = "uq_payments_order_id"; columns = "order_id" ∷ [] } ∷ [];
  indexes = [];
  rows = [];
}

abbrev processed_events : Table
processed_events = record {
  name = "processed_events";
  columns =
      required "event_id" (sql_string 255)
      ∷ required "reference" (sql_string 255)
      ∷ id
      ∷ created_at
      ∷ [];
  foreign_keys = [];
  unique_keys = [];
  indexes = index_on "ix_processed_events_event_id" ("event_id" ∷ []) true ∷ [];
  rows = [];
}

abbrev payouts : Table
payouts = record {
  name = "payouts";
  columns =
      required "pool_id" sql_uuid
      ∷ required "farmer_id" sql_uuid
      ∷ required "amount" (numeric 12 2)
      ∷ id
      ∷ created_at
      ∷ [];
  foreign_keys = refers "pool_id" "pools" ∷ refers "farmer_id" "users" ∷ [];
  unique_keys =
      record { name = "uq_payouts_pool_farmer"; columns = "pool_id" ∷ "farmer_id" ∷ [] } ∷ [];
  indexes = [];
  rows = [];
}

-- In the order of app/core/model_registry.py.
abbrev pub metadata : List Table
metadata =
    users ∷ pools ∷ contributions ∷ orders ∷ allocations ∷ payments ∷ processed_events ∷ payouts
    ∷ []

-- A table of the catalogue is as its model says, but for its rows.
pub record Conforms (model found : Table) : Type 0 where
  pub same_columns : Perm found.columns model.columns
  pub same_foreign_keys : Perm found.foreign_keys model.foreign_keys
  pub same_unique_keys : found.unique_keys ≡ model.unique_keys
  pub same_indexes : found.indexes ≡ model.indexes

abbrev Modelled : List Table → Catalogue → Type 0
Modelled [] c = ⊤
Modelled (model ∷ models) c =
    ((found : Table) × (first (named model.name) c.tables ≡ some found) × Conforms model found)
    × Modelled models c

-- The catalogue has the models' tables and no other.
abbrev pub Matches : List Table → Catalogue → Type 0
Matches models c = Modelled models c × (length c.tables ≡ length models)
