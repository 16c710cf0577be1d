-- ===== src/Migrations/Downgrade.antt =====
-- The way back: every revision undone, and the migrations once more.
use farm_link.Common.{List, [], false, ◌≡◌, ap, ◌∙◌, String, Option, some, select}
use farm_link.Migrations.{
  Row, Catalogue, migrate, in_use, no_tables, perform, creates_table, alter, adds_column,
  drops_column, creates_index, adds_unique_key, some_of, enums_of, drops_table, drops_index,
  drops_unique_key,
}
use farm_link.Migrations.Versions.{
  initial_schema, undo_initial_schema, standardize_timestamps, undo_standardize_timestamps,
  add_idempotency_key, undo_add_idempotency_key, add_unit, undo_add_unit,
}
use farm_link.Migrations.Upgrade.{
  pays_twice, upgrade_to_initial, upgrade_to_head, head, upgrade_to_head_lem,
}

unfoldable pub downgrade_to_base :
    (then_on at_last : String → List Row) → Option Catalogue → Option Catalogue
downgrade_to_base then_on at_last c = migrate undo_initial_schema (
    in_use at_last (
      migrate undo_standardize_timestamps
        (in_use then_on (migrate undo_add_idempotency_key (migrate undo_add_unit c)))))

downgrade_to_base-head :
    (later back at_last : String → List Row)
    → back "payouts" ≡ []
    → back "processed_events" ≡ []
    → downgrade_to_base back at_last (some (head later)) ≡ some no_tables
unfolding downgrade_to_base head upgrade_to_head upgrade_to_initial migrate perform creates_table
    alter adds_column drops_column creates_index adds_unique_key some_of enums_of initial_schema
    standardize_timestamps add_idempotency_key add_unit select undo_initial_schema
    undo_standardize_timestamps undo_add_idempotency_key undo_add_unit drops_table drops_index
    drops_unique_key
downgrade_to_base-head later back at_last no_payouts no_events = simp (no_payouts, no_events)

-- From the last revision back to the first, when no two payments share an order at the first revision,
-- and the tables of payouts and of processed events are empty where the second is done and undone, nothing is left of the migrations, no enum type either.
pub downgrade_to_base-upgrade_to_head :
    (at_first then_on later back at_last : String → List Row)
    → pays_twice at_first ≡ false
    → at_first "payouts" ≡ []
    → at_first "processed_events" ≡ []
    → back "payouts" ≡ []
    → back "processed_events" ≡ []
    → downgrade_to_base back at_last (upgrade_to_head at_first then_on later) ≡ some no_tables
downgrade_to_base-upgrade_to_head at_first then_on later back at_last once a b c d =
    ap (downgrade_to_base back at_last) (upgrade_to_head_lem at_first then_on later once a b)
    ∙ downgrade_to_base-head later back at_last c d
