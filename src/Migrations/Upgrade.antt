-- ===== src/Migrations/Upgrade.antt =====
-- What the migrations come to, one after the other, with the program in use between them.
use mathlib.Core.List.{Perm}
use mathlib.Core.List.Perm
use mathlib.Core.Option.{none-ne-some}
use farm_link.Common.{
  List, Bool, Bool-cases, false, sym, ◌∙◌, str_eq, map, true, ◌≡◌, ◌≢◌, ◌⊎◌, inl, inr, ◌↔◌, refl,
  String, select, Option, none, some, [], ◌∷◌,
}
use farm_link.Migrations.{
  Row, with_value, meets, is_not_null, repeats, Catalogue, migrate, in_use, no_tables, perform,
  creates_table, alter, adds_column, drops_column, creates_index, adds_unique_key, some_of,
  enums_of,
}
use farm_link.Migrations.Versions.{
  initial_schema, standardize_timestamps, add_idempotency_key, add_unit,
}

unfoldable pub upgrade_to_initial : Option Catalogue
upgrade_to_initial = migrate initial_schema (some no_tables)

unfoldable pub upgrade_to_head : (at_first then_on later : String → List Row) → Option Catalogue
upgrade_to_head at_first then_on later = migrate add_unit (
    in_use later (
      migrate add_idempotency_key
        (in_use then_on (migrate standardize_timestamps (in_use at_first upgrade_to_initial)))))

abbrev catalogue_or_none : Option Catalogue → Catalogue
catalogue_or_none none = no_tables
catalogue_or_none (some c) = c

abbrev no_rows : String → List Row
no_rows table = []

-- The catalogue that the last revision leaves.
unfoldable pub head : (String → List Row) → Catalogue
head later = catalogue_or_none (upgrade_to_head no_rows no_rows later)

-- A new column is NULL in every row.
nulls_skipped :
    (column : String) (rows : List Row)
    → str_eq column column ≡ true
    → select (meets (some (is_not_null column))) (map (with_value column none) rows) ≡ []
unfolding select
nulls_skipped column [] h = refl
nulls_skipped column (r ∷ rows) h = rw h (nulls_skipped column rows h)

-- Two payments share an order.
abbrev pub pays_twice : (String → List Row) → Bool
pays_twice rows = repeats ("order_id" ∷ []) (rows "payments")

pub upgrade_to_head_lem :
    (at_first then_on later : String → List Row)
    → pays_twice at_first ≡ false
    → at_first "payouts" ≡ []
    → at_first "processed_events" ≡ []
    → upgrade_to_head at_first then_on later ≡ some (head later)
unfolding upgrade_to_head upgrade_to_initial head migrate perform creates_table alter adds_column
    drops_column creates_index adds_unique_key some_of enums_of initial_schema
    standardize_timestamps add_idempotency_key add_unit select
upgrade_to_head_lem at_first then_on later once no_payouts no_events =
    simp (once, no_payouts, no_events, nulls_skipped "idempotency_key" (then_on "orders") refl)

payments_in_the_way :
    (at_first then_on later : String → List Row)
    → pays_twice at_first ≡ true
    → upgrade_to_head at_first then_on later ≡ none
unfolding upgrade_to_head upgrade_to_initial migrate perform creates_table alter adds_column
    drops_column creates_index adds_unique_key some_of enums_of initial_schema
    standardize_timestamps add_idempotency_key add_unit select
payments_in_the_way at_first then_on later h = simp h

payouts_in_the_way :
    (at_first then_on later : String → List Row) (r : Row) (rows : List Row)
    → pays_twice at_first ≡ false
    → at_first "payouts" ≡ r ∷ rows
    → upgrade_to_head at_first then_on later ≡ none
unfolding upgrade_to_head upgrade_to_initial migrate perform creates_table alter adds_column
    drops_column creates_index adds_unique_key some_of enums_of initial_schema
    standardize_timestamps add_idempotency_key add_unit select
payouts_in_the_way at_first then_on later r rows once h = simp (once, h)

events_in_the_way :
    (at_first then_on later : String → List Row) (r : Row) (rows : List Row)
    → pays_twice at_first ≡ false
    → at_first "payouts" ≡ []
    → at_first "processed_events" ≡ r ∷ rows
    → upgrade_to_head at_first then_on later ≡ none
unfolding upgrade_to_head upgrade_to_initial migrate perform creates_table alter adds_column
    drops_column creates_index adds_unique_key some_of enums_of initial_schema
    standardize_timestamps add_idempotency_key add_unit select
events_in_the_way at_first then_on later r rows once empty h = simp (once, empty, h)

nil_cases : (rows : List Row) → (rows ≡ []) ⊎ ((r : Row) × (rest : List Row) × (rows ≡ r ∷ rest))
nil_cases [] = inl refl
nil_cases (r ∷ rows) = inr (r, rows, refl)

-- The migrations to the last revision are refused exactly where, at the first one, two payments share
-- an order, or there is a payout, or a processed event: the second revision makes the payments' orders
-- unique, and adds `created_at` to the two other tables without a value for the rows that are there.
pub upgrade_to_head-refused :
    (at_first then_on later : String → List Row)
    → (upgrade_to_head at_first then_on later ≡ none) ↔ (
        (pays_twice at_first ≡ true)
        ⊎ ((at_first "payouts" ≢ []) ⊎ (at_first "processed_events" ≢ [])))
upgrade_to_head-refused at_first then_on later = elim (Bool-cases (pays_twice at_first)) [
  | inl twice ↦ (λ _. inl twice, λ _. payments_in_the_way at_first then_on later twice)
  | inr once ↦ elim (nil_cases (at_first "payouts")) [
    | inr (r, rows, payouts) ↦ (
      λ _. inr (inl (λ e. cons-ne-nil (sym payouts ∙ e))),
      λ _. payouts_in_the_way at_first then_on later r rows once payouts,
    )
    | inl none_paid ↦ elim (nil_cases (at_first "processed_events")) [
      | inr (r, rows, events) ↦ (
        λ _. inr (inr (λ e. cons-ne-nil (sym events ∙ e))),
        λ _. events_in_the_way at_first then_on later r rows once none_paid events,
      )
      | inl no_events ↦
          let up = upgrade_to_head_lem at_first then_on later once none_paid no_events in
          (
            λ refused. absurd (none-ne-some _ (sym refused ∙ up)),
            λ found. absurd (elim found [
              | inl twice ↦ true_false (sym twice ∙ once)
              | inr (inl p) ↦ p none_paid
              | inr (inr e) ↦ e no_events
            ]),
          )
    ]
  ]
]
  where
    cons-ne-nil : {r : Row} {rows : List Row} → (r ∷ rows) ≢ []
    cons-ne-nil e = cc

    true_false : true ≢ false
    true_false e = cc
