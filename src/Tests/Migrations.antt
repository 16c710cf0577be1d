-- ===== src/Tests/Migrations.antt =====
-- The migrations of a database that is in use.
use farm_link.Common.{
  ◌≡◌, ◌≢◌, ◌⊎◌, ◌↔◌, String, true, none, some, str_eq, if◌then◌else◌, refl, List, [], ◌∷◌,
}
use farm_link.Migrations.{Row, no_tables, repeats, agree, some_of}
use farm_link.Migrations.Upgrade.{pays_twice, upgrade_to_head, upgrade_to_head-refused}
use farm_link.Migrations.Downgrade.{downgrade_to_base, downgrade_to_base-upgrade_to_head}

-- A payment for an order.
abbrev payment_for : String → Row
payment_for order_id name = if str_eq name "order_id" then some order_id else none

abbrev two_payments : String → List Row
two_payments table =
    if str_eq table "payments" then payment_for "100" ∷ payment_for "200" ∷ [] else []

abbrev paid_twice : String → List Row
paid_twice table =
    if str_eq table "payments" then payment_for "100" ∷ payment_for "100" ∷ [] else []

pays_twice_test : pays_twice paid_twice ≡ true
unfolding repeats agree some_of
pays_twice_test = refl

upgrade_to_head-refused_example : (upgrade_to_head paid_twice two_payments two_payments ≡ none) ↔ (
    (pays_twice paid_twice ≡ true)
    ⊎ ((paid_twice "payouts" ≢ []) ⊎ (paid_twice "processed_events" ≢ [])))
upgrade_to_head-refused_example = upgrade_to_head-refused paid_twice two_payments two_payments

downgrade_to_base-upgrade_to_head_example :
    downgrade_to_base two_payments two_payments
      (upgrade_to_head two_payments two_payments two_payments)
    ≡ some no_tables
unfolding repeats agree some_of
downgrade_to_base-upgrade_to_head_example =
    downgrade_to_base-upgrade_to_head two_payments two_payments two_payments two_payments
      two_payments refl refl refl refl refl
