-- ===== src/Tests/Payouts.antt =====
-- The maize is shared out.
use farm_link.Common.{
  ◌≡◌, refl, List, [], ◌∷◌, arith, find, first, select, sum_by, sort, insert_sorted, ascending,
}
use farm_link.Schema.{Payout, admit_payout}
use farm_link.Session.{ok, with_session, commit, uuid4, insert_payout}
use farm_link.Contributions.{
  ContributorRow, row_qty, add_to_group, grouped, contributor_summary, get_pool_contributor_summary,
}
use farm_link.Payouts.Split.{rounded_share, shares_from}
use farm_link.Payouts.Exact.{Fair, shares_of-Fair}
use farm_link.Payouts.{
  already_paid_out, pool_revenue, insert_payouts, shares_of, distribute, distribute_if_any,
  calculate_and_create_payouts,
}
use farm_link.Payouts.Outcome.{payout_amount, Outcome, calculate_and_create_payouts-Outcome}
use farm_link.Payouts.Revenue.{calculate_and_create_payouts-sum}
use farm_link.Tests.Market.{market, market_database}

-- The two payouts: a third of the 1000 kobo, rounded down, and the rest.
abbrev maize_payouts : List Payout
maize_payouts =
    record { id = 1000; pool_id = 2; farmer_id = 20; amount = 333; created_at = 86490 }
    ∷ record { id = 1001; pool_id = 2; farmer_id = 21; amount = 667; created_at = 86490 }
    ∷ []

maize_shared : (with_session (calculate_and_create_payouts 2) market).0 ≡ ok maize_payouts
unfolding with_session calculate_and_create_payouts find already_paid_out first
    get_pool_contributor_summary contributor_summary grouped add_to_group sort insert_sorted
    distribute_if_any distribute pool_revenue select sum_by insert_payouts uuid4 insert_payout
    admit_payout commit shares_of shares_from rounded_share
maize_shared = refl

calculate_and_create_payouts-Outcome_example :
    let (result, s') = with_session (calculate_and_create_payouts 2) market in
    Outcome 2 market (result, s'.committed)
calculate_and_create_payouts-Outcome_example = calculate_and_create_payouts-Outcome 2 market

calculate_and_create_payouts-sum_example :
    sum_by payout_amount maize_payouts ≡ pool_revenue 2 market_database.orders
calculate_and_create_payouts-sum_example =
    calculate_and_create_payouts-sum 2 market maize_payouts maize_shared (λ e. cc)

-- Three farmers with 1, 1 and 5 of 7 units.
abbrev rows : List ContributorRow
rows =
    record { farmer_id = 22; farmer_email = "c"; total_qty = 5 }
    ∷ record { farmer_id = 20; farmer_email = "a"; total_qty = 1 }
    ∷ record { farmer_id = 21; farmer_email = "b"; total_qty = 1 }
    ∷ []

shares_of-Fair_example :
    Fair 1000 (sum_by row_qty rows) 0 (sort (ascending row_qty) rows) (shares_of 1000 rows)
unfolding sum_by
shares_of-Fair_example = shares_of-Fair 1000 rows (omega arith)
