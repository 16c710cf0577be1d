-- ===== src/Payouts.antt =====
-- app/features/payouts/service.py: the revenue of a closed pool is shared out among its farmers.
pub mod Split
pub mod Exact
pub mod Outcome
pub mod Revenue
pub mod Late
use farm_link.Common.{
  ⊤, ℕ, Bool, true, false, Option, none, some, List, [], ◌∷◌, ◌==◌, ◌&&◌, if◌then◌else◌, sum_by,
  select, first, find, sort, ascending, descending,
}
use farm_link.Schema.{
  Uuid, Kobo, Pool, Order, Payout, is_opened, is_paid, is_some, integrity_error, data_error,
  Database,
}
use farm_link.Session.{
  State, Exn, pool_not_found, pool_not_closed, pool_already_paid_out, decimal_error, database,
  Result, ok, err, Action, pure, raise, gets, ◌>>=◌, ◌>>◌, branch, attempt, or_abort, abort,
  abort_if, raise_if, commit, uuid4, insert_payout,
}
use farm_link.Pools.{select_pool}
use farm_link.Contributions.{ContributorRow, row_qty, get_pool_contributor_summary}
use Split.{Share, shares_from}

abbrev pub pays_out : Uuid → Payout → Bool
pays_out pool_id p = p.pool_id == pool_id

-- `select(Payout.id).where(Payout.pool_id == pool_id).limit(1)` finds a row.
unfoldable pub already_paid_out : Uuid → List Payout → Bool
already_paid_out pool_id payouts = is_some (first (pays_out pool_id) payouts)

abbrev pub earns_for : Uuid → Order → Bool
earns_for pool_id o = o.pool_id == pool_id && is_paid o.status

abbrev pub order_total : Order → Kobo
order_total o = o.total

-- The sum of the totals of the pool's paid orders.
unfoldable pub pool_revenue : Uuid → List Order → Kobo
pool_revenue pool_id orders = sum_by order_total (select (earns_for pool_id) orders)

abbrev pub several : List ContributorRow → Bool
several [] = false
several (r ∷ []) = false
several (r ∷ s ∷ rows) = true

-- The rows to insert, in the order of the shares.
unfoldable pub insert_payouts : Uuid → List Share → Action (List Payout)
insert_payouts pool_id [] = pure []
insert_payouts pool_id (s ∷ shares) = do
  id ← uuid4
  now ← gets (λ s. s.now)
  let payout : Payout = record {
    id = id;
    pool_id = pool_id;
    farmer_id = s.farmer_id;
    amount = s.amount;
    created_at = now;
  }
  insert_payout payout
  rest ← insert_payouts pool_id shares
  pure (payout ∷ rest)

-- The commit, and the handler of an `IntegrityError` in it.
abbrev pub settle_payouts : Result (List Payout) → Action (List Payout)
settle_payouts (ok payouts) = do commit; pure payouts
settle_payouts (err (database integrity_error)) = abort pool_already_paid_out
settle_payouts (err (database data_error)) = raise (database data_error)
settle_payouts (err e) = raise e

-- The shares of all rows: ascending by quantity, so that the largest contributor is the last.
unfoldable pub shares_of : Kobo → List ContributorRow → List Share
unfolding shares_from
shares_of revenue rows = shares_from revenue (sum_by row_qty rows) 0 (sort (ascending row_qty) rows)

-- With contributors: a pool that earned nothing pays nothing.
unfoldable pub distribute : Uuid → List ContributorRow → Kobo → Action (List Payout)
distribute pool_id rows revenue = branch (revenue == 0) (commit >> pure []) do
  raise_if (several rows && sum_by row_qty rows == 0) decimal_error
  inserted ← attempt (insert_payouts pool_id (shares_of revenue rows))
  settle_payouts inserted

unfoldable pub distribute_if_any : Uuid → List ContributorRow → Action (List Payout)
distribute_if_any pool_id [] = commit >> pure []
distribute_if_any pool_id (r ∷ rows) = do
  revenue ← gets (λ s. pool_revenue pool_id s.working.orders)
  distribute pool_id (r ∷ rows) revenue

unfoldable pub calculate_and_create_payouts : Uuid → Action (List Payout)
calculate_and_create_payouts pool_id = do
  row ← select_pool pool_id
  pool ← or_abort row pool_not_found
  abort_if (is_opened pool.status) pool_not_closed
  already_paid ← gets (λ s. already_paid_out pool_id s.working.payouts)
  abort_if already_paid pool_already_paid_out
  rows ← get_pool_contributor_summary pool_id
  distribute_if_any pool_id rows

unfoldable pub list_payouts_for_pool : Uuid → Action (List Payout)
list_payouts_for_pool pool_id =
    gets λ s. sort (descending (λ p. p.created_at)) (select (pays_out pool_id) s.working.payouts)

abbrev pays_to : Uuid → Payout → Bool
pays_to farmer_id p = p.farmer_id == farmer_id

unfoldable pub list_payouts_for_farmer : Uuid → Action (List Payout)
list_payouts_for_farmer farmer_id =
    gets λ s. sort (descending (λ p. p.created_at)) (select (pays_to farmer_id) s.working.payouts)
