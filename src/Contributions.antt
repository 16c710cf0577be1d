-- ===== src/Contributions.antt =====
-- app/features/contributions/service.py: a farmer's stock enters a pool.
pub mod Outcome
pub mod Summary
use farm_link.Common.{
  ⊤, ℕ, ◌+◌, String, Bool, Option, none, some, List, [], ◌∷◌, ◌==◌, if◌then◌else◌, find, select,
  sort, descending, not,
}
use farm_link.Schema.{Uuid, User, Pool, Contribution, user_key, pool_key, is_opened}
use farm_link.Session.{
  State, Exn, pool_not_found, pool_closed, FeedEvent, contribution_added, Action, pure, gets, ◌>>=◌,
  ◌>>◌, or_abort, abort_if, commit, uuid4, update_pool, insert_contribution, publish_pool_event,
}
use farm_link.Pools.{select_pool, invalidate_pool_cache}

-- `create_contribution` past the lock on the pool's row, with the row as the lock found it.
abbrev pub contribute_from : Uuid → Uuid → ℕ → Option Pool → Action Contribution
contribute_from farmer_id pool_id qty row = do
  pool ← or_abort row pool_not_found
  abort_if (not (is_opened pool.status)) Exn.pool_closed
  let grown = record pool {
    total_qty = pool.total_qty + qty;
    available_qty = pool.available_qty + qty;
  }
  id ← uuid4
  now ← gets (λ s. s.now)
  let contribution : Contribution = record {
    id = id;
    pool_id = pool_id;
    farmer_id = farmer_id;
    qty = qty;
    created_at = now;
  }
  update_pool grown
  insert_contribution contribution
  commit
  invalidate_pool_cache (some pool_id)
  publish_pool_event pool_id (contribution_added farmer_id qty grown.available_qty)
  pure contribution

unfoldable pub create_contribution : Uuid → Uuid → ℕ → Action Contribution
create_contribution farmer_id pool_id qty = do
  row ← select_pool pool_id
  contribute_from farmer_id pool_id qty row

-- `Contribution.pool_id == pool_id`
abbrev pub contributes_to : Uuid → Contribution → Bool
contributes_to pool_id c = c.pool_id == pool_id

unfoldable pub list_contributions_for_pool : Uuid → Action (List Contribution)
list_contributions_for_pool pool_id = gets λ s.
    sort (descending (λ c. c.created_at)) (select (contributes_to pool_id) s.working.contributions)

-- A farmer's row in the summary: `PoolContributorSummary`.
pub record ContributorRow : Type 0 where
  pub farmer_id : Uuid
  pub farmer_email : String
  pub total_qty : ℕ

abbrev pub row_qty : ContributorRow → ℕ
row_qty r = r.total_qty

-- GROUP BY farmer and email: adds a contribution to its farmer's row.
unfoldable pub add_to_group : Uuid → String → ℕ → List ContributorRow → List ContributorRow
add_to_group farmer_id email qty [] =
    record { farmer_id = farmer_id; farmer_email = email; total_qty = qty } ∷ []
add_to_group farmer_id email qty (r ∷ rows) =
    if farmer_id == r.farmer_id
    then record r { total_qty = r.total_qty + qty } ∷ rows
    else r ∷ add_to_group farmer_id email qty rows

-- JOIN with the users, WHERE the pool is this one, and GROUP BY.
unfoldable pub grouped : List User → Uuid → List Contribution → List ContributorRow
unfolding add_to_group
grouped users pool_id [] = []
grouped users pool_id (c ∷ cs) =
    let rest = grouped users pool_id cs in
    if contributes_to pool_id c
    then (elim (find user_key c.farmer_id users) [
      | none ↦ rest
      | some farmer ↦ add_to_group c.farmer_id farmer.email c.qty rest
    ])
    else rest

-- The largest total first. Rows with equal totals come in the order of their first contribution
-- from the end, where the database leaves the order open.
unfoldable pub contributor_summary : List User → Uuid → List Contribution → List ContributorRow
unfolding grouped
contributor_summary users pool_id contributions =
    sort (descending row_qty) (grouped users pool_id contributions)

unfoldable pub get_pool_contributor_summary : Uuid → Action (List ContributorRow)
get_pool_contributor_summary pool_id =
    gets λ s. contributor_summary s.working.users pool_id s.working.contributions
