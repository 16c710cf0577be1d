-- ===== src/Contributions/Summary.antt =====
-- The contributor summary accounts for every unit of a pool.
use farm_link.Common.{
  ℕ, ◌+◌, ◌≡◌, ◌≢◌, refl, none, List, [], ◌∷◌, arith, ◌==◌, String, find, sum_by, sum_by-sort,
  if◌then◌else◌, Option-cases, inl, inr, descending,
}
use farm_link.Schema.{Uuid, User, Contribution, user_key}
use farm_link.Contributions.{ContributorRow, row_qty, add_to_group, grouped, contributor_summary}
use farm_link.Stock.{contributed_qty, contributed}

add_to_group-sum :
    (farmer_id : Uuid) (email : String) (qty : ℕ) (rows : List ContributorRow)
    → sum_by row_qty (add_to_group farmer_id email qty rows) ≡ sum_by row_qty rows + qty
unfolding add_to_group sum_by
add_to_group-sum farmer_id email qty [] = omega arith
add_to_group-sum farmer_id email qty (r ∷ rows) =
    ground (arith, add_to_group-sum farmer_id email qty rows)

-- Every contribution is a registered user's.
abbrev pub HaveFarmers : List User → List Contribution → Type 0
HaveFarmers users [] = Unit {0}
HaveFarmers users (c ∷ cs) = (find user_key c.farmer_id users ≢ none) × HaveFarmers users cs

grouped-sum :
    (users : List User) (pool_id : Uuid) (cs : List Contribution)
    → HaveFarmers users cs
    → sum_by row_qty (grouped users pool_id cs) ≡ contributed pool_id cs
unfolding grouped sum_by contributed_qty
grouped-sum users pool_id [] h = refl
grouped-sum users pool_id (c ∷ cs) h = elim (Option-cases (find user_key c.farmer_id users)) [
  | inl absent ↦ absurd (h.0 absent)
  | inr (farmer, there) ↦ ground (
    arith,
    there,
    grouped-sum users pool_id cs h.1,
    add_to_group-sum c.farmer_id farmer.email c.qty (grouped users pool_id cs),
  )
]

-- The totals of the summary add up to what the pool was given.
pub contributor_summary-sum :
    (users : List User) (pool_id : Uuid) (cs : List Contribution)
    → HaveFarmers users cs
    → sum_by row_qty (contributor_summary users pool_id cs) ≡ contributed pool_id cs
unfolding contributor_summary
contributor_summary-sum users pool_id cs h =
    rw (sum_by-sort row_qty (descending row_qty) (grouped users pool_id cs))
      (grouped-sum users pool_id cs h)

-- What farmer f has given to pool k.
unfoldable pub given_qty : Uuid → Uuid → Contribution → ℕ
given_qty k f c = if k == c.pool_id then (if f == c.farmer_id then c.qty else 0) else 0

unfoldable pub row_of : Uuid → ContributorRow → ℕ
row_of f r = if f == r.farmer_id then r.total_qty else 0

add_to_group-row :
    (f farmer_id : Uuid) (email : String) (qty : ℕ) (rows : List ContributorRow)
    → sum_by (row_of f) (add_to_group farmer_id email qty rows)
      ≡ sum_by (row_of f) rows + (if f == farmer_id then qty else 0)
unfolding add_to_group sum_by row_of
add_to_group-row f farmer_id email qty [] = ground arith
add_to_group-row f farmer_id email qty (r ∷ rows) =
    ground (arith, add_to_group-row f farmer_id email qty rows)

grouped-row :
    (f : Uuid) (users : List User) (pool_id : Uuid) (cs : List Contribution)
    → HaveFarmers users cs
    → sum_by (row_of f) (grouped users pool_id cs) ≡ sum_by (given_qty pool_id f) cs
unfolding grouped sum_by given_qty
grouped-row f users pool_id [] h = refl
grouped-row f users pool_id (c ∷ cs) h = elim (Option-cases (find user_key c.farmer_id users)) [
  | inl absent ↦ absurd (h.0 absent)
  | inr (farmer, there) ↦ ground (
    arith,
    there,
    grouped-row f users pool_id cs h.1,
    add_to_group-row f c.farmer_id farmer.email c.qty (grouped users pool_id cs),
  )
]

-- For every farmer the summary shows, over all rows, exactly what that farmer gave to the pool.
pub contributor_summary-row :
    (f : Uuid) (users : List User) (pool_id : Uuid) (cs : List Contribution)
    → HaveFarmers users cs
    → sum_by (row_of f) (contributor_summary users pool_id cs) ≡ sum_by (given_qty pool_id f) cs
unfolding contributor_summary
contributor_summary-row f users pool_id cs h =
    rw (sum_by-sort (row_of f) (descending row_qty) (grouped users pool_id cs))
      (grouped-row f users pool_id cs h)
