-- ===== src/Payouts/Split.antt =====
-- The split of a pool's revenue in app/features/payouts/service.py, in kobo: each share but the last
-- is rounded down, and the last takes what is left. A share is computed with 28 digits, which is
-- exact to the kobo for revenues below 10^13 kobo and quantities below 2^31.
use farm_link.Common.{ℕ, ◌+◌, ◌-◌, ◌*◌, ◌/◌, List, [], ◌∷◌}
use farm_link.Schema.{Uuid, Kobo}
use farm_link.Contributions.{ContributorRow}

pub record Share : Type 0 where
  pub farmer_id : Uuid
  pub amount : Kobo

abbrev pub share_amount : Share → Kobo
share_amount s = s.amount

-- `(total_revenue * qty / total_qty).quantize(_CENTS, rounding=ROUND_DOWN)`
unfoldable pub rounded_share : Kobo → ℕ → ℕ → Kobo
rounded_share revenue total_qty qty = revenue * qty / total_qty

-- The loop over the rows, with what is allocated so far.
unfoldable pub shares_from : Kobo → ℕ → Kobo → List ContributorRow → List Share
shares_from revenue total_qty allocated [] = []
shares_from revenue total_qty allocated (r ∷ []) =
    record { farmer_id = r.farmer_id; amount = revenue - allocated } ∷ []
shares_from revenue total_qty allocated (r ∷ s ∷ rows) =
    let amount = rounded_share revenue total_qty r.total_qty in
    record { farmer_id = r.farmer_id; amount = amount }
    ∷ shares_from revenue total_qty (allocated + amount) (s ∷ rows)
