-- ===== src/Payouts/Exact.antt =====
-- The shares of a pool's revenue add up to it, and each is fair to the kobo.
use farm_link.Common.{
  ℕ, suc, ◌+◌, ◌-◌, ◌*◌, ◌≤◌, ◌<◌, ◌≡◌, ◌≢◌, refl, ap, List, [], ◌∷◌, arith, length, sum_by, sort,
  ascending, sum_by-sort, length-sort,
}
use farm_link.Schema.{Kobo}
use farm_link.Contributions.{ContributorRow, row_qty}
use farm_link.Payouts.Split.{Share, share_amount, rounded_share, shares_from}
use farm_link.Payouts.{shares_of}

rounded_share-le : (v t q : ℕ) → rounded_share v t q * t ≤ v * q
unfolding rounded_share
rounded_share-le v t q = grind arith

rounded_share-lt : (v t q : ℕ) → 0 < t → v * q < rounded_share v t q * t + t
unfolding rounded_share
rounded_share-lt v t q h = grind arith

le_cancel : (a b t : ℕ) → 0 < t → a * t ≤ b * t → a ≤ b
le_cancel a b t h le = grind arith

-- What is allocated and what the remaining rows are due stay within the revenue.
abbrev Within : Kobo → ℕ → Kobo → List ContributorRow → Type 0
Within v t allocated rows = allocated * t + v * sum_by row_qty rows ≤ v * t

Within-step :
    (v t allocated : ℕ) (r : ContributorRow) (rows : List ContributorRow)
    → Within v t allocated (r ∷ rows)
    → Within v t (allocated + rounded_share v t r.total_qty) rows
unfolding sum_by
Within-step v t allocated r rows h = omega (arith, rounded_share-le v t r.total_qty)

Within-le :
    (v t allocated : ℕ) (rows : List ContributorRow)
    → 0 < t
    → Within v t allocated rows
    → allocated ≤ v
Within-le v t allocated rows pos h = le_cancel allocated v t pos (omega arith)

pub shares_from-sum :
    (v t allocated : ℕ) (rows : List ContributorRow)
    → 0 < t
    → rows ≢ []
    → Within v t allocated rows
    → allocated + sum_by share_amount (shares_from v t allocated rows) ≡ v
unfolding shares_from sum_by
shares_from-sum v t allocated [] pos ne h = absurd (ne refl)
shares_from-sum v t allocated (r ∷ []) pos ne h =
    omega (arith, Within-le v t allocated (r ∷ []) pos h)
shares_from-sum v t allocated (r ∷ s ∷ rows) pos ne h =
    let amount = rounded_share v t r.total_qty in
    omega (
      arith,
      shares_from-sum v t (allocated + amount) (s ∷ rows) pos (λ e. cc)
          (Within-step v t allocated r (s ∷ rows) h),
    )

-- With k rows behind, the revenue is missed by at most k kobo.
abbrev Close : Kobo → ℕ → ℕ → Kobo → List ContributorRow → Type 0
Close v t k allocated rows = v * t ≤ allocated * t + k * t + v * sum_by row_qty rows

Close-step :
    (v t k allocated : ℕ) (r : ContributorRow) (rows : List ContributorRow)
    → 0 < t
    → Close v t k allocated (r ∷ rows)
    → Close v t (suc k) (allocated + rounded_share v t r.total_qty) rows
unfolding sum_by
Close-step v t k allocated r rows pos h = omega (arith, rounded_share-lt v t r.total_qty pos)

-- Each row's share, k rows behind: its proportion rounded down, for the last row with up to k kobo
-- more. Nobody else gets a share.
abbrev pub Fair : Kobo → ℕ → ℕ → List ContributorRow → List Share → Type 0
Fair v t k [] [] = Unit {0}
Fair v t k [] (s ∷ shares) = ⊥
Fair v t k (r ∷ rows) [] = ⊥
Fair v t k (r ∷ []) (s ∷ shares) =
    (s.farmer_id ≡ r.farmer_id)
    × (rounded_share v t r.total_qty ≤ s.amount)
    × (s.amount ≤ rounded_share v t r.total_qty + k)
    × (shares ≡ [])
Fair v t k (r ∷ r' ∷ rows) (s ∷ shares) =
    (s.farmer_id ≡ r.farmer_id)
    × (s.amount ≡ rounded_share v t r.total_qty)
    × Fair v t (suc k) (r' ∷ rows) shares

lt_cancel : (a b t : ℕ) → a * t < b * t → a < b
lt_cancel a b t h = grind arith

-- What is left for the last row, `rest`, with `allocated` spent.
last_lower :
    (v t allocated rest : ℕ) (r : ContributorRow)
    → 0 < t
    → rest + allocated ≡ v
    → Within v t allocated (r ∷ [])
    → rounded_share v t r.total_qty ≤ rest
unfolding sum_by
last_lower v t allocated rest r pos e h =
    le_cancel _ _ t pos (omega (arith, rounded_share-le v t r.total_qty, ap (λ (x : ℕ). x * t) e))

last_upper :
    (v t k allocated rest : ℕ) (r : ContributorRow)
    → 0 < t
    → rest + allocated ≡ v
    → Close v t k allocated (r ∷ [])
    → rest ≤ rounded_share v t r.total_qty + k
unfolding sum_by
last_upper v t k allocated rest r pos e c =
    let part = rounded_share v t r.total_qty in
    let below : rest * t < (part + k + 1) * t =
      omega (arith, rounded_share-lt v t r.total_qty pos, ap (λ (x : ℕ). x * t) e) in
    omega (arith, lt_cancel rest (part + k + 1) t below)

shares_from-Fair :
    (v t k allocated : ℕ) (rows : List ContributorRow)
    → 0 < t
    → Within v t allocated rows
    → Close v t k allocated rows
    → Fair v t k rows (shares_from v t allocated rows)
unfolding shares_from
shares_from-Fair v t k allocated [] pos w c = tt
shares_from-Fair v t k allocated (r ∷ []) pos w c =
    let e : v - allocated + allocated ≡ v = omega (arith, Within-le v t allocated (r ∷ []) pos w) in
    (
      refl,
      last_lower v t allocated (v - allocated) r pos e w,
      last_upper v t k allocated (v - allocated) r pos e c,
      refl,
    )
shares_from-Fair v t k allocated (r ∷ r' ∷ rows) pos w c = (
  refl,
  refl,
  shares_from-Fair v t (suc k) (allocated + rounded_share v t r.total_qty) (r' ∷ rows) pos
      (Within-step v t allocated r (r' ∷ rows) w) (Close-step v t k allocated r (r' ∷ rows) pos c),
)

sort-ne-nil : (rows : List ContributorRow) → rows ≢ [] → sort (ascending row_qty) rows ≢ []
sort-ne-nil [] ne e = ne refl
sort-ne-nil (r ∷ rows) ne e =
    absurd (omega (arith, ap length e, length-sort (ascending row_qty) (r ∷ rows)))

rows_ne_nil : (rows : List ContributorRow) → 0 < sum_by row_qty rows → rows ≢ []
unfolding sum_by
rows_ne_nil [] h e = absurd (omega arith)
rows_ne_nil (r ∷ rows) h e = cc

-- The shares of a pool's revenue add up to it exactly, whatever the quantities.
pub shares_of-sum :
    (revenue : ℕ) (rows : List ContributorRow)
    → 0 < sum_by row_qty rows
    → sum_by share_amount (shares_of revenue rows) ≡ revenue
unfolding shares_of
shares_of-sum revenue rows pos =
    let same = sum_by-sort row_qty (ascending row_qty) rows in
    omega (
      arith,
      shares_from-sum revenue (sum_by row_qty rows) 0 (sort (ascending row_qty) rows) pos
          (sort-ne-nil rows (rows_ne_nil rows pos)) (rw same (omega arith)),
    )

-- Sorted by quantity, every farmer gets the pool's revenue in proportion, rounded down to the kobo,
-- and the largest contributor gets no more than one kobo extra for each other farmer.
pub shares_of-Fair :
    (revenue : ℕ) (rows : List ContributorRow)
    → 0 < sum_by row_qty rows
    → Fair revenue (sum_by row_qty rows) 0 (sort (ascending row_qty) rows) (shares_of revenue rows)
unfolding shares_of
shares_of-Fair revenue rows pos =
    let same = sum_by-sort row_qty (ascending row_qty) rows in
    shares_from-Fair revenue (sum_by row_qty rows) 0 0 (sort (ascending row_qty) rows) pos
      (rw same (omega arith)) (rw same (omega arith))
