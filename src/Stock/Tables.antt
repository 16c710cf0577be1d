-- ===== src/Stock/Tables.antt =====
-- The stock under each change of a table.
use farm_link.Common.{
  ℕ, ◌+◌, ◌≡◌, none, some, List, [], ◌∷◌, ◌++◌, arith, ◌==◌, find, replace, sum_by, if◌then◌else◌,
  sum_by-append, sum_by-replace, find-replace_self, find-replace_ne, find-append_none,
  find-append_some, Bool-cases, Option-cases, ==_iff, inl, inr,
}
use farm_link.Schema.{Uuid, Pool, Order, Contribution, pool_key, order_key}
use farm_link.Stock.{
  waiting_qty, sold_qty, ordered_qty, contributed_qty, contributed, Demand, demand,
}

-- What an order adds to the three sums.
abbrev pub Adds : Uuid → Order → Demand → Demand → Type 0
Adds k o d d' =
    (d'.unpaid ≡ d.unpaid + waiting_qty k o)
    × (d'.paid_for ≡ d.paid_for + sold_qty k o)
    × (d'.placed ≡ d.placed + ordered_qty k o)

pub demand-append :
    (k : ℕ) (orders : List Order) (o : Order)
    → Adds k o (demand k orders) (demand k (orders ++ o ∷ []))
unfolding sum_by
demand-append k orders o =
    let rest = o ∷ [] in
    (
      omega (arith, sum_by-append (waiting_qty k) orders rest),
      omega (arith, sum_by-append (sold_qty k) orders rest),
      omega (arith, sum_by-append (ordered_qty k) orders rest),
    )

-- What an order that takes the place of another changes in the three sums.
abbrev pub Changes : Uuid → Order → Order → Demand → Demand → Type 0
Changes k o old d d' =
    (d'.unpaid + waiting_qty k old ≡ d.unpaid + waiting_qty k o)
    × (d'.paid_for + sold_qty k old ≡ d.paid_for + sold_qty k o)
    × (d'.placed + ordered_qty k old ≡ d.placed + ordered_qty k o)

pub demand-replace :
    (k : ℕ) (o old : Order) (orders : List Order)
    → find order_key o.id orders ≡ some old
    → Changes k o old (demand k orders) (demand k (replace order_key o orders))
demand-replace k o old orders e = (
  sum_by-replace order_key (waiting_qty k) o old orders e,
  sum_by-replace order_key (sold_qty k) o old orders e,
  sum_by-replace order_key (ordered_qty k) o old orders e,
)

pub contributed-append :
    (k : ℕ) (cs : List Contribution) (c : Contribution)
    → contributed k (cs ++ c ∷ []) ≡ contributed k cs + contributed_qty k c
unfolding sum_by
contributed-append k cs c = omega (arith, sum_by-append (contributed_qty k) cs (c ∷ []))

-- A pool's row after an update: that row for its own key, and the old one for every other.
pub find-replace_pool :
    (k : ℕ) (p old : Pool) (pools : List Pool)
    → find pool_key p.id pools ≡ some old
    → find pool_key k (replace pool_key p pools)
      ≡ (if k == p.id then some p else find pool_key k pools)
find-replace_pool k p old pools e = elim (Bool-cases (k == p.id)) [
  | inl same ↦ rw (same, (==_iff k p.id).0 same) (find-replace_self pool_key p pools old e)
  | inr other ↦ rw other (find-replace_ne pool_key k p pools (ground arith))
]

-- A pool that is put in under a new key.
pub find-append_pool :
    (k : ℕ) (p : Pool) (pools : List Pool)
    → find pool_key p.id pools ≡ none
    → find pool_key k (pools ++ p ∷ []) ≡ (if k == p.id then some p else find pool_key k pools)
find-append_pool k p pools e = elim (Option-cases (find pool_key k pools)) [
  | inl absent ↦ ground (arith, find-append_none pool_key k pools p absent)
  | inr (row, there) ↦ ground (arith, find-append_some pool_key k pools p row there)
]
