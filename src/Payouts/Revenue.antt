-- ===== src/Payouts/Revenue.antt =====
-- A distribution pays out the pool's revenue exactly, and only once.
use farm_link.Common.{
  ℕ, ◌≡◌, ◌≢◌, refl, ◌∙◌, inl, inr, true, Option, none, some, List, [], ◌∷◌, ◌++◌, arith, find,
  first, if◌then◌else◌, Option-cases, Bool-cases, sum_by, sort, insert_sorted,
}
use farm_link.Schema.{Uuid, Payout, Database, pool_key, is_opened}
use farm_link.Session.{
  State, Exn, pool_not_found, pool_not_closed, pool_already_paid_out, Result, ok, err, with_session,
}
use farm_link.Contributions.{ContributorRow}
use farm_link.Payouts.Split.{Share, share_amount, shares_from}
use farm_link.Payouts.Exact.{shares_of-sum}
use farm_link.Payouts.{already_paid_out, pool_revenue, shares_of, calculate_and_create_payouts}
use farm_link.Payouts.Outcome.{
  payout_amount, Matches, Matches-sum, Divisible, rows_of, Outcome,
  calculate_and_create_payouts-Outcome,
}

-- One contributor gets everything; several share it.
Divisible-sum :
    (revenue : ℕ) (rows : List ContributorRow)
    → rows ≢ []
    → Divisible rows
    → sum_by share_amount (shares_of revenue rows) ≡ revenue
unfolding shares_of sum_by sort insert_sorted shares_from
Divisible-sum revenue [] ne d = absurd (ne refl)
Divisible-sum revenue (r ∷ []) ne d = omega arith
Divisible-sum revenue (r ∷ s ∷ rows) ne d = shares_of-sum revenue (r ∷ s ∷ rows) (ground arith)

paid_sum :
    (pool_id : Uuid) (s : State) (result : Result (List Payout)) (ps : List Payout) (db : Database)
    → Outcome pool_id s (result, db)
    → result ≡ ok ps
    → ps ≢ []
    → sum_by payout_amount ps ≡ pool_revenue pool_id s.committed.orders
paid_sum pool_id s (err e) ps db same is_ok ne = cc
paid_sum pool_id s (ok qs) ps db (_, _, _, _, inl (none_due, _, _)) is_ok ne = absurd (ne (cc))
paid_sum pool_id s (ok qs) ps db (_, _, _, _, inr (some_rows, _, d, m, _)) is_ok ne =
    let rows = rows_of pool_id s.committed in
    let revenue = pool_revenue pool_id s.committed.orders in
    let qs_sum : sum_by payout_amount qs ≡ revenue =
      Matches-sum pool_id (shares_of revenue rows) qs m ∙ Divisible-sum revenue rows some_rows d in
    ground arith

-- The payouts of a distribution add up to the revenue of the pool's paid orders, to the kobo.
pub calculate_and_create_payouts-sum :
    (pool_id : Uuid) (s : State) (ps : List Payout)
    → (with_session (calculate_and_create_payouts pool_id) s).0 ≡ ok ps
    → ps ≢ []
    → sum_by payout_amount ps ≡ pool_revenue pool_id s.committed.orders
calculate_and_create_payouts-sum pool_id s ps is_ok ne =
    paid_sum pool_id s _ ps (with_session (calculate_and_create_payouts pool_id) s).1.committed
      (calculate_and_create_payouts-Outcome pool_id s) is_ok ne

-- Which distributions are refused, in the order of the checks.
unfoldable pub distribution_refusal : Uuid → Database → Option Exn
distribution_refusal pool_id db = elim (find pool_key pool_id db.pools) [
  | none ↦ some pool_not_found
  | some pool ↦
      if is_opened pool.status
      then some pool_not_closed
      else (if already_paid_out pool_id db.payouts then some pool_already_paid_out else none)
]

-- A distribution is refused for the first check that fails, and leaves everything as it was.
pub calculate_and_create_payouts-refused :
    (pool_id : Uuid) (s : State) (e : Exn)
    → distribution_refusal pool_id s.committed ≡ some e
    → with_session (calculate_and_create_payouts pool_id) s
      ≡ (err e, record s { working = s.committed })
unfolding with_session calculate_and_create_payouts distribution_refusal
calculate_and_create_payouts-refused pool_id s e why =
    elim (Option-cases (find pool_key pool_id s.committed.pools)) [
      | inl absent ↦ ground arith
      | inr (pool, there) ↦ elim (Bool-cases (is_opened pool.status)) [
        | inl running ↦ ground arith
        | inr shut ↦ elim (Bool-cases (already_paid_out pool_id s.committed.payouts)) [
          | inl again ↦ ground arith
          | inr new ↦ ground arith
        ]
      ]
    ]

-- A payout for the pool is found among the new ones.
already_paid_out-append :
    (pool_id : Uuid) (old : List Payout) (shares : List Share) (ps : List Payout)
    → ps ≢ []
    → Matches pool_id shares ps
    → already_paid_out pool_id (old ++ ps) ≡ true
unfolding already_paid_out first
already_paid_out-append pool_id [] shares [] ne m = absurd (ne refl)
already_paid_out-append pool_id [] [] (p ∷ ps) ne m = absurd m
already_paid_out-append pool_id [] (s ∷ shares) (p ∷ ps) ne m = ground (arith, m.0)
already_paid_out-append pool_id (o ∷ old) shares ps ne m =
    ground (arith, already_paid_out-append pool_id old shares ps ne m)

refused_after :
    (pool_id : Uuid) (s : State) (result : Result (List Payout)) (ps : List Payout) (db : Database)
    → Outcome pool_id s (result, db)
    → result ≡ ok ps
    → ps ≢ []
    → distribution_refusal pool_id db ≡ some pool_already_paid_out
unfolding distribution_refusal
refused_after pool_id s (err e) ps db same is_ok ne = cc
refused_after pool_id s (ok qs) ps db (_, _, _, _, inl (none_due, _, _)) is_ok ne = absurd (ne (cc))
refused_after pool_id s (ok qs) ps db (pool, there, shut, _, inr (_, _, _, m, same)) is_ok ne =
    let found : already_paid_out pool_id (s.committed.payouts ++ qs) ≡ true =
      already_paid_out-append pool_id s.committed.payouts _ qs (λ e. ne (cc)) m in
    rw same (ground arith)

-- Once a pool has been paid out, a second distribution is refused and changes nothing.
pub calculate_and_create_payouts-twice :
    (pool_id : Uuid) (s : State) (ps : List Payout)
    → (with_session (calculate_and_create_payouts pool_id) s).0 ≡ ok ps
    → ps ≢ []
    → let s' = (with_session (calculate_and_create_payouts pool_id) s).1 in
      with_session (calculate_and_create_payouts pool_id) s'
      ≡ (err pool_already_paid_out, record s' { working = s'.committed })
calculate_and_create_payouts-twice pool_id s ps is_ok ne =
    let s' = (with_session (calculate_and_create_payouts pool_id) s).1 in
    calculate_and_create_payouts-refused pool_id s' pool_already_paid_out (
      refused_after pool_id s _ ps s'.committed (calculate_and_create_payouts-Outcome pool_id s)
        is_ok ne)
