-- ===== src/Payouts/Outcome.antt =====
-- `calculate_and_create_payouts` as one transaction.
use farm_link.Common.{
  ◌+◌, ◌≡◌, ◌≢◌, refl, ap, sym, ◌⊎◌, inl, inr, false, ◌&&◌, some, List, [], ◌∷◌, ◌++◌, arith, ◌==◌,
  find, sum_by, Option-cases, Bool-cases,
}
use mathlib.Core.List.{append-nil, append_assoc}
use farm_link.Schema.{Uuid, Kobo, Pool, Payout, Database, pool_key, is_opened, admit_payout}
use farm_link.Session.{
  State, Result, Result-cases, ok, err, with_session, commit, uuid4, insert_payout,
}
use farm_link.Contributions.{
  ContributorRow, row_qty, contributor_summary, get_pool_contributor_summary,
}
use farm_link.Payouts.Split.{Share, share_amount}
use farm_link.Payouts.{
  already_paid_out, pool_revenue, several, insert_payouts, settle_payouts, shares_of, distribute,
  distribute_if_any, calculate_and_create_payouts,
}

abbrev pub payout_amount : Payout → Kobo
payout_amount p = p.amount

-- The payouts are the shares, in their order, for this pool.
abbrev pub Matches : Uuid → List Share → List Payout → Type 0
Matches pool_id [] [] = Unit {0}
Matches pool_id [] (p ∷ ps) = ⊥
Matches pool_id (s ∷ shares) [] = ⊥
Matches pool_id (s ∷ shares) (p ∷ ps) =
    (p.pool_id ≡ pool_id)
    × (p.farmer_id ≡ s.farmer_id)
    × (p.amount ≡ s.amount)
    × Matches pool_id shares ps

pub Matches-sum :
    (pool_id : Uuid) (shares : List Share) (ps : List Payout)
    → Matches pool_id shares ps
    → sum_by payout_amount ps ≡ sum_by share_amount shares
unfolding sum_by
Matches-sum pool_id [] [] h = refl
Matches-sum pool_id [] (p ∷ ps) h = absurd h
Matches-sum pool_id (s ∷ shares) [] h = absurd h
Matches-sum pool_id (s ∷ shares) (p ∷ ps) h = omega (arith, h.2, Matches-sum pool_id shares ps h.3)

-- The session with more payouts in it.
abbrev with_payouts : List Payout → State → Database
with_payouts ps t = record t.working { payouts = t.working.payouts ++ ps }

abbrev Inserted : Uuid → List Share → State → Result (List Payout) × State → Type 0
Inserted pool_id shares t (err e, t') = t'.committed ≡ t.committed
Inserted pool_id shares t (ok ps, t') =
    (t'.committed ≡ t.committed) × Matches pool_id shares ps × (t'.working ≡ with_payouts ps t)

insert_payouts-Inserted :
    (pool_id : Uuid) (shares : List Share) (t : State)
    → let (result, t') = insert_payouts pool_id shares t in Inserted pool_id shares t (result, t')
unfolding insert_payouts uuid4 insert_payout
insert_payouts-Inserted pool_id [] t =
    (refl, tt, ap (λ ps. record t.working { payouts = ps }) (sym (append-nil _)))
insert_payouts-Inserted pool_id (s ∷ shares) t =
    elim (Option-cases (admit_payout t.working payout)) [
      | inr (e, known) ↦ ground arith
      | inl fresh ↦ elim (Result-cases (insert_payouts pool_id shares t').0) [
        | inl (e, bad) ↦ ground (arith, insert_payouts-Inserted pool_id shares t')
        | inr (ps, good) ↦ ground (
          arith,
          insert_payouts-Inserted pool_id shares t',
          append_assoc t.working.payouts (payout ∷ []) ps,
        )
      ]
    ]
  where
    payout : Payout
    payout = record {
      id = t.uuids t.drawn;
      pool_id = pool_id;
      farmer_id = s.farmer_id;
      amount = s.amount;
      created_at = t.now;
    }

    t' : State
    t' = record t { working = with_payouts (payout ∷ []) t; drawn = t.drawn + 1 }

-- With one contributor there is nothing to divide; with several their quantities are not all 0.
abbrev pub Divisible : List ContributorRow → Type 0
Divisible rows = (several rows && sum_by row_qty rows == 0) ≡ false

abbrev Distributed :
    Uuid → List ContributorRow → Kobo → State → Result (List Payout) × Database → Type 0
Distributed pool_id rows revenue t (err e, db) = db ≡ t.committed
Distributed pool_id rows revenue t (ok ps, db) =
    ((ps ≡ []) × (revenue ≡ 0) × (db ≡ t.working))
    ⊎ ((revenue ≢ 0)
        × Divisible rows
        × Matches pool_id (shares_of revenue rows) ps
        × (db ≡ with_payouts ps t))

Inserted-Distributed :
    (pool_id : Uuid) (rows : List ContributorRow) (revenue : Kobo) (t : State)
    (result : Result (List Payout)) (t' : State)
    → revenue ≢ 0
    → Divisible rows
    → Inserted pool_id (shares_of revenue rows) t (result, t')
    → let (answer, t'') = settle_payouts result t' in
      Distributed pool_id rows revenue t (answer, t''.committed)
unfolding commit
Inserted-Distributed pool_id rows revenue t (ok ps) t' ne d (_, m, w) = inr (ne, d, m, w)
Inserted-Distributed pool_id rows revenue t (err e) t' ne d same = ground arith

distribute-Distributed :
    (pool_id : Uuid) (rows : List ContributorRow) (revenue : Kobo) (t : State)
    → let (result, t') = distribute pool_id rows revenue t in
      Distributed pool_id rows revenue t (result, t'.committed)
unfolding distribute commit
distribute-Distributed pool_id rows revenue t = elim (Bool-cases (revenue == 0)) [
  | inl none_earned ↦ rw none_earned (inl (refl, ground arith, refl))
  | inr earned ↦ elim (Bool-cases (several rows && sum_by row_qty rows == 0)) [
    | inl stuck ↦ rw (earned, stuck) refl
    | inr fine ↦
        rw (earned, fine)
          (Inserted-Distributed pool_id rows revenue t _ _ (ground arith) fine
            (insert_payouts-Inserted pool_id (shares_of revenue rows) t))
  ]
]

abbrev pub rows_of : Uuid → Database → List ContributorRow
rows_of pool_id db = contributor_summary db.users pool_id db.contributions

-- Past the checks: nothing is due, or all the shares are committed at once.
abbrev pub Shared : Uuid → List ContributorRow → State → Result (List Payout) × Database → Type 0
Shared pool_id rows s (err e, db) = db ≡ s.committed
Shared pool_id rows s (ok ps, db) =
    let revenue = pool_revenue pool_id s.committed.orders in
    ((ps ≡ []) × ((rows ≡ []) ⊎ (revenue ≡ 0)) × (db ≡ s.committed))
    ⊎ ((rows ≢ [])
        × (revenue ≢ 0)
        × Divisible rows
        × Matches pool_id (shares_of revenue rows) ps
        × (db ≡ record s.committed { payouts = s.committed.payouts ++ ps }))

Distributed-Shared :
    (pool_id : Uuid) (rows : List ContributorRow) (s : State) (result : Result (List Payout))
    (db : Database)
    → rows ≢ []
    → Distributed pool_id rows
        (pool_revenue pool_id s.committed.orders)
        (record s { working = s.committed })
        (result, db)
    → Shared pool_id rows s (result, db)
Distributed-Shared pool_id rows s (err e) db ne same = same
Distributed-Shared pool_id rows s (ok ps) db ne (inl (a, b, c)) = inl (a, inr b, c)
Distributed-Shared pool_id rows s (ok ps) db ne (inr (a, b, c, d)) = inr (ne, a, b, c, d)

distribute_if_any-Shared :
    (pool_id : Uuid) (rows : List ContributorRow) (s : State)
    → let (result, t') = distribute_if_any pool_id rows (record s { working = s.committed }) in
      Shared pool_id rows s (result, t'.committed)
unfolding distribute_if_any commit
distribute_if_any-Shared pool_id [] s = inl (refl, inl refl, refl)
distribute_if_any-Shared pool_id (r ∷ rows) s =
    Distributed-Shared pool_id (r ∷ rows) s _ _ (λ e. cc)
      (distribute-Distributed pool_id (r ∷ rows) (pool_revenue pool_id s.committed.orders)
        (record s { working = s.committed }))

-- What a distribution may commit, by how it ended.
abbrev pub Outcome : Uuid → State → Result (List Payout) × Database → Type 0
Outcome pool_id s (err e, db) = db ≡ s.committed
Outcome pool_id s (ok ps, db) =
    (pool : Pool) × (find pool_key pool_id s.committed.pools ≡ some pool)
    × (is_opened pool.status ≡ false)
    × (already_paid_out pool_id s.committed.payouts ≡ false)
    × Shared pool_id (rows_of pool_id s.committed) s (ok ps, db)

Shared-Outcome :
    (pool_id : Uuid) (s : State) (result : Result (List Payout)) (db : Database) (pool : Pool)
    → find pool_key pool_id s.committed.pools ≡ some pool
    → is_opened pool.status ≡ false
    → already_paid_out pool_id s.committed.payouts ≡ false
    → Shared pool_id (rows_of pool_id s.committed) s (result, db)
    → Outcome pool_id s (result, db)
Shared-Outcome pool_id s (err e) db pool there shut new same = same
Shared-Outcome pool_id s (ok ps) db pool there shut new shared = (pool, there, shut, new, shared)

-- A distribution that raises commits nothing. One that returns is of a closed pool with no payouts
-- yet, and commits either nothing, where the pool has no contributors or no revenue, or a payout for
-- each share of its revenue.
pub calculate_and_create_payouts-Outcome :
    (pool_id : Uuid) (s : State)
    → let (result, s') = with_session (calculate_and_create_payouts pool_id) s in
      Outcome pool_id s (result, s'.committed)
unfolding with_session calculate_and_create_payouts get_pool_contributor_summary
calculate_and_create_payouts-Outcome pool_id s =
    elim (Option-cases (find pool_key pool_id s.committed.pools)) [
      | inl absent ↦ rw absent refl
      | inr (pool, there) ↦ elim (Bool-cases (is_opened pool.status)) [
        | inl running ↦ rw (there, running) refl
        | inr shut ↦ elim (Bool-cases (already_paid_out pool_id s.committed.payouts)) [
          | inl again ↦ rw (there, shut, again) refl
          | inr new ↦
              rw (there, shut, new)
                (Shared-Outcome pool_id s _ _ pool there shut new
                  (distribute_if_any-Shared pool_id (rows_of pool_id s.committed) s))
        ]
      ]
    ]
