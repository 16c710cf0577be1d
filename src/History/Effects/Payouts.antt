-- ===== src/History/Effects/Payouts.antt =====
-- A distribution of payouts touches neither the cache nor a feed.
use farm_link.Common.{
  ◌+◌, ◌≡◌, inl, inr, refl, List, [], ◌∷◌, ◌++◌, Option-cases, Bool-cases, arith, find, ◌&&◌,
  sum_by, ◌==◌,
}
use farm_link.Schema.{Uuid, Kobo, Payout, pool_key, is_opened, admit_payout}
use farm_link.Session.{
  State, Result, Result-cases, ok, err, with_session, commit, uuid4, insert_payout,
}
use farm_link.Contributions.{
  ContributorRow, row_qty, contributor_summary, get_pool_contributor_summary,
}
use farm_link.Payouts.Split.{Share}
use farm_link.Payouts.{
  several, insert_payouts, settle_payouts, shares_of, distribute, distribute_if_any,
  calculate_and_create_payouts, pool_revenue, already_paid_out,
}

-- Like `Silent`, and no job at all.
abbrev Still : State → State → Type 0
Still s t = (t.cache ≡ s.cache) × (t.jobs ≡ s.jobs) × (t.feed ≡ s.feed)

insert_payouts-Still :
    (pool_id : Uuid) (shares : List Share) (s : State) → Still s (insert_payouts pool_id shares s).1
unfolding insert_payouts uuid4 insert_payout
insert_payouts-Still pool_id [] s = (refl, refl, refl)
insert_payouts-Still pool_id (share ∷ shares) s =
    elim (Option-cases (admit_payout s.working payout)) [
      | inr (e, known) ↦ ground arith
      | inl fresh ↦ elim (Result-cases (insert_payouts pool_id shares t).0) [
        | inl (e, bad) ↦ ground (arith, insert_payouts-Still pool_id shares t)
        | inr (ps, good) ↦ ground (arith, insert_payouts-Still pool_id shares t)
      ]
    ]
  where
    payout : Payout
    payout = record {
      id = s.uuids s.drawn;
      pool_id = pool_id;
      farmer_id = share.farmer_id;
      amount = share.amount;
      created_at = s.now;
    }

    t : State
    t = record s {
      working = record s.working { payouts = s.working.payouts ++ payout ∷ [] };
      drawn = s.drawn + 1;
    }

settle_payouts-Still :
    (result : Result (List Payout)) (s t : State) → Still s t → Still s (settle_payouts result t).1
unfolding commit
settle_payouts-Still (ok ps) s t h = h
settle_payouts-Still (err e) s t h = ground arith

distribute-Still :
    (pool_id : Uuid) (rows : List ContributorRow) (revenue : Kobo) (s : State)
    → Still s (distribute pool_id rows revenue s).1
unfolding distribute commit
distribute-Still pool_id rows revenue s = elim (Bool-cases (revenue == 0)) [
  | inl none_earned ↦ rw none_earned (refl, refl, refl)
  | inr earned ↦ elim (Bool-cases (several rows && sum_by row_qty rows == 0)) [
    | inl stuck ↦ rw (earned, stuck) (refl, refl, refl)
    | inr fine ↦
        rw (earned, fine)
          (settle_payouts-Still _ s _ (insert_payouts-Still pool_id (shares_of revenue rows) s))
  ]
]

distribute_if_any-Still :
    (pool_id : Uuid) (rows : List ContributorRow) (s : State)
    → Still s (distribute_if_any pool_id rows s).1
unfolding distribute_if_any commit
distribute_if_any-Still pool_id [] s = (refl, refl, refl)
distribute_if_any-Still pool_id (r ∷ rows) s =
    distribute-Still pool_id (r ∷ rows) (pool_revenue pool_id s.working.orders) s

pub calculate_and_create_payouts-Still :
    (pool_id : Uuid) (s : State) → Still s (with_session (calculate_and_create_payouts pool_id) s).1
unfolding with_session calculate_and_create_payouts get_pool_contributor_summary
calculate_and_create_payouts-Still pool_id s =
    elim (Option-cases (find pool_key pool_id s.committed.pools)) [
      | inl absent ↦ rw absent (refl, refl, refl)
      | inr (pool, there) ↦ elim (Bool-cases (is_opened pool.status)) [
        | inl open_now ↦ rw (there, open_now) (refl, refl, refl)
        | inr shut ↦ elim (Bool-cases (already_paid_out pool_id s.committed.payouts)) [
          | inl twice ↦ rw (there, shut, twice) (refl, refl, refl)
          | inr first ↦
              rw (there, shut, first)
                (distribute_if_any-Still pool_id
                  (contributor_summary s.committed.users pool_id s.committed.contributions)
                  (record s { working = s.committed }))
        ]
      ]
    ]
