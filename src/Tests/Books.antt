-- ===== src/Tests/Books.antt =====
-- The books after a day of requests.
use farm_link.Common.{
  sum_by, ℕ, ◌+◌, ◌≡◌, ◌≤◌, ◌⊎◌, refl, none, some, List, [], ◌∷◌, arith, find, select, replace,
  true,
}
use farm_link.Schema.{admit_pool_update, admit_contribution}
use farm_link.Session.{
  ok, State, with_session, uuid4, update_pool, update_order, insert_contribution, commit,
  publish_pool_event,
}
use farm_link.Contributions.{create_contribution}
use farm_link.Pools.{invalidate_pool_cache}
use farm_link.Orders.Sweep.{
  release_one_expired_order, sweep_expired_orders, candidate_ids, release_each, expire_if_due,
  expire_order, announce_expiry,
}
use farm_link.Orders.Sweep.Release.{Outcome, released_database, release_one_expired_order-Outcome}
use farm_link.Orders.Sweep.Due.{release_one_expired_order-Due}
use farm_link.Stock.{IsStocked, contributed, waiting}
use farm_link.History.{
  Request, closes, contributes, delivers, distributes, sweeps, waits, step, run,
}
use farm_link.History.Books.{HasLate, run-IsStocked, run-available-le}
use farm_link.History.Paid.{IsPaidOnce, payment_for, one_if_paid}
use farm_link.History.Paid.Run.{run-IsPaidOnce}
use farm_link.Tests.Market.{
  market, market_database, market-IsStocked, stub_platform, unpaid_yams, yams,
}

abbrev day : List Request
day =
    contributes 20 1 5
    ∷ delivers (0 ∷ []) "good"
    ∷ waits 3600
    ∷ sweeps none
    ∷ closes 1
    ∷ distributes 1
    ∷ []

run-IsStocked_example :
    IsStocked (run stub_platform day market).committed ⊎ HasLate stub_platform day market
run-IsStocked_example = run-IsStocked stub_platform day market market-IsStocked

-- The market after a contribution and a run of the sweep.
abbrev swept : State
swept = run stub_platform (contributes 20 1 5 ∷ sweeps none ∷ []) market

run-available-le_example :
    (55 + waiting 1 swept.committed.orders ≤ 55)
    × ◌≡◌ {A = ℕ} 55 (contributed 1 swept.committed.contributions)
unfolding run step find select replace with_session create_contribution admit_contribution
    sweep_expired_orders candidate_ids release_each release_one_expired_order expire_if_due
    expire_order announce_expiry uuid4 update_pool update_order insert_contribution commit
    admit_pool_update publish_pool_event invalidate_pool_cache
run-available-le_example =
    run-available-le stub_platform (contributes 20 1 5 ∷ sweeps none ∷ []) market 1
      (record yams { total_qty = 55; available_qty = 55 }) market-IsStocked refl

release_one_expired_order-Outcome_example :
    let (result, s') = release_one_expired_order 100 90 market in
    Outcome 100 90 market (result, s'.committed)
release_one_expired_order-Outcome_example = release_one_expired_order-Outcome 100 90 market

release_one_expired_order-Due_example :
    let (result, s') = release_one_expired_order 100 90 market in
    (result ≡ ok true) × (s'.committed ≡ released_database unpaid_yams (some yams) market_database)
unfolding find admit_pool_update
release_one_expired_order-Due_example =
    release_one_expired_order-Due 100 90 market unpaid_yams yams
      (record { found = refl; unpaid = refl; old = omega arith }) refl refl

market-IsPaidOnce : IsPaidOnce market_database
unfolding sum_by payment_for one_if_paid find
market-IsPaidOnce k = ground arith

run-IsPaidOnce_example : IsPaidOnce (run stub_platform day market).committed
run-IsPaidOnce_example = run-IsPaidOnce stub_platform day market market-IsPaidOnce
