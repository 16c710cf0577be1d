-- ===== src/History/Effects/Pools.antt =====
-- The effects of a contribution and of a closing.
use farm_link.Common.{ℕ, ◌+◌, inl, inr, Option, none, some, Option-cases, arith, find}
use farm_link.Schema.{Uuid, Pool, Contribution, pool_key}
use farm_link.Session.{
  State, Result, ok, err, contribution_added, pool_closed, with_session, commit, uuid4, update_pool,
  insert_contribution, enqueue, publish_event, publish_pool_event,
}
use farm_link.Pools.{invalidate_pool_cache, close_pool}
use farm_link.Contributions.{create_contribution}
use farm_link.History.Effects.{Quiet, Announces, Effect, Quiet-Effect, Announces-Effect}

abbrev available_of : Option Pool → ℕ
available_of none = 0
available_of (some pool) = pool.available_qty

abbrev Contributed : Uuid → Uuid → ℕ → State → Result Contribution × State → Type 0
Contributed farmer_id pool_id qty s (err e, t) = Quiet s t
Contributed farmer_id pool_id qty s (ok c, t) =
    Announces pool_id
      (contribution_added farmer_id qty
        (available_of (find pool_key pool_id s.committed.pools) + qty))
      s t

create_contribution-Contributed :
    (farmer_id pool_id : Uuid) (qty : ℕ) (s : State)
    → Contributed farmer_id pool_id qty s
        (with_session (create_contribution farmer_id pool_id qty) s)
unfolding with_session create_contribution commit uuid4 update_pool insert_contribution
    publish_pool_event publish_event enqueue invalidate_pool_cache
create_contribution-Contributed farmer_id pool_id qty s =
    elim (Option-cases (find pool_key pool_id s.committed.pools)) [
      | inl e ↦ ground arith
      | inr (pool, e) ↦ ground arith
    ]

abbrev Closed : Uuid → State → Result Pool × State → Type 0
Closed pool_id s (err e, t) = Quiet s t
Closed pool_id s (ok c, t) = Announces pool_id pool_closed s t

close_pool-Closed :
    (pool_id : Uuid) (s : State) → Closed pool_id s (with_session (close_pool pool_id) s)
unfolding with_session close_pool commit uuid4 update_pool publish_pool_event publish_event enqueue
    invalidate_pool_cache
close_pool-Closed pool_id s = elim (Option-cases (find pool_key pool_id s.committed.pools)) [
  | inl e ↦ ground arith
  | inr (pool, e) ↦ ground arith
]

Contributed-Effect :
    (farmer_id pool_id : Uuid) (qty : ℕ) (s : State) (x : Result Contribution × State)
    → Contributed farmer_id pool_id qty s x
    → Effect pool_id s x.1
Contributed-Effect farmer_id pool_id qty s (err e, t) quiet = Quiet-Effect pool_id s t quiet
Contributed-Effect farmer_id pool_id qty s (ok c, t) shown = Announces-Effect pool_id _ s t shown

pub create_contribution-Effect :
    (farmer_id pool_id : Uuid) (qty : ℕ) (s : State)
    → Effect pool_id s (with_session (create_contribution farmer_id pool_id qty) s).1
create_contribution-Effect farmer_id pool_id qty s =
    Contributed-Effect farmer_id pool_id qty s _
      (create_contribution-Contributed farmer_id pool_id qty s)

Closed-Effect :
    (pool_id : Uuid) (s : State) (x : Result Pool × State)
    → Closed pool_id s x
    → Effect pool_id s x.1
Closed-Effect pool_id s (err e, t) quiet = Quiet-Effect pool_id s t quiet
Closed-Effect pool_id s (ok p, t) shown = Announces-Effect pool_id pool_closed s t shown

pub close_pool-Effect :
    (pool_id : Uuid) (s : State) → Effect pool_id s (with_session (close_pool pool_id) s).1
close_pool-Effect pool_id s = Closed-Effect pool_id s _ (close_pool-Closed pool_id s)
