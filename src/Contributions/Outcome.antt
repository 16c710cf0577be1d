-- ===== src/Contributions/Outcome.antt =====
-- `create_contribution` as one transaction.
use farm_link.Common.{
  ℕ, ◌+◌, ◌≡◌, true, some, [], ◌∷◌, ◌++◌, arith, find, replace, Option-cases, inl, inr,
}
use farm_link.Schema.{Uuid, Pool, Contribution, Database, pool_key, is_opened}
use farm_link.Session.{
  State, Result, ok, err, with_session, commit, uuid4, update_pool, insert_contribution,
  publish_pool_event,
}
use farm_link.Pools.{invalidate_pool_cache}
use farm_link.Contributions.{create_contribution}

-- The contribution, with the identifier that is drawn next.
unfoldable pub contribution_of : Uuid → Uuid → ℕ → State → Contribution
contribution_of farmer_id pool_id qty s = record {
  id = s.uuids s.drawn;
  pool_id = pool_id;
  farmer_id = farmer_id;
  qty = qty;
  created_at = s.now;
}

unfoldable pub contributed_database : Uuid → Uuid → ℕ → Pool → State → Database
unfolding contribution_of
contributed_database farmer_id pool_id qty pool s =
    let db = s.committed in
    let grown = record pool {
      total_qty = pool.total_qty + qty;
      available_qty = pool.available_qty + qty;
    } in
    record db {
      pools = replace pool_key grown db.pools;
      contributions = db.contributions ++ contribution_of farmer_id pool_id qty s ∷ [];
    }

abbrev pub Outcome : Uuid → Uuid → ℕ → State → Result Contribution × Database → Type 0
Outcome farmer_id pool_id qty s (err e, db) = db ≡ s.committed
Outcome farmer_id pool_id qty s (ok c, db) =
    (pool : Pool) × (find pool_key pool_id s.committed.pools ≡ some pool)
    × (is_opened pool.status ≡ true)
    × (c ≡ contribution_of farmer_id pool_id qty s)
    × (db ≡ contributed_database farmer_id pool_id qty pool s)

-- A contribution to an open pool raises its two quantities and is recorded, in one commit; anything
-- else raises and changes nothing.
pub create_contribution-Outcome :
    (farmer_id pool_id : Uuid) (qty : ℕ) (s : State)
    → let (result, s') = with_session (create_contribution farmer_id pool_id qty) s in
      Outcome farmer_id pool_id qty s (result, s'.committed)
unfolding with_session create_contribution contributed_database commit uuid4 update_pool
    insert_contribution publish_pool_event invalidate_pool_cache
create_contribution-Outcome farmer_id pool_id qty s =
    elim (Option-cases (find pool_key pool_id s.committed.pools)) [
      | inl e ↦ ground arith
      | inr (pool, e) ↦ ground arith
    ]
