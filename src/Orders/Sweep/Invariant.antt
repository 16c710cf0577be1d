-- ===== src/Orders/Sweep/Invariant.antt =====
-- What holds after each release holds after the whole sweep.
use farm_link.Common.{ℕ, Option, List, [], ◌∷◌}
use farm_link.Schema.{Uuid, Time, Database}
use farm_link.Session.{State, with_session}
use farm_link.Orders.Sweep.{
  release_one_expired_order, release_each, sweep_expired_orders, candidate_ids, counted,
  cutoff_time, max_age,
}

-- A release keeps P.
abbrev pub Keeps {ℓ} : (Database → Type ℓ) → Type ℓ
Keeps P =
    (order_id : Uuid) (cutoff : Time) (s : State)
    → P s.committed
    → P (release_one_expired_order order_id cutoff s).1.committed

module _ {ℓ} (P : Database → Type ℓ) (keep : Keeps P) where
  release_each_inv :
      (ids : List Uuid) (cutoff : Time) (n : ℕ) (s : State)
      → P s.committed
      → P (release_each ids cutoff n s).1.committed
  unfolding release_each
  release_each_inv [] cutoff n s h = h
  release_each_inv (id ∷ ids) cutoff n s h =
      let (outcome, s') = release_one_expired_order id cutoff s in
      release_each_inv ids cutoff (counted outcome n) s' (keep id cutoff s h)

  pub sweep_expired_orders_inv :
      (max_age_hours : Option ℕ) (s : State)
      → P s.committed
      → P (sweep_expired_orders max_age_hours s).1.committed
  unfolding sweep_expired_orders with_session
  sweep_expired_orders_inv max_age_hours s h =
      let cutoff = cutoff_time s.now (max_age max_age_hours) in
      release_each_inv (candidate_ids cutoff s.committed) cutoff 0
        (record s { working = s.committed }) h
