-- ===== src/Concurrent/Frames.antt =====
-- Which rows of pools and orders a transaction can change.
pub mod Orders
use farm_link.Common.{
  ℕ, ◌≡◌, ◌⊎◌, inl, inr, ap, sym, ◌∙◌, refl, subst, Bool-cases, Option-cases, Option, none, some,
  List, [], ◌∷◌, ◌++◌, find, find_key, find-replace_ne, find-append_some, replace, arith, ==_iff,
  ◌==◌, String, true, false,
}
use farm_link.Schema.{Uuid, Time, Pool, Order, Database, pool_key, order_key, expired, paid}
use farm_link.Session.{State, Result, ok, err, with_session}
use farm_link.Pools.{PoolCreate, close_pool, create_pool}
use farm_link.Pools.Outcome.{Created, create_pool-Created, Closed, close_pool-Closed}
use farm_link.Contributions.{create_contribution}
use farm_link.Contributions.Outcome as Contributing
use farm_link.Contributions.Outcome.{contributed_database, create_contribution-Outcome}
use farm_link.Orders.{OrderRequest, place_order, reduced}
use farm_link.Orders.Placement.{order_of, placed_database, Placed, place_order-Placed}
use farm_link.Orders.Sweep.{release_one_expired_order, restocked}
use farm_link.Orders.Sweep.Release as Releasing
use farm_link.Orders.Sweep.Release.{released_database, release_one_expired_order-Outcome}
use farm_link.Payments.Paystack.{Platform, Bytes}
use farm_link.Payments.{Incoming, read_body, is_charge_success, process_webhook_event}
use farm_link.Payments.Effect.{paid_database, Pays}
use farm_link.Payments.Outcome as Paying
use farm_link.Payments.Outcome.{with_event, Delivered, process_webhook_event-Outcome}
use farm_link.Concurrent.{order_named}

-- Rows stay as they are, but for one pool and one order at most.
pub record Frame (pool_id order_id : Option Uuid) (a b : Database) : Type 0 where
  pub pools :
      (k : Uuid) (row : Pool)
      → find pool_key k a.pools ≡ some row
      → (pool_id ≡ some k) ⊎ (find pool_key k b.pools ≡ some row)
  pub orders :
      (k : Uuid) (row : Order)
      → find order_key k a.orders ≡ some row
      → (order_id ≡ some k) ⊎ (find order_key k b.orders ≡ some row)

pub Frame-refl : (pool_id order_id : Option Uuid) (a : Database) → Frame pool_id order_id a a
Frame-refl pool_id order_id a = record { pools = λ k row h. inr h; orders = λ k row h. inr h }

module _ {A : Type 0} (key : A → ℕ) where
  pub replace_frame :
      (id : Uuid) (r : A) (xs : List A) (k : Uuid) (a : A)
      → key r ≡ id
      → find key k xs ≡ some a
      → (some id ≡ some k) ⊎ (find key k (replace key r xs) ≡ some a)
  replace_frame id r xs k a same h = elim (Bool-cases (k == key r)) [
    | inl hit ↦ inl (ap some (sym same ∙ sym ((==_iff k (key r)).0 hit)))
    | inr miss ↦ inr (find-replace_ne key k r xs (ground (arith, miss)) ∙ h)
  ]

  pub append_frame :
      (id : Option Uuid) (xs : List A) (r : A) (k : Uuid) (a : A)
      → find key k xs ≡ some a
      → (id ≡ some k) ⊎ (find key k (xs ++ r ∷ []) ≡ some a)
  append_frame id xs r k a h = inr (find-append_some key k xs r a h)

abbrev pub Frames : Option Uuid → Option Uuid → State → State → Type 0
Frames pool_id order_id s t = Frame pool_id order_id s.committed t.committed

Placed-Frame :
    (r : OrderRequest) (s : State) (result : Result Order) (db : Database)
    → Placed r s (result, db)
    → Frame (some r.pool_id) none s.committed db
unfolding placed_database
Placed-Frame r s (err e) db same = rw same (Frame-refl _ _ _)
Placed-Frame r s (ok o) db (inl (_, same)) = rw same (Frame-refl _ _ _)
Placed-Frame r s (ok o) db (inr (pool, v, _, same)) = rw same (record {
  pools = λ k row h.
      replace_frame pool_key r.pool_id (reduced pool r.qty) s.committed.pools k row
        (find_key pool_key r.pool_id s.committed.pools pool v.found) h;
  orders = append_frame order_key none s.committed.orders (order_of r pool s);
})

pub place_order-Frame :
    (r : OrderRequest) (s : State)
    → Frames (some r.pool_id) none s (with_session (place_order r) s).1
unfolding with_session
place_order-Frame r s = Placed-Frame r s _ _ (place_order-Placed r s)

Contributed-Frame :
    (farmer_id pool_id : Uuid) (qty : ℕ) (s : State) (result : Result _) (db : Database)
    → Contributing.Outcome farmer_id pool_id qty s (result, db)
    → Frame (some pool_id) none s.committed db
unfolding contributed_database
Contributed-Frame farmer_id pool_id qty s (err e) db same = rw same (Frame-refl _ _ _)
Contributed-Frame farmer_id pool_id qty s (ok c) db (pool, there, _, _, same) = rw same (record {
  pools = λ k row h.
      replace_frame pool_key pool_id _ s.committed.pools k row
        (find_key pool_key pool_id s.committed.pools pool there) h;
  orders = λ k row h. inr h;
})

pub create_contribution-Frame :
    (farmer_id pool_id : Uuid) (qty : ℕ) (s : State)
    → Frames (some pool_id) none s (with_session (create_contribution farmer_id pool_id qty) s).1
create_contribution-Frame farmer_id pool_id qty s =
    Contributed-Frame farmer_id pool_id qty s _ _
      (create_contribution-Outcome farmer_id pool_id qty s)

Closed-Frame :
    (pool_id : Uuid) (s : State) (result : Result Pool) (db : Database)
    → Closed pool_id s (result, db)
    → Frame (some pool_id) none s.committed db
Closed-Frame pool_id s (err e) db same = rw same (Frame-refl _ _ _)
Closed-Frame pool_id s (ok p) db (pool, there, _, shut, same) = rw same (record {
  pools = λ k row h.
      replace_frame pool_key pool_id p s.committed.pools k row
        (ap pool_key shut ∙ find_key pool_key pool_id s.committed.pools pool there) h;
  orders = λ k row h. inr h;
})

pub close_pool-Frame :
    (pool_id : Uuid) (s : State)
    → Frames (some pool_id) none s (with_session (close_pool pool_id) s).1
close_pool-Frame pool_id s = Closed-Frame pool_id s _ _ (close_pool-Closed pool_id s)

Created-Frame :
    (input : PoolCreate) (s : State) (result : Result Pool) (db : Database)
    → Created input s (result, db)
    → Frame none none s.committed db
Created-Frame input s (err e) db same = rw same (Frame-refl _ _ _)
Created-Frame input s (ok p) db (_, _, same) =
    rw same
      (record { pools = append_frame pool_key none s.committed.pools p; orders = λ k row h. inr h })

pub create_pool-Frame :
    (input : PoolCreate) (s : State) → Frames none none s (with_session (create_pool input) s).1
create_pool-Frame input s = Created-Frame input s _ _ (create_pool-Created input s)

-- A row that is not there is not changed.
pub Frame-no_pool :
    (pool_id : Uuid) (order_id : Option Uuid) (a b : Database)
    → find pool_key pool_id a.pools ≡ none
    → Frame (some pool_id) order_id a b
    → Frame none order_id a b
Frame-no_pool pool_id order_id a b absent f = record {
  pools = λ k row h. elim (f.pools k row h) [
    | inl same ↦ absurd (ground (arith, same))
    | inr kept ↦ inr kept
  ];
  orders = f.orders;
}

pub Frame-no_order :
    (pool_id : Option Uuid) (order_id : Uuid) (a b : Database)
    → find order_key order_id a.orders ≡ none
    → Frame pool_id (some order_id) a b
    → Frame pool_id none a b
Frame-no_order pool_id order_id a b absent f = record {
  pools = f.pools;
  orders = λ k row h. elim (f.orders k row h) [
    | inl same ↦ absurd (ground (arith, same))
    | inr kept ↦ inr kept
  ];
}
