-- ===== src/Concurrent/Frames/Orders.antt =====
-- Which rows a delivery and a release can change.
use farm_link.Common.{
  ◌≡◌, ◌⊎◌, inl, inr, sym, ◌∙◌, refl, subst, Option-cases, Option, none, some, List, find, find_key,
  replace, String, true, false,
}
use farm_link.Schema.{Uuid, Time, Pool, Order, Database, pool_key, order_key, expired, paid}
use farm_link.Session.{State, Result, ok, err, with_session}
use farm_link.Orders.Sweep.{release_one_expired_order, restocked}
use farm_link.Orders.Sweep.Release as Releasing
use farm_link.Orders.Sweep.Release.{released_database, release_one_expired_order-Outcome}
use farm_link.Payments.Paystack.{Platform, Bytes}
use farm_link.Payments.{Incoming, read_body, is_charge_success, process_webhook_event}
use farm_link.Payments.Effect.{paid_database, Pays}
use farm_link.Payments.Outcome as Paying
use farm_link.Payments.Outcome.{with_event, Delivered, process_webhook_event-Outcome}
use farm_link.Concurrent.{order_named}
use farm_link.Concurrent.Frames.{Frame, Frame-refl, Frames, replace_frame}

order_row :
    (id : Uuid) (r order : Order) (orders : List Order) (k : Uuid) (row : Order)
    → order_key r ≡ order_key order
    → find order_key id orders ≡ some order
    → find order_key k orders ≡ some row
    → (some id ≡ some k) ⊎ (find order_key k (replace order_key r orders) ≡ some row)
order_row id r order orders k row same there h =
    replace_frame order_key id r orders k row (same ∙ find_key order_key id orders order there) h

Pays-Frame :
    (p : Platform) (e : Incoming) (s : State) (db : Database)
    → is_charge_success e.event_type ≡ true
    → Pays p e.charge e.reference (with_event e s) db
    → Frame none (order_named p e) s.committed db
unfolding with_event paid_database order_named
Pays-Frame p e s db charged (id_text, order_id, order, amount, refers, parsed, there, _, _, same) =
    rw same (record {
      pools = λ k row h. inr h;
      orders = λ k row h.
          rw (charged, refers, parsed)
            (order_row order_id (record order { status = paid }) order s.committed.orders k row refl
              there h);
    })

Delivered-Frame :
    (p : Platform) (e : Incoming) (s : State) (result : Result _) (db : Database)
    → Delivered p e s (result, db)
    → Frame none (order_named p e) s.committed db
unfolding with_event
Delivered-Frame p e s (err x) db same = rw same (Frame-refl _ _ _)
Delivered-Frame p e s (ok a) db (inl (_, same)) = rw same (Frame-refl _ _ _)
Delivered-Frame p e s (ok a) db (inr (_, inl same)) =
    rw same (record { pools = λ k row h. inr h; orders = λ k row h. inr h })
Delivered-Frame p e s (ok a) db (inr (_, inr (charged, pays))) = Pays-Frame p e s db charged pays

Webhook-Frame :
    (p : Platform) (raw_body : Bytes) (signature : String) (named : Option Uuid) (s : State)
    (result : Result _) (db : Database)
    → ((e : Incoming) → read_body p raw_body ≡ ok e → order_named p e ≡ named)
    → Paying.Outcome p raw_body signature s (result, db)
    → Frame none named s.committed db
Webhook-Frame p raw_body signature named s (err x) db names same = rw same (Frame-refl _ _ _)
Webhook-Frame p raw_body signature named s (ok a) db names (_, e, read, d) =
    subst (λ o. Frame none o s.committed db) (names e read) (Delivered-Frame p e s (ok a) db d)

pub process_webhook_event-Frame :
    (p : Platform) (raw_body : Bytes) (signature : String) (named : Option Uuid) (s : State)
    → ((e : Incoming) → read_body p raw_body ≡ ok e → order_named p e ≡ named)
    → Frames none named s (with_session (process_webhook_event p raw_body signature) s).1
process_webhook_event-Frame p raw_body signature named s names =
    Webhook-Frame p raw_body signature named s _ _ names
      (process_webhook_event-Outcome p raw_body signature s)

released_database-Frame :
    (order_id : Uuid) (order : Order) (pool_id : Option Uuid) (db : Database)
    → find order_key order_id db.orders ≡ some order
    → ((pool : Pool)
        → find pool_key order.pool_id db.pools ≡ some pool
        → pool_id ≡ some order.pool_id)
    → Frame pool_id
        (some order_id)
        db
        (released_database order (find pool_key order.pool_id db.pools) db)
unfolding released_database
released_database-Frame order_id order pool_id db there known =
    elim (Option-cases (find pool_key order.pool_id db.pools)) [
      | inl absent ↦ rw absent (record {
        pools = λ k row h. inr h;
        orders = λ k row h.
            order_row order_id (record order { status = expired }) order db.orders k row refl there
              h;
      })
      | inr (pool, found) ↦ rw found (record {
        pools = λ k row h.
            subst
              (λ o.
                (o ≡ some k)
                ⊎ (find pool_key k (replace pool_key (restocked pool order.qty) db.pools)
                    ≡ some row))
              (sym (known pool found))
              (replace_frame pool_key order.pool_id (restocked pool order.qty) db.pools k row
                (find_key pool_key order.pool_id db.pools pool found) h);
        orders = λ k row h.
            order_row order_id (record order { status = expired }) order db.orders k row refl there
              h;
      })
    ]

Released-Frame :
    (order_id : Uuid) (cutoff : Time) (pool_id : Option Uuid) (s : State) (result : Result _)
    (db : Database)
    → ((order : Order) (pool : Pool)
        → find order_key order_id s.committed.orders ≡ some order
        → find pool_key order.pool_id s.committed.pools ≡ some pool
        → pool_id ≡ some order.pool_id)
    → Releasing.Outcome order_id cutoff s (result, db)
    → Frame pool_id (some order_id) s.committed db
Released-Frame order_id cutoff pool_id s (err e) db known same = rw same (Frame-refl _ _ _)
Released-Frame order_id cutoff pool_id s (ok false) db known same = rw same (Frame-refl _ _ _)
Released-Frame order_id cutoff pool_id s (ok true) db known (order, due, same) = rw same (
    released_database-Frame order_id order pool_id s.committed due.found
      (λ pool found. known order pool due.found found))

pub release_one_expired_order-Frame :
    (order_id : Uuid) (cutoff : Time) (pool_id : Option Uuid) (s : State)
    → ((order : Order) (pool : Pool)
        → find order_key order_id s.committed.orders ≡ some order
        → find pool_key order.pool_id s.committed.pools ≡ some pool
        → pool_id ≡ some order.pool_id)
    → Frames pool_id (some order_id) s (release_one_expired_order order_id cutoff s).1
release_one_expired_order-Frame order_id cutoff pool_id s known =
    Released-Frame order_id cutoff pool_id s _ _ known
      (release_one_expired_order-Outcome order_id cutoff s)
