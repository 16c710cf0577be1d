-- ===== src/Concurrent/Invariant.antt =====
-- What a worker has read under its locks stays true until it lets them go, and each of its steps
-- leaves the shared state alone or does what a request does that runs alone.
use farm_link.Common.{
  String, inl, inr, ⊤, ◌≡◌, ap, sym, ◌∙◌, refl, subst, Option, none, some, find, arith, false,
}
use farm_link.Schema.{Uuid, Time, Pool, Order, Database, DbError, admit_event, pool_key, order_key}
use farm_link.Session.{State, Result, ok, err}
use farm_link.Payments.Paystack.{Platform}
use farm_link.History.{Request, creates, waits, delivers, step}
use farm_link.History as History
use farm_link.Payments.Paystack.{Bytes}
use farm_link.Payments.Outcome as Paying
use farm_link.Payments.Outcome.{process_webhook_event-Outcome, event_of}
use farm_link.Concurrent.{
  PoolTask, places, contributes, closes, pool_id_of, after_pool, after_release, skips, order_named,
  Delivery, Pc, idle, wants_pool, has_pool, has_key, wants_order, has_order, has_both, wants_event,
  has_event, has_charge, pool_held, order_held, LocksNothing, Turn, begin_pool, lock_pool,
  miss_pool, end_pool, insert_key, refuse_key, end_key, begin_order, lock_order, miss_order, skip,
  lock_second, miss_second, end_release, begin_event, record_event, refuse_event, end_event,
  lock_charged, miss_charged, end_charge, at_once, Apart,
}
use farm_link.Concurrent.Frames.Orders.{
  process_webhook_event-Frame, release_one_expired_order-Frame,
}
use farm_link.Concurrent.Frames.{
  Frame, Frame-refl, Frame-no_pool, Frame-no_order, place_order-Frame, create_contribution-Frame,
  close_pool-Frame, create_pool-Frame,
}
use farm_link.Concurrent.Serial.{
  pool_request, after_pool-step, after_release-step, after_event-step, after_charge-step,
}

module _ (p : Platform) where
  -- Who has nothing is apart from everybody.
  pub idle-Apart : (b : Pc p) → Apart p idle b
  idle-Apart b = record {
    pools = λ k x. absurd (ground arith);
    orders = λ k x. absurd (ground arith);
    events = λ k x. absurd (ground arith);
    keys = λ k x. absurd (ground arith);
  }

  -- What the rows that a worker has locked are in the database.
  abbrev pub Holds : Database → Pc p → Type 0
  Holds db (has_pool t row) = find pool_key (pool_id_of t) db.pools ≡ some row
  Holds db (has_key t row key) = find pool_key (pool_id_of t) db.pools ≡ some row
  Holds db (has_order order_id cutoff row) = find order_key order_id db.orders ≡ some row
  Holds db (has_both order_id cutoff order pool) =
      (find order_key order_id db.orders ≡ some order)
      × (find pool_key order.pool_id db.pools ≡ some pool)
      × (skips order cutoff ≡ false)
  Holds db (has_charge d order_id row) =
      (find order_key order_id db.orders ≡ some row) × (order_named p d.incoming ≡ some order_id)
  Holds db idle = ⊤
  Holds db (wants_pool t) = ⊤
  Holds db (wants_order order_id cutoff) = ⊤
  Holds db (wants_event d) = ⊤
  Holds db (has_event d) = ⊤

  -- The request that ends with a turn that commits, and none for the other turns.
  unfoldable pub committed_by : {s t : State} {a q : Pc p} → Turn p s a t q → Option Request
  committed_by (miss_pool {t} absent) = some (pool_request t)
  committed_by (end_pool {t} keyless) = some (pool_request t)
  committed_by (refuse_key {t} keyed known) = some (pool_request t)
  committed_by (end_key {t}) = some (pool_request t)
  committed_by (miss_second {order_id} {cutoff} due absent) =
      some (History.releases order_id cutoff)
  committed_by (end_release {order_id} {cutoff}) = some (History.releases order_id cutoff)
  committed_by (refuse_event {d} refused) = some (delivers d.raw_body d.signature)
  committed_by (end_event {d} unnamed) = some (delivers d.raw_body d.signature)
  committed_by (miss_charged {d} named absent) = some (delivers d.raw_body d.signature)
  committed_by (end_charge {d}) = some (delivers d.raw_body d.signature)
  committed_by (at_once r nothing) = some r
  committed_by _ = none

  -- The shared state is left alone, or changed as by the request that is committed when it runs
  -- alone, in the rows that are locked.
  abbrev pub Commits : State → Option Request → Pc p → State → Type 0
  Commits s none a t = t ≡ s
  Commits s (some r) a t =
      (t ≡ step p r s) × Frame (pool_held p a) (order_held p a) s.committed (step p r s).committed

  pool_request-Frame :
      (t : PoolTask) (s : State)
      → Frame (some (pool_id_of t)) none s.committed (step p (pool_request t) s).committed
  unfolding step
  pool_request-Frame (places r) s = place_order-Frame r s
  pool_request-Frame (contributes farmer_id pool_id qty) s =
      create_contribution-Frame farmer_id pool_id qty s
  pool_request-Frame (closes pool_id) s = close_pool-Frame pool_id s

  delivery-Frame :
      (d : Delivery p) (named : Option Uuid) (s : State)
      → order_named p d.incoming ≡ named
      → Frame none named s.committed (step p (delivers d.raw_body d.signature) s).committed
  unfolding step
  delivery-Frame d named s names =
      process_webhook_event-Frame p d.raw_body d.signature named s (λ e read.
        let same : e ≡ d.incoming = ground (arith, read, d.read) in ap (order_named p) same ∙ names)

  -- A delivery that is not let in, or cannot be read.
  unread-Frame :
      (raw_body : Bytes) (signature : String) (s : State) (result : Result ⊤) (db : Database)
      → LocksNothing p (delivers raw_body signature)
      → Paying.Outcome p raw_body signature s (result, db)
      → Frame none none s.committed db
  unread-Frame raw_body signature s (err e) db nothing same = rw same (Frame-refl none none _)
  unread-Frame raw_body signature s (ok a) db nothing (signed, e, read, _) =
      absurd (nothing e signed read)

  release-Frame :
      (order_id : Uuid) (cutoff : Time) (order : Order) (pool_id : Option Uuid) (s : State)
      → find order_key order_id s.committed.orders ≡ some order
      → ((pool : Pool)
          → find pool_key order.pool_id s.committed.pools ≡ some pool
          → pool_id ≡ some order.pool_id)
      → Frame pool_id
          (some order_id)
          s.committed
          (step p (History.releases order_id cutoff) s).committed
  unfolding step
  release-Frame order_id cutoff order pool_id s there known =
      release_one_expired_order-Frame order_id cutoff pool_id s (λ other pool found pool_found.
        let same : order ≡ other = ground (arith, there, found) in
        subst
          (λ o. find pool_key o.pool_id s.committed.pools ≡ some pool → pool_id ≡ some o.pool_id)
          same (known pool) pool_found)

  at_once-Frame :
      (r : Request) (s : State)
      → LocksNothing p r
      → Frame none none s.committed (step p r s).committed
  unfolding step
  at_once-Frame (creates input) s h = create_pool-Frame input s
  at_once-Frame (waits seconds) s h = Frame-refl none none s.committed
  at_once-Frame (delivers raw_body signature) s h =
      unread-Frame raw_body signature s _ _ h (process_webhook_event-Outcome p raw_body signature s)
  at_once-Frame _ s h = absurd h

  -- An event that cannot be recorded changes nothing.
  unrecorded-Frame :
      (d : Delivery p) (e : DbError) (s : State) (result : Result ⊤) (db : Database)
      → admit_event s.committed (event_of d.incoming s) ≡ some e
      → Paying.Outcome p d.raw_body d.signature s (result, db)
      → Frame none none s.committed db
  unrecorded-Frame d e s (err x) db refused same = rw same (Frame-refl none none _)
  unrecorded-Frame d e s (ok a) db refused (_, e', read, inl (_, same)) =
      rw same (Frame-refl none none _)
  unrecorded-Frame d e s (ok a) db refused (_, e', read, inr (new, _)) =
      let same : e' ≡ d.incoming = ground (arith, read, d.read) in
      let new' : admit_event s.committed (event_of d.incoming s) ≡ none =
        subst (λ e. admit_event s.committed (event_of e s) ≡ none) same new in
      absurd (ground (arith, new', refused))

  refused-Frame :
      (d : Delivery p) (e : DbError) (s : State)
      → admit_event s.committed (event_of d.incoming s) ≡ some e
      → Frame none none s.committed (step p (delivers d.raw_body d.signature) s).committed
  unfolding step
  refused-Frame d e s refused =
      unrecorded-Frame d e s _ _ refused (process_webhook_event-Outcome p d.raw_body d.signature s)

  with_pool :
      (t : PoolTask) (s : State) {row : Pool}
      → find pool_key (pool_id_of t) s.committed.pools ≡ some row
      → (after_pool t (some row) s ≡ step p (pool_request t) s)
        × Frame (some (pool_id_of t)) none s.committed (step p (pool_request t) s).committed
  with_pool t s h =
      (ap (λ row. after_pool t row s) (sym h) ∙ after_pool-step p t s, pool_request-Frame t s)

  pub Turn-Commits :
      {s t : State} {a q : Pc p} (turn : Turn p s a t q)
      → Holds s.committed a
      → Commits s (committed_by turn) a t
  unfolding committed_by
  Turn-Commits (begin_pool t) h = refl
  Turn-Commits (lock_pool found) h = refl
  Turn-Commits {s} (miss_pool {t} absent) h = (
    ap (λ row. after_pool t row s) (sym absent) ∙ after_pool-step p t s,
    Frame-no_pool (pool_id_of t) none _ _ absent (pool_request-Frame t s),
  )
  Turn-Commits {s} (end_pool {t} keyless) h = with_pool t s h
  Turn-Commits (insert_key keyed new) h = refl
  Turn-Commits {s} (refuse_key {t} keyed known) h = with_pool t s h
  Turn-Commits {s} (end_key {t}) h = with_pool t s h
  Turn-Commits (begin_order order_id cutoff) h = refl
  Turn-Commits (lock_order found) h = refl
  Turn-Commits (miss_order absent) h = refl
  Turn-Commits (skip passed) h = refl
  Turn-Commits (lock_second due found) h = refl
  Turn-Commits {s} (miss_second {order_id} {cutoff} {row} due absent) h = (
    ap (λ pool. after_release row pool s) (sym absent)
        ∙ after_release-step p order_id cutoff row s h due,
    release-Frame order_id cutoff row none s h
        (λ pool found. absurd (ground (arith, absent, found))),
  )
  Turn-Commits {s} (end_release {order_id} {cutoff} {row} {pool}) (there, found, due) = (
    ap (λ pool. after_release row pool s) (sym found)
        ∙ after_release-step p order_id cutoff row s there due,
    release-Frame order_id cutoff row (some row.pool_id) s there (λ pool found. refl),
  )
  Turn-Commits (begin_event d) h = refl
  Turn-Commits (record_event new) h = refl
  Turn-Commits {s} (refuse_event {d} {e} refused) h =
      (after_event-step p d s, refused-Frame d e s refused)
  Turn-Commits {s} (end_event {d} unnamed) h =
      (after_event-step p d s, delivery-Frame d none s unnamed)
  Turn-Commits (lock_charged named found) h = refl
  Turn-Commits {s} (miss_charged {d} {order_id} named absent) h = (
    after_event-step p d s,
    Frame-no_order none order_id _ _ absent (delivery-Frame d (some order_id) s named),
  )
  Turn-Commits {s} (end_charge {d} {order_id} {row}) (there, named) =
      (after_charge-step p d order_id row s named there, delivery-Frame d (some order_id) s named)
  Turn-Commits {s} (at_once r nothing) h = (refl, at_once-Frame r s nothing)
