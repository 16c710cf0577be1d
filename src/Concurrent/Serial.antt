-- ===== src/Concurrent/Serial.antt =====
-- Every commit of a transaction, with what it read under its locks, is a request that runs alone.
use farm_link.Common.{
  ◌∙◌, ◌≡◌, inl, inr, ap, sym, refl, Option-cases, Option, some, find, arith, true, false, String,
}
use farm_link.Schema.{
  Uuid, Time, Pool, Order, pool_key, order_key, admit_event, integrity_error, data_error,
}
use farm_link.Session.{State, gets, ◌>>=◌, Result, with_session, uuid4, insert_event}
use farm_link.Pools.{close_pool}
use farm_link.Contributions.{create_contribution}
use farm_link.Orders.{place_order}
use farm_link.Orders.Sweep.{
  release_one_expired_order, expire_if_due, expire_order, expire_from, announce_expiry,
}
use farm_link.Payments.Values.{Json, null, boolean, number, text, array, object}
use farm_link.Payments.Paystack.{Platform}
use farm_link.Payments.{
  Incoming, is_charge_success, settle, process_incoming, process_webhook_event,
}
use farm_link.Payments.Outcome.{event_of}
use farm_link.History.{Request, resumes, delivers, step}
use farm_link.History as History
use farm_link.Concurrent.{
  PoolTask, places, contributes, closes, pool_id_of, after_pool, after_release, skips, deliver_from,
  order_named, Delivery, after_event, after_charge,
}

-- The request that a pool's transaction is.
abbrev pub pool_request : PoolTask → Request
pool_request (places r) = resumes r
pool_request (contributes farmer_id pool_id qty) = History.contributes farmer_id pool_id qty
pool_request (closes pool_id) = History.closes pool_id

pub after_pool-step :
    (p : Platform) (t : PoolTask) (s : State)
    → after_pool t (find pool_key (pool_id_of t) s.committed.pools) s ≡ step p (pool_request t) s
unfolding after_pool step with_session place_order create_contribution close_pool
after_pool-step p (places r) s = refl
after_pool-step p (contributes farmer_id pool_id qty) s = refl
after_pool-step p (closes pool_id) s = refl

abbrev pub began : State → State
began s = record s { working = s.committed }

expire_if_due-from :
    (order_id : Uuid) (cutoff : Time) (order : Order) (t : State)
    → find order_key order_id t.working.orders ≡ some order
    → skips order cutoff ≡ false
    → (gets (λ s. find order_key order_id s.working.orders) >>= λ row. expire_if_due row cutoff) t
      ≡ expire_from order (find pool_key order.pool_id t.working.pools) t
unfolding expire_if_due expire_order
expire_if_due-from order_id cutoff order t there due = rw (there, due) refl

pub after_release-step :
    (p : Platform) (order_id : Uuid) (cutoff : Time) (order : Order) (s : State)
    → find order_key order_id s.committed.orders ≡ some order
    → skips order cutoff ≡ false
    → after_release order (find pool_key order.pool_id s.committed.pools) s
      ≡ step p (History.releases order_id cutoff) s
unfolding after_release step with_session release_one_expired_order
after_release-step p order_id cutoff order s there due =
    ap finished (sym (expire_if_due-from order_id cutoff order (began s) there due))
  where
    finished : Result (Option (Order × Option Pool)) × State → State
    finished x =
        (((λ (u : State). (x.0, record x.1 { working = x.1.committed })) >>= announce_expiry) (s)).1

-- What an event that names an order is like.
named_lem :
    (p : Platform) (e : Incoming) (order_id : Uuid) (reference : Json)
    → e.reference ≡ reference
    → order_named p e ≡ some order_id
    → (id_text : String) × (is_charge_success e.event_type ≡ true)
      × (e.reference ≡ text id_text)
      × (p.parse_uuid id_text ≡ some order_id)
unfolding order_named
named_lem p e order_id (text s) is named = (s, ground arith, is, ground arith)
named_lem p e order_id null is named = absurd (ground arith)
named_lem p e order_id (boolean b) is named = absurd (ground arith)
named_lem p e order_id (number n) is named = absurd (ground arith)
named_lem p e order_id (array xs) is named = absurd (ground arith)
named_lem p e order_id (object fields) is named = absurd (ground arith)

pub after_event-step :
    (p : Platform) (d : Delivery p) (s : State)
    → after_event p d s ≡ step p (delivers d.raw_body d.signature) s
unfolding after_event step with_session process_webhook_event
after_event-step p d s = rw (d.signed, d.read) refl

pub after_charge-step :
    (p : Platform) (d : Delivery p) (order_id : Uuid) (row : Order) (s : State)
    → order_named p d.incoming ≡ some order_id
    → find order_key order_id s.committed.orders ≡ some row
    → after_charge p d row s ≡ step p (delivers d.raw_body d.signature) s
unfolding after_charge after_event with_session deliver_from process_incoming settle uuid4
    insert_event
after_charge-step p d order_id row s names there =
    let (id_text, charged, refers, parsed) =
      named_lem p d.incoming order_id d.incoming.reference refl names in
    let same : after_charge p d row s ≡ after_event p d s =
      elim (Option-cases (admit_event s.committed (event_of d.incoming s))) [
        | inl new ↦ ground arith
        | inr (integrity_error, known) ↦ ground arith
        | inr (data_error, known) ↦ ground arith
      ] in
    same ∙ after_event-step p d s
