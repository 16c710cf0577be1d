-- ===== src/Payments/Redelivery.antt =====
-- Paystack delivers an event again: nothing happens.
use text.Mathlib.TextPositions.{eq_refl}
use farm_link.Common.{
  ⊤, ◌+◌, ◌≡◌, Bool, true, none, some, List, [], ◌∷◌, ◌++◌, arith, String, find, first, inl, inr,
}
use farm_link.Schema.{
  Database, event_key, is_some, admit_event, has_event_id, fits_string, integrity_error,
}
use farm_link.Session.{State, Result, ok, err, with_session, rollback, uuid4, insert_event}
use farm_link.Payments.Paystack.{Platform, Bytes, verify_webhook_signature}
use farm_link.Payments.{Incoming, read_body, process_incoming, process_webhook_event}
use farm_link.Payments.Effect.{paid_database, Pays}
use farm_link.Payments.Outcome.{
  event_of, with_event, Delivered, Outcome, process_webhook_event-Outcome,
}

-- The event is in the table, and its columns are in range.
pub record Known (e : Incoming) (db : Database) : Type 0 where
  pub recorded : is_some (first (has_event_id e.event_id) db.processed_events) ≡ true
  pub id_fits : fits_string 255 e.event_id ≡ true
  pub reference_fits : fits_string 255 e.column ≡ true

-- A known event is refused by the table.
Known-refused :
    (e : Incoming) (s : State)
    → Known e s.committed
    → admit_event s.committed (event_of e s) ≡ some integrity_error
unfolding admit_event event_of has_event_id
Known-refused e s k = ground (arith, k.recorded, k.id_fits, k.reference_fits)

is_some-first-append {ℓ} :
    {A : Type ℓ} (p : A → Bool) (xs : List A) (x : A)
    → p x ≡ true
    → is_some (first p (xs ++ x ∷ [])) ≡ true
unfolding first
is_some-first-append p [] x h = rw h
is_some-first-append p (y ∷ xs) x h = ground (arith, is_some-first-append p xs x h)

refused-Known :
    (e : Incoming) (s : State)
    → find event_key (s.uuids s.drawn) s.committed.processed_events ≡ none
    → admit_event s.committed (event_of e s) ≡ some integrity_error
    → Known e s.committed
unfolding admit_event event_of
refused-Known e s fresh refused = ground arith

admitted-Known :
    (e : Incoming) (s : State)
    → admit_event s.committed (event_of e s) ≡ none
    → Known e (with_event e s).working
unfolding admit_event event_of with_event has_event_id
admitted-Known e s admitted = ground (
  arith,
  is_some-first-append (has_event_id e.event_id) s.committed.processed_events (event_of e s)
      (eq_refl e.event_id),
)

-- A payment leaves the table of events alone.
Pays-Known :
    (p : Platform) (e : Incoming) (s : State) (db : Database)
    → Pays p e.charge e.reference (with_event e s) db
    → Known e (with_event e s).working
    → Known e db
unfolding paid_database
Pays-Known p e s db (_, _, _, _, _, _, _, _, _, same) k =
    rw same
      (record { recorded = k.recorded; id_fits = k.id_fits; reference_fits = k.reference_fits })

Delivered-Known :
    (p : Platform) (e : Incoming) (s : State) (a : ⊤) (db : Database)
    → find event_key (s.uuids s.drawn) s.committed.processed_events ≡ none
    → Delivered p e s (ok a, db)
    → Known e db
Delivered-Known p e s a db fresh (inl (refused, same)) = rw same (refused-Known e s fresh refused)
Delivered-Known p e s a db fresh (inr (admitted, inl same)) = rw same (admitted-Known e s admitted)
Delivered-Known p e s a db fresh (inr (admitted, inr (_, pays))) =
    Pays-Known p e s db pays (admitted-Known e s admitted)

-- A known event: the handler answers as if it had worked, and only an identifier is spent.
pub Known-event_ignored :
    (p : Platform) (raw_body : Bytes) (signature : String) (e : Incoming) (s : State)
    → verify_webhook_signature p raw_body signature ≡ true
    → read_body p raw_body ≡ ok e
    → Known e s.committed
    → with_session (process_webhook_event p raw_body signature) s
      ≡ (ok tt, record s { working = s.committed; drawn = s.drawn + 1 })
unfolding with_session process_webhook_event process_incoming uuid4 insert_event rollback event_of
Known-event_ignored p raw_body signature e s signed read k =
    let refused : admit_event s.committed (event_of e s) ≡ some integrity_error =
      Known-refused e s k in
    rw (signed, read, refused)

module _ (p : Platform) (raw_body : Bytes) (signature : String) (s : State) where
  again :
      (result : Result ⊤) (s' : State)
      → find event_key (s.uuids s.drawn) s.committed.processed_events ≡ none
      → Outcome p raw_body signature s (result, s'.committed)
      → result ≡ ok tt
      → with_session (process_webhook_event p raw_body signature) s'
        ≡ (ok tt, record s' { working = s'.committed; drawn = s'.drawn + 1 })
  again (err x) s' fresh same is_ok = cc
  again (ok a) s' fresh (signed, e, read, d) is_ok =
      Known-event_ignored p raw_body signature e s' signed read
        (Delivered-Known p e s a s'.committed fresh d)

-- Once a delivery has been answered without an error, the same delivery is answered so again and
-- has no further effect: no row, no payment, no job. (`uuid4` had not repeated itself in the first.)
pub process_webhook_event-redelivered :
    (p : Platform) (raw_body : Bytes) (signature : String) (s : State)
    → find event_key (s.uuids s.drawn) s.committed.processed_events ≡ none
    → (with_session (process_webhook_event p raw_body signature) s).0 ≡ ok tt
    → let s' = (with_session (process_webhook_event p raw_body signature) s).1 in
      with_session (process_webhook_event p raw_body signature) s'
      ≡ (ok tt, record s' { working = s'.committed; drawn = s'.drawn + 1 })
process_webhook_event-redelivered p raw_body signature s fresh answered =
    again p raw_body signature s _ (with_session (process_webhook_event p raw_body signature) s).1
      fresh (process_webhook_event-Outcome p raw_body signature s) answered
