-- ===== src/Payments/Outcome.antt =====
-- `process_webhook_event` as one transaction: what it commits, on every way through it.
use farm_link.Common.{
  ⊤, ◌+◌, ◌≡◌, refl, ◌⊎◌, inl, inr, true, none, some, [], ◌∷◌, ◌++◌, String, Option-cases,
  Bool-cases,
}
use farm_link.Schema.{ProcessedEvent, Database, admit_event, integrity_error, data_error}
use farm_link.Session.{
  State, Result, Result-cases, ok, err, with_session, commit, rollback, uuid4, insert_event,
}
use farm_link.Payments.Paystack.{Platform, Bytes, verify_webhook_signature}
use farm_link.Payments.{
  is_charge_success, Incoming, read_body, process_incoming, process_webhook_event,
}
use farm_link.Payments.Effect.{Pays, Effect, settle-Effect}

-- The row for an event.
unfoldable pub event_of : Incoming → State → ProcessedEvent
event_of e s = record {
  id = s.uuids s.drawn;
  event_id = e.event_id;
  reference = e.column;
  created_at = s.now;
}

-- The session after the event was written to it.
unfoldable pub with_event : Incoming → State → State
unfolding event_of
with_event e s = record s {
  working = record s.committed {
    processed_events = s.committed.processed_events ++ event_of e s ∷ [];
  };
  drawn = s.drawn + 1;
}

-- What a delivery may commit. Nothing, if it raises, or if its event cannot be recorded because it
-- is there already; else the event, by itself or with a payment.
abbrev pub Delivered : Platform → Incoming → State → Result ⊤ × Database → Type 0
Delivered p e s (err x, db) = db ≡ s.committed
Delivered p e s (ok _, db) =
    ((admit_event s.committed (event_of e s) ≡ some integrity_error) × (db ≡ s.committed))
    ⊎ ((admit_event s.committed (event_of e s) ≡ none)
        × ((db ≡ (with_event e s).working)
            ⊎ ((is_charge_success e.event_type ≡ true)
                × Pays p e.charge e.reference (with_event e s) db)))

Effect-Delivered :
    (p : Platform) (e : Incoming) (s : State) (result : Result ⊤) (db : Database)
    → admit_event s.committed (event_of e s) ≡ none
    → is_charge_success e.event_type ≡ true
    → Effect p e.charge e.reference (with_event e s) (result, db)
    → Delivered p e s (result, db)
unfolding with_event
Effect-Delivered p e s (err x) db new charged same = same
Effect-Delivered p e s (ok _) db new charged (inl same) = inr (new, inl same)
Effect-Delivered p e s (ok _) db new charged (inr pays) = inr (new, inr (charged, pays))

process_incoming-Delivered :
    (p : Platform) (e : Incoming) (s : State)
    → let (result, s') = process_incoming p e (record s { working = s.committed }) in
      Delivered p e s (result, s'.committed)
unfolding process_incoming uuid4 insert_event commit rollback event_of with_event
process_incoming-Delivered p e s = elim (Option-cases (admit_event s.committed (event_of e s))) [
  | inl new ↦ rw new (elim (Bool-cases (is_charge_success e.event_type)) [
    | inl charged ↦ rw charged (
        Effect-Delivered p e s _ _ new charged
          (settle-Effect p e.charge e.reference (with_event e s)))
    | inr other ↦ rw other (inr (new, inl refl))
  ])
  | inr (integrity_error, known) ↦ rw known (inl (known, refl))
  | inr (data_error, known) ↦ rw known refl
]

-- What a signed delivery was read as, and what it committed.
abbrev pub Outcome : Platform → Bytes → String → State → Result ⊤ × Database → Type 0
Outcome p raw_body signature s (err x, db) = db ≡ s.committed
Outcome p raw_body signature s (ok a, db) =
    (verify_webhook_signature p raw_body signature ≡ true)
    × (e : Incoming) × (read_body p raw_body ≡ ok e)
    × Delivered p e s (ok a, db)

-- A delivery that raises commits nothing. One that returns was signed and read, and committed its
-- event, alone or with one payment, unless the event was there already.
pub process_webhook_event-Outcome :
    (p : Platform) (raw_body : Bytes) (signature : String) (s : State)
    → let (result, s') = with_session (process_webhook_event p raw_body signature) s in
      Outcome p raw_body signature s (result, s'.committed)
unfolding with_session process_webhook_event
process_webhook_event-Outcome p raw_body signature s =
    elim (Bool-cases (verify_webhook_signature p raw_body signature)) [
      | inr forged ↦ rw forged refl
      | inl signed ↦ elim (Result-cases (read_body p raw_body)) [
        | inl (x, bad) ↦ rw (signed, bad) refl
        | inr (e, read) ↦
            rw (signed, read) (wrap e _ _ signed read (process_incoming-Delivered p e s))
      ]
    ]
  where
    wrap :
        (e : Incoming) (result : Result ⊤) (db : Database)
        → verify_webhook_signature p raw_body signature ≡ true
        → read_body p raw_body ≡ ok e
        → Delivered p e s (result, db)
        → Outcome p raw_body signature s (result, db)
    wrap e (err x) db signed read d = d
    wrap e (ok _) db signed read d = (signed, e, read, d)
