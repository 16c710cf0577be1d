-- ===== src/History/Effects/Payments.antt =====
-- A delivery of a webhook touches neither the cache nor a feed.
use mathlib.Core.List.{append-nil}
use farm_link.Common.{
  ◌+◌, inl, inr, refl, Option, none, some, [], ◌∷◌, ◌++◌, Option-cases, Bool-cases, arith, find,
  String, ◌∙◌, str_eq, replace,
}
use farm_link.Schema.{
  Uuid, Kobo, User, Order, Payment, paid, order_key, user_key, is_paid, admit_payment, admit_event,
  integrity_error, data_error, Database,
}
use farm_link.Session.{
  State, Result-cases, with_session, commit, rollback, uuid4, update_order, insert_payment,
  insert_event, enqueue,
}
use farm_link.Payments.Values.{Json, null, boolean, number, text, array, object}
use farm_link.Payments.Paystack.{Platform, Bytes, verify_webhook_signature}
use farm_link.Payments.{
  confirm_by_email, insert_charge, charged_amount, record_payment, settle_order, settle,
  is_charge_success, Incoming, read_body, process_incoming, process_webhook_event,
}
use farm_link.Payments.Outcome.{event_of}
use farm_link.History.Effects.{feed_jobs, feed_jobs-append, Silent}

Silent-refl : (s : State) → Silent s s
Silent-refl s = (refl, refl, refl)

Silent-trans : (s t u : State) → Silent s t → Silent t u → Silent s u
Silent-trans s t u (a, b, c) (x, y, z) = (x ∙ a, y ∙ b, z ∙ c)

confirm_by_email-Silent :
    (buyer : Option User) (order_id : Uuid) (amount : Kobo) (s : State)
    → Silent s (confirm_by_email buyer order_id amount s).1
unfolding confirm_by_email enqueue feed_jobs
confirm_by_email-Silent none order_id amount s = Silent-refl s
confirm_by_email-Silent (some buyer) order_id amount s = elim (Bool-cases (str_eq buyer.email "")) [
  | inl blank ↦ rw blank (Silent-refl s)
  | inr address ↦ rw address (refl, simp (feed_jobs-append, append-nil), refl)
]

insert_charge-Silent :
    (order : Order) (amount : Kobo) (s : State) → Silent s (insert_charge order amount s).1
unfolding insert_charge uuid4 insert_payment commit
insert_charge-Silent order amount s = elim (Option-cases (admit_payment s.working payment)) [
  | inr (e, bad) ↦ ground (arith, bad)
  | inl fine ↦ ground (
    arith,
    fine,
    confirm_by_email-Silent (find user_key order.buyer_id s.working.users) order.id amount
        (record s { committed = written; working = written; drawn = s.drawn + 1 }),
  )
]
  where
    payment : Payment
    payment = record {
      id = s.uuids s.drawn;
      order_id = order.id;
      amount = amount;
      recorded_by = none;
      recorded_at = s.now;
    }

    written : Database
    written = record s.working { payments = s.working.payments ++ payment ∷ [] }

record_payment-Silent :
    (p : Platform) (charge : Json) (order : Order) (s : State)
    → Silent s (record_payment p charge order s).1
unfolding record_payment update_order
record_payment-Silent p charge order s = elim (Result-cases (charged_amount p charge)) [
  | inl (e, bad) ↦ rw bad (Silent-refl s)
  | inr (amount, read) ↦ rw read (
      insert_charge-Silent order amount (record s {
        working = record s.working {
          orders = replace order_key (record order { status = paid }) s.working.orders;
        };
      }))
]

settle_order-Silent :
    (p : Platform) (charge : Json) (row : Option Order) (s : State)
    → Silent s (settle_order p charge row s).1
unfolding settle_order commit
settle_order-Silent p charge none s = Silent-refl s
settle_order-Silent p charge (some order) s = elim (Bool-cases (is_paid order.status)) [
  | inl already ↦ rw already (Silent-refl s)
  | inr unpaid ↦ rw unpaid (record_payment-Silent p charge order s)
]

settle-Silent :
    (p : Platform) (charge reference : Json) (s : State) → Silent s (settle p charge reference s).1
unfolding settle commit
settle-Silent p charge (text id) s = elim (Option-cases (p.parse_uuid id)) [
  | inl orphan ↦ rw orphan (Silent-refl s)
  | inr (order_id, parsed) ↦
      rw parsed (settle_order-Silent p charge (find order_key order_id s.working.orders) s)
]
settle-Silent p charge null s = Silent-refl s
settle-Silent p charge (boolean b) s = Silent-refl s
settle-Silent p charge (number n) s = Silent-refl s
settle-Silent p charge (array xs) s = Silent-refl s
settle-Silent p charge (object fields) s = Silent-refl s

process_incoming-Silent :
    (p : Platform) (e : Incoming) (s : State)
    → Silent s (process_incoming p e (record s { working = s.committed })).1
unfolding process_incoming uuid4 insert_event commit rollback event_of
process_incoming-Silent p e s = elim (Option-cases (admit_event s.committed (event_of e s))) [
  | inl new ↦ rw new (elim (Bool-cases (is_charge_success e.event_type)) [
    | inl charged ↦ rw charged (
        settle-Silent p e.charge e.reference (record s {
          working = record s.committed {
            processed_events = s.committed.processed_events ++ event_of e s ∷ [];
          };
          drawn = s.drawn + 1;
        }))
    | inr other ↦ rw other (Silent-refl s)
  ])
  | inr (integrity_error, known) ↦ rw known (Silent-refl s)
  | inr (data_error, known) ↦ rw known (Silent-refl s)
]

pub process_webhook_event-Silent :
    (p : Platform) (raw_body : Bytes) (signature : String) (s : State)
    → Silent s (with_session (process_webhook_event p raw_body signature) s).1
unfolding with_session process_webhook_event
process_webhook_event-Silent p raw_body signature s =
    elim (Bool-cases (verify_webhook_signature p raw_body signature)) [
      | inr forged ↦ rw forged (Silent-refl s)
      | inl signed ↦ elim (Result-cases (read_body p raw_body)) [
        | inl (x, bad) ↦ rw (signed, bad) (Silent-refl s)
        | inr (e, read) ↦ rw (signed, read) (process_incoming-Silent p e s)
      ]
    ]
