-- ===== src/Payments/Settlement.antt =====
-- A successful charge pays for its order, whatever the order's status was, unless it is paid already.
use farm_link.Common.{
  ⊤, ◌≡◌, refl, true, false, none, some, [], ◌∷◌, ◌++◌, arith, String, find, replace,
}
use farm_link.Schema.{
  Uuid, Kobo, Order, Database, order_key, paid, is_paid, admit_event, admit_payment,
}
use farm_link.Session.{
  State, Result, ok, with_session, commit, uuid4, update_order, insert_event, insert_payment,
  enqueue,
}
use farm_link.Payments.Values.{text}
use farm_link.Payments.Paystack.{Platform, Bytes, verify_webhook_signature}
use farm_link.Payments.{
  Incoming, read_body, is_charge_success, charged_amount, confirm_by_email, insert_charge,
  record_payment, settle_order, settle, process_incoming, process_webhook_event,
}
use farm_link.Payments.Effect.{payment_of, paid_database}
use farm_link.Payments.Outcome.{event_of, with_event}

-- A signed delivery of a successful charge of `amount` for `order`, seen for the first time.
pub record Charges (p : Platform) (raw_body : Bytes) (signature : String) (s : State) (e : Incoming)
    (order_id : Uuid) (order : Order) (amount : Kobo) : Type 0 where
  pub signed : verify_webhook_signature p raw_body signature ≡ true
  pub read : read_body p raw_body ≡ ok e
  pub new : admit_event s.committed (event_of e s) ≡ none
  pub success : is_charge_success e.event_type ≡ true
  pub id_text : String
  pub refers : e.reference ≡ text id_text
  pub parsed : p.parse_uuid id_text ≡ some order_id
  pub found : find order_key order_id s.committed.orders ≡ some order
  pub amounts : charged_amount p e.charge ≡ ok amount

-- What the handler has committed when it answers.
abbrev pub Answers : Result ⊤ × State → Database → Type 0
Answers (result, s') db = (result ≡ ok tt) × (s'.committed ≡ db)

insert_charge-Answers :
    (order : Order) (amount : Kobo) (t : State)
    → admit_payment t.working (payment_of order amount t) ≡ none
    → let (result, t') = insert_charge order amount t in
      Answers
        (result, t')
        (record t.working { payments = t.working.payments ++ payment_of order amount t ∷ [] })
unfolding insert_charge commit uuid4 insert_payment payment_of confirm_by_email enqueue
insert_charge-Answers order amount t admitted = ground arith

-- The session in which the payment is inserted: the event is in it, and the order is paid.
unfoldable pub paying_state : Incoming → Order → State → State
unfolding with_event
paying_state e order s =
    let t = with_event e s in
    record t {
      working = record t.working {
        orders = replace order_key (record order { status = paid }) t.working.orders;
      };
    }

-- A first delivery of a successful charge for an order that is not paid marks it paid and records the
-- amount of the charge, in one commit with the event. The order's total and its status are not asked.
pub process_webhook_event-pays :
    (p : Platform) (raw_body : Bytes) (signature : String) (s : State) (e : Incoming)
    (order_id : Uuid) (order : Order) (amount : Kobo)
    → Charges p raw_body signature s e order_id order amount
    → is_paid order.status ≡ false
    → admit_payment
        (paying_state e order s).working
        (payment_of order amount (paying_state e order s))
      ≡ none
    → let (result, s') = with_session (process_webhook_event p raw_body signature) s in
      Answers (result, s') (paid_database order amount (with_event e s))
unfolding with_session process_webhook_event process_incoming uuid4 insert_event settle settle_order
    record_payment update_order event_of with_event paid_database payment_of paying_state
process_webhook_event-pays p raw_body signature s e order_id order amount c unpaid admitted =
    rw (c.signed, c.read, c.new, c.success, c.refers, c.parsed, c.found, unpaid, c.amounts)
      (insert_charge-Answers order amount (paying_state e order s) admitted)

-- A charge for an order that is paid already records its event and nothing else.
pub process_webhook_event-already_paid :
    (p : Platform) (raw_body : Bytes) (signature : String) (s : State) (e : Incoming)
    (order_id : Uuid) (order : Order) (amount : Kobo)
    → Charges p raw_body signature s e order_id order amount
    → is_paid order.status ≡ true
    → let (result, s') = with_session (process_webhook_event p raw_body signature) s in
      Answers (result, s') (with_event e s).working
unfolding with_session process_webhook_event process_incoming uuid4 insert_event settle settle_order
    commit event_of with_event
process_webhook_event-already_paid p raw_body signature s e order_id order amount c already =
    rw (c.signed, c.read, c.new, c.success, c.refers, c.parsed, c.found, already) (refl, refl)
