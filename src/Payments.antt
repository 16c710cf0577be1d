-- ===== src/Payments.antt =====
-- app/features/payments/service.py: a buyer starts a payment, and Paystack's webhook confirms it.
pub mod Values
pub mod Paystack
pub mod Effect
pub mod Outcome
pub mod Redelivery
pub mod Settlement
use Prim.Native.String.{◌++◌ as ◌+++◌}
use farm_link.Common.{
  ⊤, ℕ, String, Bool, true, false, Option, none, some, List, ◌==◌, str_eq, if◌then◌else◌, not, find,
}
use farm_link.Schema.{
  Uuid, Kobo, User, Order, Payment, ProcessedEvent, paid, is_paid, is_pending, order_key, user_key,
  data_error, integrity_error,
}
use farm_link.Session.{
  State, Exn, order_not_found, order_not_owned_by_buyer, order_not_pending,
  invalid_webhook_signature, attribute_error, json_decode_error, decimal_error, database, Result,
  ok, err, send_payment_confirmation_email, Action, pure, raise, gets, ◌>>=◌, ◌>>◌, branch, attempt,
  or_raise, raise_if, commit, rollback, uuid4, update_order, insert_event, insert_payment, enqueue,
}
use Values.{Json, null, boolean, number, text, array, object, end, get, truthy}
use Paystack.{
  Platform, Bytes, Transaction, PaystackResult, verify_webhook_signature, initialize_transaction,
}

-- `initialize_payment`: the order's total is already in kobo.
unfoldable pub initialize_payment : Platform → Uuid → String → Uuid → Action PaystackResult
initialize_payment p buyer_id buyer_email order_id = do
  row ← gets (λ s. find order_key order_id s.working.orders)
  order ← or_raise row order_not_found
  raise_if (not (order.buyer_id == buyer_id)) order_not_owned_by_buyer
  raise_if (not (is_pending order.status)) order_not_pending
  pure (
      initialize_transaction p
        (record { email = buyer_email; amount = order.total; reference = p.uuid_text order.id }))

abbrev lift : {A : Type 0} → Result A → Action A
lift r s = (r, s)

-- `str(data.get("id") or f"{event_type}:{reference}")`
unfoldable pub event_id_of : Platform → Json → Json → Json → String
event_id_of p id event_type reference =
    if truthy id then p.str id else (p.str event_type +++ (":" +++ p.str reference))

-- `reference or ""`, into a text column: any other value is refused by the driver.
unfoldable pub reference_column : Json → Result String
unfolding truthy
reference_column (text s) = ok s
reference_column null = ok ""
reference_column (boolean b) = if b then err (database data_error) else ok ""
reference_column (number n) = if n == 0 then ok "" else err (database data_error)
reference_column (array xs) = if truthy (array xs) then err (database data_error) else ok ""
reference_column (object fields) =
    if truthy (object fields) then err (database data_error) else ok ""

abbrev decimal_or_error : Option Kobo → Result Kobo
decimal_or_error none = err decimal_error
decimal_or_error (some k) = ok k

-- `Decimal(amount) / 100` naira, in kobo
unfoldable pub amount_of : Platform → Json → Result Kobo
amount_of p (number n) = ok n
amount_of p (boolean b) = ok (if b then 1 else 0)
amount_of p (text s) = decimal_or_error (p.decimal s)
amount_of p null = err decimal_error
amount_of p (array xs) = err decimal_error
amount_of p (object fields) = err decimal_error

-- `event_type != "charge.success"`
unfoldable pub is_charge_success : Json → Bool
is_charge_success (text s) = str_eq s "charge.success"
is_charge_success _ = false

-- The email job, for a buyer that has an address.
unfoldable pub confirm_by_email : Option User → Uuid → Kobo → Action ⊤
confirm_by_email none order_id amount = pure tt
confirm_by_email (some buyer) order_id amount =
    branch (str_eq buyer.email "") (pure tt)
      (enqueue (send_payment_confirmation_email buyer.email order_id amount))

-- The payment's row, the commit, and the email job.
unfoldable pub insert_charge : Order → Kobo → Action ⊤
insert_charge order amount = do
  id ← uuid4
  now ← gets (λ s. s.now)
  insert_payment (record {
    id = id;
    order_id = order.id;
    amount = amount;
    recorded_by = none;
    recorded_at = now;
  })
  commit
  buyer ← gets (λ s. find user_key order.buyer_id s.working.users)
  confirm_by_email buyer order.id amount

-- The amount of a charge: nothing, where it names none.
unfoldable pub charged_amount : Platform → Json → Result Kobo
charged_amount p charge = elim (get "amount" (number 0) charge) [
  | ok raw ↦ amount_of p raw
  | err e ↦ err e
]

-- The effect of a successful charge on its order.
unfoldable pub record_payment : Platform → Json → Order → Action ⊤
record_payment p charge order = do
  update_order (record order { status = paid })
  amount ← lift (charged_amount p charge)
  insert_charge order amount

-- From the lock on the order's row on.
unfoldable pub settle_order : Platform → Json → Option Order → Action ⊤
settle_order p charge none = commit
settle_order p charge (some order) =
    branch (is_paid order.status) commit (record_payment p charge order)

abbrev settle_reference : Platform → Json → Option Uuid → Action ⊤
settle_reference p charge none = commit
settle_reference p charge (some order_id) = do
  row ← gets (λ s. find order_key order_id s.working.orders)
  settle_order p charge row

-- A reference that is no text has no `replace`, which `uuid.UUID` calls.
unfoldable pub settle : Platform → Json → Json → Action ⊤
settle p charge null = commit
settle p charge (text s) = settle_reference p charge (p.parse_uuid s)
settle p charge (boolean b) = raise attribute_error
settle p charge (number n) = raise attribute_error
settle p charge (array xs) = raise attribute_error
settle p charge (object fields) = raise attribute_error

-- The event is recorded: what it does. Where the record was refused, it had been handled before.
abbrev act_on_event : Platform → Result ⊤ → Json → Json → Json → Action ⊤
act_on_event p (ok _) event_type charge reference =
    branch (is_charge_success event_type) (settle p charge reference) commit
act_on_event p (err (database integrity_error)) event_type charge reference = rollback
act_on_event p (err (database data_error)) event_type charge reference = raise (database data_error)
act_on_event p (err e) event_type charge reference = raise e

-- What the handler reads from a payload before it writes anything.
pub record Incoming : Type 0 where
  pub event_type : Json
  pub charge : Json
  pub reference : Json
  pub event_id : String
  pub column : String

abbrev and_then : {A B : Type 0} → Result A → (A → Result B) → Result B
and_then (ok a) f = f a
and_then (err e) f = err e

unfoldable pub read_payload : Platform → Json → Result Incoming
read_payload p payload = and_then (get "event" null payload) λ event_type.
    and_then (get "data" (object end) payload) λ charge.
      and_then (get "reference" null charge) λ reference.
        and_then (get "id" null charge) λ charge_id. and_then (reference_column reference) λ column.
          ok (record {
            event_type = event_type;
            charge = charge;
            reference = reference;
            event_id = event_id_of p charge_id event_type reference;
            column = column;
          })

-- `json.loads`, and the reading.
unfoldable pub read_body : Platform → Bytes → Result Incoming
unfolding read_payload
read_body p raw_body = elim (p.loads raw_body) [
  | none ↦ err json_decode_error
  | some payload ↦ read_payload p payload
]

-- The event goes into the table first, and acts only if it went in.
unfoldable pub process_incoming : Platform → Incoming → Action ⊤
process_incoming p e = do
  id ← uuid4
  now ← gets (λ s. s.now)
  recorded ← attempt (
      insert_event
        (record { id = id; event_id = e.event_id; reference = e.column; created_at = now }))
  act_on_event p recorded e.event_type e.charge e.reference

unfoldable pub process_webhook_event : Platform → Bytes → String → Action ⊤
process_webhook_event p raw_body signature = do
  raise_if (not (verify_webhook_signature p raw_body signature)) invalid_webhook_signature
  e ← lift (read_body p raw_body)
  process_incoming p e
