-- ===== src/Payments/Effect.antt =====
-- What a successful charge does to its order, as one transaction.
use farm_link.Common.{
  ⊤, ◌≡◌, refl, ◌⊎◌, inl, inr, false, none, some, [], ◌∷◌, ◌++◌, arith, String, find, replace,
  Option-cases, Bool-cases,
}
use farm_link.Schema.{Uuid, Kobo, Order, Payment, Database, order_key, paid, is_paid}
use farm_link.Session.{
  State, Result, Result-cases, ok, err, commit, uuid4, update_order, insert_payment, enqueue,
}
use farm_link.Payments.Values.{Json, null, boolean, number, text, array, object}
use farm_link.Payments.Paystack.{Platform}
use farm_link.Payments.{
  charged_amount, confirm_by_email, insert_charge, record_payment, settle_order, settle,
}

unfoldable pub payment_of : Order → Kobo → State → Payment
payment_of order amount t = record {
  id = t.uuids t.drawn;
  order_id = order.id;
  amount = amount;
  recorded_by = none;
  recorded_at = t.now;
}

-- The session's database with the order paid and the payment recorded.
unfoldable pub paid_database : Order → Kobo → State → Database
unfolding payment_of
paid_database order amount t =
    let db = t.working in
    record db {
      orders = replace order_key (record order { status = paid }) db.orders;
      payments = db.payments ++ payment_of order amount t ∷ [];
    }

-- The order that a charge refers to is in the session, not paid yet, and paid for now: with the
-- amount of the charge, whatever the order's total.
abbrev pub Pays : Platform → Json → Json → State → Database → Type 0
Pays p charge reference t db =
    (id_text : String) × (order_id : Uuid) × (order : Order) × (amount : Kobo) × (reference
      ≡ text id_text)
    × (p.parse_uuid id_text ≡ some order_id)
    × (find order_key order_id t.working.orders ≡ some order)
    × (is_paid order.status ≡ false)
    × (charged_amount p charge ≡ ok amount)
    × (db ≡ paid_database order amount t)

-- With the event written to the session: the session is committed as it is, or with a payment.
abbrev pub Effect : Platform → Json → Json → State → Result ⊤ × Database → Type 0
Effect p charge reference t (err e, db) = db ≡ t.committed
Effect p charge reference t (ok _, db) = (db ≡ t.working) ⊎ Pays p charge reference t db

-- The payment's own part: it commits the session with the payment, or nothing.
abbrev Inserted : Order → Kobo → State → Result ⊤ × Database → Type 0
Inserted order amount t (err e, db) = db ≡ t.committed
Inserted order amount t (ok _, db) =
    db ≡ record t.working { payments = t.working.payments ++ payment_of order amount t ∷ [] }

insert_charge-Inserted :
    (order : Order) (amount : Kobo) (t : State)
    → let (result, t') = insert_charge order amount t in
      Inserted order amount t (result, t'.committed)
unfolding insert_charge commit uuid4 insert_payment payment_of confirm_by_email enqueue
insert_charge-Inserted order amount t = ground arith

abbrev Recorded : Platform → Json → Order → State → Result ⊤ × Database → Type 0
Recorded p charge order t (err e, db) = db ≡ t.committed
Recorded p charge order t (ok _, db) =
    (amount : Kobo) × (charged_amount p charge ≡ ok amount) × (db ≡ paid_database order amount t)

Inserted-Recorded :
    (p : Platform) (charge : Json) (order : Order) (amount : Kobo) (t : State) (result : Result ⊤)
    (db : Database)
    → charged_amount p charge ≡ ok amount
    → let paid_order = record order { status = paid } in
      let rows = replace order_key paid_order t.working.orders in
      Inserted order amount (record t { working = record t.working { orders = rows } }) (result, db)
      → Recorded p charge order t (result, db)
unfolding paid_database payment_of
Inserted-Recorded p charge order amount t (err e) db known same = same
Inserted-Recorded p charge order amount t (ok _) db known same = (amount, known, same)

record_payment-Recorded :
    (p : Platform) (charge : Json) (order : Order) (t : State)
    → let (result, t') = record_payment p charge order t in
      Recorded p charge order t (result, t'.committed)
unfolding record_payment update_order
record_payment-Recorded p charge order t = elim (Result-cases (charged_amount p charge)) [
  | inl (e, refused) ↦ rw (refused, record_payment) refl
  | inr (amount, known) ↦
      rw (known, record_payment)
        (Inserted-Recorded p charge order amount t _ _ known
          (insert_charge-Inserted order amount _))
]

module _ (p : Platform) (charge : Json) (id_text : String) (order_id : Uuid) where
  Recorded-Effect :
      (order : Order) (t : State) (result : Result ⊤) (db : Database)
      → p.parse_uuid id_text ≡ some order_id
      → find order_key order_id t.working.orders ≡ some order
      → is_paid order.status ≡ false
      → Recorded p charge order t (result, db)
      → Effect p charge (text id_text) t (result, db)
  Recorded-Effect order t (err e) db parsed there unpaid same = same
  Recorded-Effect order t (ok _) db parsed there unpaid (amount, known, same) =
      inr (id_text, order_id, order, amount, refl, parsed, there, unpaid, known, same)

  settle_order-Effect :
      (t : State)
      → p.parse_uuid id_text ≡ some order_id
      → let (result, t') = settle_order p charge (find order_key order_id t.working.orders) t in
        Effect p charge (text id_text) t (result, t'.committed)
  unfolding settle_order commit
  settle_order-Effect t parsed = elim (Option-cases (find order_key order_id t.working.orders)) [
    | inl absent ↦ rw absent (inl refl)
    | inr (order, there) ↦ elim (Bool-cases (is_paid order.status)) [
      | inl already ↦ rw (there, already) (inl refl)
      | inr unpaid ↦
          rw (there, unpaid)
            (Recorded-Effect order t _ _ parsed there unpaid
              (record_payment-Recorded p charge order t))
    ]
  ]

pub settle-Effect :
    (p : Platform) (charge reference : Json) (t : State)
    → let (result, t') = settle p charge reference t in
      Effect p charge reference t (result, t'.committed)
unfolding settle commit
settle-Effect p charge null t = inl refl
settle-Effect p charge (text s) t = elim (Option-cases (p.parse_uuid s)) [
  | inl orphan ↦ rw orphan (inl refl)
  | inr (order_id, e) ↦ rw e (settle_order-Effect p charge s order_id t e)
]
settle-Effect p charge (boolean b) t = refl
settle-Effect p charge (number n) t = refl
settle-Effect p charge (array xs) t = refl
settle-Effect p charge (object fields) t = refl
