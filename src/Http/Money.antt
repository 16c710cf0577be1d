-- ===== src/Http/Money.antt =====
-- The routers of app/features/payments and payouts.
use farm_link.Common.{⊤, String, true, Option, none, some, List, [], ◌∷◌}
use farm_link.Schema.{Uuid, farmer, buyer, admin, User, Payout}
use farm_link.Session.{
  Exn, pool_not_found, pool_not_closed, pool_already_paid_out, order_not_found,
  order_not_owned_by_buyer, order_not_pending, invalid_webhook_signature, key_error, upstream_error,
  http_exception, ok, err, Action, pure, raise, ◌>>=◌,
}
use farm_link.Security.{Crypto}
use farm_link.Payments.Values.{Json, null, text, get}
use farm_link.Payments.Paystack.{
  Platform, Bytes, PaystackResult, data_of, paystack_error, body_error,
}
use farm_link.Payments.{initialize_payment, process_webhook_event}
use farm_link.Payouts.{calculate_and_create_payouts, list_payouts_for_farmer, list_payouts_for_pool}
use farm_link.Http.Status.{catching, guarded}

unfoldable pub payment_status : Exn → Exn
payment_status order_not_found = http_exception 404
payment_status order_not_owned_by_buyer = http_exception 403
payment_status order_not_pending = http_exception 409
payment_status e = e

pub record PaymentInitializeResponse : Type 0 where
  pub authorization_url : String
  pub access_code : String
  pub reference : String

-- `paystack_data[name]`, into a field of type `str`: neither a missing key nor another type is caught.
unfoldable pub text_field : String → Json → Action String
text_field name reply = elim (get name null reply) [
  | ok (text s) ↦ pure s
  | ok _ ↦ raise key_error
  | err e ↦ raise e
]

abbrev paystack_data : PaystackResult → Action Json
paystack_data (data_of reply) = pure reply
paystack_data paystack_error = raise upstream_error
paystack_data (body_error e) = raise e

unfoldable pub start_payment : Platform → Uuid → User → Action PaymentInitializeResponse
unfolding payment_status text_field
start_payment p order_id user = do
  result ← catching payment_status (initialize_payment p user.id user.email order_id)
  reply ← paystack_data result
  authorization_url ← text_field "authorization_url" reply
  access_code ← text_field "access_code" reply
  reference ← text_field "reference" reply
  pure (record {
    authorization_url = authorization_url;
    access_code = access_code;
    reference = reference;
  })

unfoldable pub initialize_payment_route :
    Crypto → Platform → Option String → Uuid → Action PaymentInitializeResponse
initialize_payment_route c p token order_id =
    guarded c (buyer ∷ []) true token (start_payment p order_id)

abbrev pub webhook_status : Exn → Exn
webhook_status invalid_webhook_signature = http_exception 401
webhook_status e = e

unfoldable pub paystack_webhook : Platform → Bytes → Option String → Action ⊤
paystack_webhook p raw_body none = raise (http_exception 401)
paystack_webhook p raw_body (some signature) =
    catching webhook_status (process_webhook_event p raw_body signature)

unfoldable pub payout_status : Exn → Exn
payout_status pool_not_found = http_exception 404
payout_status pool_not_closed = http_exception 409
payout_status pool_already_paid_out = http_exception 409
payout_status e = e

unfoldable pub distribute_payouts : Crypto → Option String → Uuid → Action (List Payout)
unfolding payout_status
distribute_payouts c token pool_id =
    guarded c (admin ∷ []) true token
      (λ _. catching payout_status (calculate_and_create_payouts pool_id))

unfoldable pub list_payouts_route : Uuid → Action (List Payout)
list_payouts_route pool_id = list_payouts_for_pool pool_id

unfoldable pub list_my_payouts : Crypto → Option String → Action (List Payout)
list_my_payouts c token =
    guarded c (farmer ∷ []) true token (λ user. list_payouts_for_farmer user.id)
