-- ===== src/Payments/Paystack.antt =====
-- What the payment code calls and the repository does not hold: Python's `hmac`, `json`, `str`,
-- `uuid.UUID` and `Decimal`, and Paystack's side of the HTTP call. With app/features/payments/
-- paystack_client.py, which stands between them and the service.
use farm_link.Common.{ℕ, String, Bool, Option, List, ◌==◌, str_eq, not, ◌||◌, if◌then◌else◌}
use farm_link.Schema.{Uuid, Kobo}
use farm_link.Session.{Exn, Result, ok, err}
use farm_link.Payments.Values.{Json, null, get, truthy}

abbrev pub Bytes : Type 0
Bytes = List ℕ

-- The JSON body of the POST to /transaction/initialize.
pub record Transaction : Type 0 where
  pub email : String
  pub amount : Kobo
  pub reference : String

pub record HttpReply : Type 0 where
  pub status_code : ℕ
  pub body : Json

pub record Platform : Type 0 where
  -- `settings.paystack_secret_key`, `hmac.new(key, body, sha512).hexdigest()`
  pub secret_key : String
  pub hmac_sha512 : String → Bytes → String
  -- `json.loads`; `none` is a `JSONDecodeError`.
  pub loads : Bytes → Option Json
  -- `str(value)` of a value that `json.loads` returns
  pub str : Json → String
  -- `str(uuid)`, `uuid.UUID(text)`; `none` is a `ValueError`
  pub uuid_text : Uuid → String
  pub parse_uuid : String → Option Uuid
  -- `Decimal(text)`, where that is a natural number of kobo
  pub decimal : String → Option Kobo
  -- Paystack's answer
  pub post : Transaction → HttpReply

-- `verify_webhook_signature`
unfoldable pub verify_webhook_signature : Platform → Bytes → String → Bool
verify_webhook_signature p raw_body signature =
    str_eq (p.hmac_sha512 p.secret_key raw_body) signature

pub data PaystackResult : Type 0 where
  data_of : Json → PaystackResult
  paystack_error : PaystackResult
  body_error : Exn → PaystackResult

abbrev accepted : ℕ → Json → Result Json → PaystackResult
accepted code body (err e) = if code == 200 then body_error e else paystack_error
accepted code body (ok status) =
    if not (code == 200) || not (truthy status)
    then paystack_error
    else (elim (get "data" null body) [ ok d ↦ data_of d | err e ↦ body_error e ])

-- `initialize_transaction`: refused unless the call succeeds and the body says so.
unfoldable pub initialize_transaction : Platform → Transaction → PaystackResult
unfolding get truthy
initialize_transaction p t =
    let reply = p.post t in accepted reply.status_code reply.body (get "status" null reply.body)
