-- ===== src/Adapter/Komoju/Calls.antt =====
-- internal/adapter/komoju/komoju.go: doJSON, and reading the status of a session or a payment.
use extend_regional_payment.Prelude.{
  ℕ, String, [], ◌∷◌, ◌++◌, Bool, false, Option, none, some, ◌==◌, ◌<>◌, ◌&&◌, zero, leb,
  if◌then◌else◌,
}
use extend_regional_payment.Prelude.Int.{ℤ, pos}
use extend_regional_payment.Prelude.Found.{Found, found, failed}
use extend_regional_payment.Adapter.Types.{ProviderPaymentStatus, failure, Answer, answer, error}
use extend_regional_payment.Adapter.Effects.{History}
use extend_regional_payment.Adapter.Http.{HttpRequest, HttpResponse, Requests, is_success}
use extend_regional_payment.Adapter.Komoju.{
  Api, ApiError, http_status, plain, Reply, reply, fault, PaymentResponse, SessionResponse,
}
use extend_regional_payment.Adapter.Komoju.Amounts.{from_komoju_amount}
use extend_regional_payment.Adapter.Komoju.Statuses.{
  map_payment_status, map_session_status, failure_reason_of,
}

-- The zero values that a response is read into: an empty body leaves them.
abbrev pub no_payment : PaymentResponse
no_payment = record {
  id = "";
  status = "";
  amount = pos 0;
  total = pos 0;
  currency = "";
  external_order_num = "";
  metadata = [];
}

abbrev pub no_session : SessionResponse
no_session = record {
  id = "";
  status = "";
  amount = pos 0;
  currency = "";
  session_url = "";
  payment = none;
}

unfoldable pub error_text : (ℕ → String) → ApiError → String
error_text decimal (plain e) = e
error_text decimal (http_status code body) =
    if body == ""
    then "komoju API HTTP " <> decimal code
    else "komoju API HTTP " <> decimal code <> ": " <> body

unfoldable pub is_http_status : ApiError → ℕ → Bool
is_http_status (http_status code body) expected = leb code expected && leb expected code
is_http_status (plain e) expected = false

module _ (api : Api) (h : History) where
  unfoldable pub new_request : (method path key : String) → Option String → HttpRequest
  new_request method path key body = record {
    method = method;
    url = api.cfg.api_base_url <> path;
    headers =
        ("Authorization", api.basic_auth api.cfg.secret_key "")
        ∷ ("Accept", "application/json")
        ∷ ("X-KOMOJU-API-VERSION", api.cfg.api_version)
        ∷ (elim body [ none ↦ [] | some text ↦ ("Content-Type", "application/json") ∷ [] ]
            ++ (if key == "" then [] else ("X-KOMOJU-IDEMPOTENCY", key) ∷ []));
    body = body;
  }

  -- What the response says, read into a value of type A.
  unfoldable pub read_reply : {A : Type 0} → A → (String → Found A) → HttpResponse → Reply A
  read_reply blank decode response = elim response.read_all [
    | failed e ↦ fault (plain e)
    | found text ↦
        if is_success response.status_code
        then (if text == "" then reply blank else elim (decode text) [
          | found a ↦ reply a
          | failed e ↦ fault (plain ("komoju response parse: " <> e))
        ])
        else fault (http_status response.status_code text)
  ]

  unfoldable pub do_json :
      {A : Type 0}
      → A
      → (String → Found A)
      → Requests
      → (method path key : String) → Option String
      → Reply A × Requests
  do_json blank decode sent method path key body =
      let request = new_request method path key body in
      (
        elim (api.send h sent request) [
          | failed e ↦ fault (plain e)
          | found response ↦ read_reply blank decode response
        ],
        sent ++ request ∷ [],
      )

  -- The status that a payment or a session has, once its amount is converted.
  with_amount : ℤ → String → (ℤ → ProviderPaymentStatus) → Reply ProviderPaymentStatus
  with_amount amount currency status = elim (from_komoju_amount api amount currency) [
    | failed e ↦ fault (plain e)
    | found normalized ↦ reply (status normalized)
  ]

  -- `payment.Total`, or `payment.Amount` where that is 0.
  unfoldable pub amount_of : PaymentResponse → ℤ
  amount_of payment = elim payment.total [ pos zero ↦ payment.amount | _ ↦ payment.total ]

  unfoldable pub provider_status_from_payment : PaymentResponse → Reply ProviderPaymentStatus
  unfolding with_amount
  provider_status_from_payment payment =
      with_amount (amount_of payment) payment.currency λ normalized. record {
        provider_tx_id = payment.id;
        status = map_payment_status api.lower_rune payment.status;
        amount = normalized;
        currency_code = payment.currency;
        failure_reason = failure_reason_of api.lower_rune payment.status;
      }

  bare_session_status : String → SessionResponse → Reply ProviderPaymentStatus
  unfolding with_amount
  bare_session_status fallback_tx_id session =
      with_amount session.amount session.currency λ normalized. record {
        provider_tx_id = fallback_tx_id;
        status = map_session_status api.lower_rune session.status;
        amount = normalized;
        currency_code = session.currency;
        failure_reason = "";
      }

  unfoldable pub provider_status_from_session :
      (fallback_tx_id : String) → SessionResponse → Reply ProviderPaymentStatus
  unfolding bare_session_status
  provider_status_from_session fallback_tx_id session = elim session.payment [
    | none ↦ bare_session_status fallback_tx_id session
    | some payment ↦
        if payment.id == ""
        then bare_session_status fallback_tx_id session
        else provider_status_from_payment payment
  ]

  -- GET /api/v1/payments/{id}, where there is no session of that id.
  unfoldable pub get_payment : Requests → String → Reply ProviderPaymentStatus × Requests
  get_payment sent provider_tx_id =
      let (response, sent') =
        do_json no_payment api.decode_payment sent "GET" ("/api/v1/payments/" <> provider_tx_id) ""
          none in
      (
        elim response [ fault e ↦ fault e | reply payment ↦ provider_status_from_payment payment ],
        sent',
      )

  unfoldable pub get_payment_status : Requests → String → Reply ProviderPaymentStatus × Requests
  get_payment_status sent provider_tx_id =
      let (response, sent') =
        do_json no_session api.decode_session sent "GET" ("/api/v1/sessions/" <> provider_tx_id) ""
          none in
      elim response [
        | reply session ↦ (provider_status_from_session provider_tx_id session, sent')
        | fault e ↦
            if is_http_status e 404 then get_payment sent' provider_tx_id else (fault e, sent')
      ]

  -- The result of a method: what it replies, as the interface has it.
  unfoldable pub answer_of : {A : Type 0} → Reply A → Answer A
  answer_of (reply a) = answer a
  answer_of (fault e) = error (failure (error_text api.decimal e))
