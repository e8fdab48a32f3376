-- ===== src/Adapter/Xendit/Calls.antt =====
-- internal/adapter/xendit/xendit.go: doJSON, the calls of the API, and the calls of the SDK. A method
-- is a chain of calls that ends with the first error.
use extend_regional_payment.Prelude.{
  String, List, [], ◌∷◌, ◌++◌, Option, none, some, ◌==◌, ◌<>◌, if◌then◌else◌, map,
}
use Prim.Native.String.{char_at}
use text.Mathlib.Text.{starts_with}
use extend_regional_payment.Prelude.Int.{pos}
use extend_regional_payment.Prelude.Text.{trim_space, trim_right_of, trim_of}
use extend_regional_payment.Prelude.Found.{Found, found, failed}
use extend_regional_payment.Adapter.Effects.{History}
use extend_regional_payment.Adapter.Types.{Answer, answer, error, failure}
use extend_regional_payment.Adapter.Http.{HttpRequest, HttpResponse, is_success}
use extend_regional_payment.Adapter.Xendit.{
  Api, Config, Calls, XenditCall, http, transactions_by_reference, transactions_by_product,
  refunds_of, new_refund, SdkAnswer, sdk_response, sdk_error, SdkError, SdkTransaction, SdkRefund,
  CreateRefund, PaymentSessionResponse, PaymentRequestResponse, XenditPayment, TransactionRecord,
  RefundRecord,
}

abbrev pub Call : Type 0 → Type 0
Call A = Calls → Found A × Calls

abbrev pub pure : {A : Type 0} → A → Call A
pure a calls = (found a, calls)

abbrev pub raise : {A : Type 0} → String → Call A
raise e calls = (failed e, calls)

infixl 5 ◌>>=◌
unfoldable pub ◌>>=◌ : {A B : Type 0} → Call A → (A → Call B) → Call B
◌>>=◌ m f calls =
    let (result, calls') = m calls in
    elim result [ failed e ↦ (failed e, calls') | found a ↦ f a calls' ]

-- fmt.Errorf("label: %w", err)
abbrev pub labelled : {A : Type 0} → String → Call A → Call A
labelled label m calls =
    let (result, calls') = m calls in
    (elim result [ failed e ↦ failed (label <> ": " <> e) | found a ↦ found a ], calls')

-- What a method gives to the services.
abbrev pub answer_of : {A : Type 0} → Found A × Calls → Answer A
answer_of (found a, calls) = answer a
answer_of (failed e, calls) = error (failure e)

-- The zero values that a response is read into: an empty body leaves them.
abbrev pub no_session : PaymentSessionResponse
no_session = record {
  id = "";
  payment_session_id = "";
  status = "";
  payment_link_url = "";
  reference_id = "";
  amount = pos 0;
  currency = "";
  payment_request_id = "";
  payment_id = "";
  metadata = [];
}

abbrev pub no_payment_request : PaymentRequestResponse
no_payment_request = record {
  id = "";
  payment_request_id = "";
  reference_id = "";
  status = "";
  currency = "";
  latest_payment_id = "";
  failure_code = "";
}

abbrev pub no_payment : XenditPayment
no_payment = record {
  payment_id = "";
  reference_id = "";
  payment_request_id = "";
  status = "";
  currency = "";
  failure_code = "";
}

unfoldable pub payment_session_id : PaymentSessionResponse → String
payment_session_id session =
    if session.payment_session_id == "" then session.id else session.payment_session_id

unfoldable pub base_url : Config → String
base_url cfg =
    let url = trim_right_of (char_at "/" 0) cfg.api_base_url in
    if url == "" then "https://api.xendit.co" else url

unfoldable pub transaction_type_string : SdkTransaction → String
transaction_type_string item = elim item.type_name [
  | some name ↦ name
  | none ↦ elim item.type_json [ failed e ↦ "" | found json ↦ trim_of (char_at "\"" 0) json ]
]

module _ (api : Api) (h : History) where
  unfoldable pub new_request : (method path : String) → Option String → HttpRequest
  unfolding base_url
  new_request method path body = record {
    method = method;
    url = base_url api.cfg <> path;
    headers =
        ("Authorization", api.basic_auth api.cfg.secret_api_key "")
        ∷ ("Accept", "application/json")
        ∷ ((if starts_with path "/v3/" then ("api-version", "2024-11-11") ∷ [] else [])
            ++ elim body [ none ↦ [] | some text ↦ ("Content-Type", "application/json") ∷ [] ]);
    body = body;
  }

  -- What the response says, read into a value of type A.
  unfoldable pub read_reply : {A : Type 0} → A → (String → Found A) → HttpResponse → Found A
  read_reply blank decode response = elim (response.read_at_most 1048576) [
    | failed e ↦ failed e
    | found text ↦
        if is_success response.status_code
        then (if text == "" then found blank else decode text)
        else failed ("xendit API HTTP " <> api.decimal response.status_code <> ": " <> text)
  ]

  unfoldable pub do_json :
      {A : Type 0} → A → (String → Found A) → (method path : String) → Option String → Call A
  do_json blank decode method path body calls =
      let request = new_request method path body in
      (
        elim (api.send (h, calls) request) [
          | failed e ↦ failed e
          | found response ↦ read_reply blank decode response
        ],
        calls ++ http request ∷ [],
      )

  unfoldable pub get_session : String → Call PaymentSessionResponse
  get_session id = do_json no_session api.decode_session "GET" ("/sessions/" <> id) none

  unfoldable pub get_payment_request_status : String → Call PaymentRequestResponse
  get_payment_request_status id = do
    pr ← labelled ("xendit GetPaymentRequest " <> id) (
        do_json no_payment_request api.decode_payment_request "GET" ("/v3/payment_requests/" <> id)
          none)
    pure (record pr {
      payment_request_id = if pr.payment_request_id == "" then pr.id else pr.payment_request_id;
    })

  unfoldable pub get_payment_status_v3 : String → Call XenditPayment
  get_payment_status_v3 id = do
    payment ←
        labelled ("xendit GetPayment " <> id)
          (do_json no_payment api.decode_payment "GET" ("/v3/payments/" <> id) none)
    pure (record payment {
      payment_id = if payment.payment_id == "" then id else payment.payment_id;
    })

  unfoldable pub format_sdk_error : (prefix : String) → SdkError → String
  format_sdk_error prefix e = elim e.http_code [
    | some code ↦ prefix <> ": HTTP " <> api.decimal code <> ": " <> e.message
    | none ↦ prefix <> ": " <> e.message
  ]

  -- The entries of a list that the SDK answers with: none where the response is nil.
  sdk_entries : {A B : Type 0} → (prefix : String) → (A → B) → SdkAnswer (List A) → Found (List B)
  unfolding format_sdk_error
  sdk_entries prefix f (sdk_error e) = failed (format_sdk_error prefix e)
  sdk_entries prefix f (sdk_response none) = found []
  sdk_entries prefix f (sdk_response (some items)) = found (map f items)

  unfoldable pub transaction_record : SdkTransaction → TransactionRecord
  transaction_record item = record {
    id = item.id;
    product_id = item.product_id;
    kind = transaction_type_string item;
    status = item.status;
    reference_id = item.reference_id;
    currency = item.currency;
    amount = item.amount;
  }

  list_transactions : XenditCall → Call (List TransactionRecord)
  unfolding sdk_entries
  list_transactions call calls = (
    sdk_entries "xendit GetAllTransactions" transaction_record
        (api.list_transactions (h, calls) call),
    calls ++ call ∷ [],
  )

  unfoldable pub list_by_reference_id : String → Call (List TransactionRecord)
  unfolding list_transactions
  list_by_reference_id reference_id =
      if trim_space reference_id == ""
      then pure []
      else list_transactions (transactions_by_reference reference_id)

  unfoldable pub list_by_product_id : String → Call (List TransactionRecord)
  unfolding list_transactions
  list_by_product_id product_id =
      if trim_space product_id == ""
      then pure []
      else list_transactions (transactions_by_product product_id)

  -- Every refund of the list counts as a succeeded one.
  unfoldable pub refund_record : SdkRefund → RefundRecord
  refund_record item = record {
    id = item.id;
    status = "SUCCEEDED";
    amount = item.amount;
    currency = item.currency;
  }

  unfoldable pub list_refunds_by_payment_request_id : String → Call (List RefundRecord)
  unfolding sdk_entries
  list_refunds_by_payment_request_id id calls = if trim_space id == "" then (found [], calls) else (
    sdk_entries "xendit GetAllRefunds" refund_record (api.list_refunds (h, calls) id),
    calls ++ refunds_of id ∷ [],
  )

  unfoldable pub create_refund : (idempotency_key : String) → CreateRefund → Call (Unit {0})
  create_refund idempotency_key refund calls = (
    elim (api.create_refund (h, calls) idempotency_key refund) [
      | some e ↦ failed (format_sdk_error "xendit CreateRefund" e)
      | none ↦ found tt
    ],
    calls ++ new_refund idempotency_key refund ∷ [],
  )
