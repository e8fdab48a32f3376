-- ===== src/Adapter/Xendit/Cancels.antt =====
-- internal/adapter/xendit/xendit.go: RefundPayment with resolvePaymentRequestID, CancelPayment and
-- ValidateCredentials.
use text.Mathlib.Text.{starts_with}
use extend_regional_payment.Prelude.{String, [], ◌∷◌, Option, none, some, ◌==◌, ◌<>◌, if◌then◌else◌}
use extend_regional_payment.Prelude.Int.{ℤ}
use extend_regional_payment.Prelude.Text.{trim_space}
use extend_regional_payment.Prelude.Found.{found, failed}
use extend_regional_payment.Model.{Transaction}
use extend_regional_payment.Adapter.Types.{
  cancel_result, PaymentStatus, CancelStatus, CancelResult, AdapterError, failure, Answer,
}
use extend_regional_payment.Adapter.Effects.{History}
use extend_regional_payment.Adapter.Http.{is_denied}
use extend_regional_payment.Adapter.Xendit.{Api, CreateRefund, PaymentSessionResponse, HttpRequest}
use extend_regional_payment.Adapter.Xendit.Statuses.{
  normal, map_payment_session_status, map_payment_session_cancel_status,
}
use extend_regional_payment.Adapter.Xendit.Calls.{
  Call, pure, raise, labelled, ◌>>=◌, answer_of, no_session, payment_session_id, base_url, do_json,
  get_session, get_payment_status_v3, create_refund,
}

module _ (api : Api) where
  unfoldable pub cancel_result_from_payment_session :
      (fallback_tx_id : String) → PaymentSessionResponse → CancelResult
  cancel_result_from_payment_session fallback_tx_id session =
      cancel_result (map_payment_session_cancel_status api.upper_rune session.status) session.status
        (if payment_session_id session == "" then fallback_tx_id else payment_session_id session) ""
        ""

  -- The status that a canceled session ends with, where its cancel status is a failure.
  unfoldable pub second_status : PaymentStatus → CancelStatus
  second_status PaymentStatus.success = CancelStatus.already_paid
  second_status PaymentStatus.refunded = CancelStatus.already_paid
  second_status PaymentStatus.expired = CancelStatus.expired
  second_status PaymentStatus.canceled = CancelStatus.canceled
  second_status _ = CancelStatus.failed

  unfoldable pub settle_cancel : (tx_id : String) → PaymentSessionResponse → CancelResult
  settle_cancel tx_id session =
      let result = cancel_result_from_payment_session tx_id session in
      elim result.status [
        | CancelStatus.failed ↦ record result {
          status = second_status (map_payment_session_status api.upper_rune session.status);
        }
        | _ ↦ result
      ]

  unfoldable pub build_refund_request :
      (order_id payment_request_id : String) → ℤ → String → CreateRefund
  build_refund_request order_id payment_request_id amount currency_code = record {
    payment_request_id = payment_request_id;
    reference_id = order_id;
    amount = api.through_float amount;
    currency = normal api.upper_rune currency_code;
    reason = "REQUESTED_BY_CUSTOMER";
    metadata = ("internalOrderId", order_id) ∷ [];
  }

module _ (api : Api) (h : History) where
  request_id_of_payment : String → Call String
  request_id_of_payment id = do
    payment ←
        labelled "xendit resolvePaymentRequestID: fetch payment" (get_payment_status_v3 api h id)
    (if payment.payment_request_id == ""
        then raise
            ("xendit resolvePaymentRequestID: payment " <> id <> " has no payment_request_id")
        else pure payment.payment_request_id)

  request_id_of_session : String → Call String
  request_id_of_session id = do
    session ← labelled "xendit resolvePaymentRequestID: fetch session" (get_session api h id)
    (if session.payment_request_id == ""
        then raise (
            "xendit resolvePaymentRequestID: session " <> id
            <> " has no payment_request_id (payment may not be completed yet)")
        else pure session.payment_request_id)

  unfoldable pub resolve_payment_request_id : String → Call String
  unfolding request_id_of_payment request_id_of_session
  resolve_payment_request_id provider_tx_id =
      let id = trim_space provider_tx_id in
      if starts_with id "pr"
      then pure id
      else if starts_with id "py"
      then request_id_of_payment id
      else if starts_with id "ps"
      then request_id_of_session id
      else raise (
          "xendit resolvePaymentRequestID: provider transaction id " <> id
          <> " is not a payment_request_id or payment session id")

  unfoldable pub refund_calls :
      (internal_order_id provider_tx_id : String) → ℤ → String → Call (Unit {0})
  refund_calls internal_order_id provider_tx_id amount currency_code = do
    payment_request_id ← resolve_payment_request_id provider_tx_id
    create_refund api h (internal_order_id <> "-" <> provider_tx_id)
        (build_refund_request api internal_order_id payment_request_id amount currency_code)

  unfoldable pub refund_payment :
      (internal_order_id provider_tx_id : String) → ℤ → String → Option AdapterError
  refund_payment internal_order_id provider_tx_id amount currency_code =
      elim ((refund_calls internal_order_id provider_tx_id amount currency_code []).0) [
        | failed e ↦ some (failure e)
        | found done ↦ none
      ]

  unfoldable pub cancel_calls : Transaction → (reason : String) → Call (Option CancelResult)
  cancel_calls tx reason =
      if trim_space tx.provider_tx_id == ""
      then pure (
          some
            (cancel_result CancelStatus.unsupported "" "" "missing xendit payment session id" ""))
      else if starts_with tx.provider_tx_id "ps"
      then (do_json api h no_session api.decode_session "POST"
            ("/sessions/" <> tx.provider_tx_id <> "/cancel") (some (api.encode_reason reason))
          >>= λ session. pure (some (settle_cancel api tx.provider_tx_id session)))
      else pure (
          some (
            cancel_result CancelStatus.unsupported "" ""
              "xendit cancellation is only supported for payment sessions (ps- prefix)" ""))

  unfoldable pub cancel_payment : Transaction → (reason : String) → Answer (Option CancelResult)
  cancel_payment tx reason = answer_of (cancel_calls tx reason [])

  list_request : HttpRequest
  list_request = record {
    method = "GET";
    url = base_url api.cfg <> "/refunds?limit=1";
    headers =
        ("Authorization", api.basic_auth api.cfg.secret_api_key "")
        ∷ ("Accept", "application/json")
        ∷ [];
    body = none;
  }

  unfoldable pub validate_credentials : Option AdapterError
  unfolding list_request
  validate_credentials = elim (api.send (h, []) list_request) [
    | failed e ↦ some (failure ("xendit ValidateCredentials: " <> e))
    | found response ↦
        let code = response.status_code in
        if is_denied code
        then some (
            failure (
              "xendit ValidateCredentials: HTTP "
              <> api.decimal code
              <> " - check XENDIT_SECRET_API_KEY"))
        else none
  ]
