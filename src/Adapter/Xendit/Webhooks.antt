-- ===== src/Adapter/Xendit/Webhooks.antt =====
-- internal/adapter/xendit/xendit.go: ValidateWebhookSignature and HandleWebhook, with the parsers of the
-- two kinds of event. A missing metadata map is an empty one.
use text.Mathlib.Text.{starts_with}
use extend_regional_payment.Prelude.{ℕ, String, List, Option, none, some, ◌||◌, ◌==◌, if◌then◌else◌}
use extend_regional_payment.Prelude.Table.{Table}
use extend_regional_payment.Prelude.Text.{trim_space}
use extend_regional_payment.Prelude.Found.{found, failed}
use extend_regional_payment.Adapter.Types.{
  PaymentResult, PaymentStatus, AdapterError, failure, Answer, answer, error,
}
use extend_regional_payment.Adapter.Http.{text_at}
use extend_regional_payment.Adapter.Xendit.{Api, PaymentSessionResponse, RefundEvent}
use extend_regional_payment.Adapter.Xendit.Statuses.{normal, map_payment_session_status}
use extend_regional_payment.Adapter.Xendit.Calls.{payment_session_id}

-- data.reference_id, or metadata.internalOrderId.
unfoldable pub order_id_of : PaymentSessionResponse → String
order_id_of session =
    let reference = trim_space session.reference_id in
    if reference == "" then trim_space (text_at "internalOrderId" session.metadata) else reference

module _ (api : Api) where
  unfoldable pub validate_webhook_signature : List ℕ → Table String → Option AdapterError
  validate_webhook_signature raw_body headers =
      let provided = trim_space (text_at "x-callback-token" headers) in
      if provided == ""
      then some (failure "missing x-callback-token header")
      else if provided == api.cfg.callback_token
      then none
      else some (failure "xendit callback token mismatch")

  unfoldable pub session_result : PaymentSessionResponse → Option PaymentResult
  session_result session =
      if starts_with (payment_session_id session) "ps"
      then (if order_id_of session == ""
          then none
          else some (record {
            provider_transaction_id = payment_session_id session;
            internal_order_id = order_id_of session;
            status = map_payment_session_status api.upper_rune session.status;
            raw_provider_status = session.status;
            amount = session.amount;
            currency_code = session.currency;
            failure_reason = session.status;
          }))
      else none

  unfoldable pub parse_payment_session_webhook : List ℕ → Option PaymentResult
  parse_payment_session_webhook raw_body = elim (api.decode_session_event raw_body) [
    | failed e ↦ none
    | found session ↦ session_result session
  ]

  unfoldable pub refund_event_status : String → PaymentStatus
  refund_event_status raw =
      let status = normal api.upper_rune raw in
      if status == "SUCCEEDED"
      then PaymentStatus.refunded
      else if (status == "FAILED") || (status == "CANCELLED") || (status == "CANCELED")
      then PaymentStatus.failed
      else PaymentStatus.pending

  unfoldable pub refund_result : RefundEvent → Option PaymentResult
  refund_result event =
      if starts_with event.event "refund."
      then (if trim_space event.reference_id == ""
          then none
          else some (record {
            provider_transaction_id = event.id;
            internal_order_id = trim_space event.reference_id;
            status = refund_event_status event.status;
            raw_provider_status = event.status;
            amount = event.amount;
            currency_code = event.currency;
            failure_reason = "";
          }))
      else none

  unfoldable pub parse_refund_webhook : List ℕ → Option PaymentResult
  parse_refund_webhook raw_body = elim (api.decode_refund_event raw_body) [
    | failed e ↦ none
    | found event ↦ refund_result event
  ]

  unfoldable pub handle_webhook : List ℕ → Answer PaymentResult
  handle_webhook raw_body = elim (parse_payment_session_webhook raw_body) [
    | some result ↦ answer result
    | none ↦ elim (parse_refund_webhook raw_body) [
      | some result ↦ answer result
      | none ↦ error (
          failure
            "xendit webhook: unrecognized payload format (expected payment session or refund event)")
    ]
  ]
