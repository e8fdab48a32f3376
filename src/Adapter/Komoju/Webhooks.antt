-- ===== src/Adapter/Komoju/Webhooks.antt =====
-- internal/adapter/komoju/komoju.go: ValidateWebhookSignature and HandleWebhook.
use extend_regional_payment.Prelude.{ℕ, String, List, Option, none, some, ◌==◌, ◌<>◌, if◌then◌else◌}
use extend_regional_payment.Prelude.Table.{Table}
use extend_regional_payment.Prelude.Text.{trim_space, to_lower}
use extend_regional_payment.Prelude.Found.{found, failed}
use extend_regional_payment.Adapter.Types.{
  PaymentResult, AdapterError, failure, Answer, answer, error,
}
use extend_regional_payment.Adapter.Http.{text_at}
use extend_regional_payment.Adapter.Hex.{encode}
use extend_regional_payment.Adapter.Komoju.{Api, PaymentResponse}
use extend_regional_payment.Adapter.Komoju.Amounts.{from_komoju_amount}
use extend_regional_payment.Adapter.Komoju.Statuses.{map_payment_status, failure_reason_of}

module _ (api : Api) where
  unfoldable pub validate_webhook_signature : List ℕ → Table String → Option AdapterError
  validate_webhook_signature raw_body headers =
      let provided = trim_space (text_at "x-komoju-signature" headers) in
      let expected = encode (api.hmac_sha256 api.cfg.webhook_secret raw_body) in
      if provided == ""
      then some (failure "missing x-komoju-signature header")
      else if to_lower api.lower_rune provided == expected
      then none
      else some (failure "komoju webhook signature mismatch")

  -- data.external_order_num, or metadata.internalOrderId.
  unfoldable pub order_id_of : PaymentResponse → String
  order_id_of payment =
      let order_num = trim_space payment.external_order_num in
      if order_num == "" then trim_space (text_at "internalOrderId" payment.metadata) else order_num

  unfoldable pub result_of : PaymentResponse → Answer PaymentResult
  result_of payment = elim (from_komoju_amount api payment.amount payment.currency) [
    | failed e ↦ error (failure e)
    | found amount ↦ answer (record {
      provider_transaction_id = payment.id;
      internal_order_id = order_id_of payment;
      status = map_payment_status api.lower_rune payment.status;
      raw_provider_status = payment.status;
      amount = amount;
      currency_code = payment.currency;
      failure_reason = failure_reason_of api.lower_rune payment.status;
    })
  ]

  unfoldable pub handle_webhook : List ℕ → Answer PaymentResult
  handle_webhook raw_body = elim (api.decode_event raw_body) [
    | failed e ↦ error (failure ("komoju webhook parse: " <> e))
    | found event ↦
        if event.data_payment.id == ""
        then error (failure "komoju webhook: missing data.id")
        else if order_id_of event.data_payment == ""
        then error
            (failure "komoju webhook: missing external_order_num or metadata.internalOrderId")
        else result_of event.data_payment
  ]
