-- ===== src/Adapter/Generic/Provider.antt =====
-- internal/adapter/generic/generic.go: the adapter as a PaymentProvider, which accepts every
-- request for a payment.
use extend_regional_payment.Prelude.{none}
use extend_regional_payment.Adapter.Provider.{PaymentProvider}
use extend_regional_payment.Adapter.Generic.{Api}
use extend_regional_payment.Adapter.Generic.Signature.{validate_webhook_signature}
use extend_regional_payment.Adapter.Generic.Methods.{
  info, create_payment_intent, get_payment_status, sync_transaction_status, handle_webhook,
  refund_payment, cancel_payment,
}

unfoldable pub generic_provider : Api → PaymentProvider
generic_provider api = record {
  info = info api.cfg;
  validate_payment_init = λ req. none;
  create_payment_intent = create_payment_intent api;
  get_payment_status = get_payment_status api;
  sync_transaction_status = sync_transaction_status api;
  validate_webhook_signature = validate_webhook_signature api;
  handle_webhook = λ h raw_body headers. handle_webhook api raw_body;
  refund_payment = refund_payment api;
  cancel_payment = cancel_payment api;
}
