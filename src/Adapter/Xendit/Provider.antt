-- ===== src/Adapter/Xendit/Provider.antt =====
-- internal/adapter/xendit/xendit.go: the adapter as a PaymentProvider.
use extend_regional_payment.Prelude.{[]}
use extend_regional_payment.Adapter.Provider.{PaymentProvider}
use extend_regional_payment.Adapter.Xendit.{Api}
use extend_regional_payment.Adapter.Xendit.Calls.{answer_of}
use extend_regional_payment.Adapter.Xendit.Intents.{
  info, validate_payment_init, create_payment_intent,
}
use extend_regional_payment.Adapter.Xendit.Sync.{get_payment_status, sync_transaction_status}
use extend_regional_payment.Adapter.Xendit.Webhooks.{validate_webhook_signature, handle_webhook}
use extend_regional_payment.Adapter.Xendit.Cancels.{refund_payment, cancel_payment}

unfoldable pub xendit_provider : Api → PaymentProvider
xendit_provider api = record {
  info = info api.cfg;
  validate_payment_init = validate_payment_init api;
  create_payment_intent = create_payment_intent api;
  get_payment_status = λ h id. answer_of (get_payment_status api h id []);
  sync_transaction_status = sync_transaction_status api;
  validate_webhook_signature = validate_webhook_signature api;
  handle_webhook = λ h raw_body headers. handle_webhook api raw_body;
  refund_payment = refund_payment api;
  cancel_payment = cancel_payment api;
}
