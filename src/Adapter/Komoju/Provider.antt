-- ===== src/Adapter/Komoju/Provider.antt =====
-- internal/adapter/komoju/komoju.go: the adapter as a PaymentProvider.
use extend_regional_payment.Prelude.{[]}
use extend_regional_payment.Adapter.Provider.{PaymentProvider}
use extend_regional_payment.Adapter.Komoju.{Api}
use extend_regional_payment.Adapter.Komoju.Intents.{
  info, validate_payment_init, create_payment_intent,
}
use extend_regional_payment.Adapter.Komoju.Calls.{get_payment_status, answer_of}
use extend_regional_payment.Adapter.Komoju.Webhooks.{validate_webhook_signature, handle_webhook}
use extend_regional_payment.Adapter.Komoju.Cancels.{
  sync_transaction_status, refund_payment, cancel_payment,
}

unfoldable pub komoju_provider : Api → PaymentProvider
komoju_provider api = record {
  info = info api.cfg;
  validate_payment_init = validate_payment_init api;
  create_payment_intent = λ h req. create_payment_intent api h req;
  get_payment_status = λ h id. answer_of api h (get_payment_status api h [] id).0;
  sync_transaction_status = λ h tx. sync_transaction_status api h tx;
  validate_webhook_signature = validate_webhook_signature api;
  handle_webhook = λ h raw_body headers. handle_webhook api raw_body;
  refund_payment =
      λ h order_id tx_id amount currency. refund_payment api h order_id tx_id amount currency;
  cancel_payment = λ h tx reason. cancel_payment api h tx reason;
}
