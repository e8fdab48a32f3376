-- ===== src/Service/Calls.antt =====
-- The calls that the modelled services take, as data: gRPC requests, those that create a transaction
-- among them, webhooks, the scheduler's jobs and the checkout's calls; and a run of any calls, one
-- after another. Lists of transactions, which only read, are left out.
pub mod Invariant
pub mod Stands
pub mod Terms
use extend_regional_payment.Prelude.Int.{ℤ}
use extend_regional_payment.Service.Payment.Item.{Shop}
use extend_regional_payment.Service.Payment.Create.{
  CreatePaymentIntentRequest, create_payment_intent, create_checkout_transaction,
}
use extend_regional_payment.Prelude.{String, List, [], ◌∷◌}
use extend_regional_payment.Service.World.{World, Env}
use extend_regional_payment.Service.Handler.{Context}
use extend_regional_payment.Service.Cancel.{
  cancel_payment_for_existing_transaction, cancel_selected_provider_for_existing_transaction,
}
use extend_regional_payment.Service.Webhook.{WebhookRequest, handle_webhook}
use extend_regional_payment.Service.Scheduler.{
  run_stuck_fulfillment_recovery, run_lost_webhook_recovery,
}
use extend_regional_payment.Service.Admin.{
  TransactionRequest, get_transaction_detail, RefundRequest, refund, admin_sync_transaction,
  SyncTransactionsRequest, admin_sync_transactions,
}
use extend_regional_payment.Service.Payment.{
  ReturnUrl, create_payment_for_existing_transaction, get_transaction,
  get_transaction_by_client_order,
}
use extend_regional_payment.Service.Public.{
  PublicTransactionRequest, sync_my_transaction, PublicSyncTransactionsRequest,
  sync_my_transactions, CancelTransactionRequest, cancel_my_transaction,
}

pub data Call : Type 0 where
  new_intent new_checkout : Context → CreatePaymentIntentRequest → Call
  webhook : WebhookRequest → Call
  stuck_job lost_webhook_job : Call
  detail admin_sync : TransactionRequest → Call
  admin_refund : RefundRequest → Call
  admin_sync_page : SyncTransactionsRequest → Call
  my_sync : Context → PublicTransactionRequest → Call
  my_sync_page : Context → PublicSyncTransactionsRequest → Call
  my_cancel : Context → CancelTransactionRequest → Call
  pay : ReturnUrl → Context → (transaction_id provider_id description : String) → Call
  look_up look_up_order : String → Call
  checkout_cancel checkout_cancel_provider : Context → (txn_id reason : String) → Call

-- `decimal` is %d, and the shop is where a new transaction's item and id come from.
unfoldable pub serve : Env → (ℤ → String) → Shop → Call → World → World
serve env decimal shop (new_intent ctx req) w = (create_payment_intent decimal env shop ctx req w).1
serve env decimal shop (new_checkout ctx req) w =
    (create_checkout_transaction decimal env shop ctx req w).1
serve env decimal shop (webhook req) w = (handle_webhook env req w).1
serve env decimal shop stuck_job w = (run_stuck_fulfillment_recovery env w).1
serve env decimal shop lost_webhook_job w = (run_lost_webhook_recovery env w).1
serve env decimal shop (detail req) w = (get_transaction_detail env req w).1
serve env decimal shop (admin_sync req) w = (admin_sync_transaction env req w).1
serve env decimal shop (admin_refund req) w = (refund env req w).1
serve env decimal shop (admin_sync_page req) w = (admin_sync_transactions env req w).1
serve env decimal shop (my_sync ctx req) w = (sync_my_transaction env ctx req w).1
serve env decimal shop (my_sync_page ctx req) w = (sync_my_transactions env ctx req w).1
serve env decimal shop (my_cancel ctx req) w = (cancel_my_transaction env ctx req w).1
serve env decimal shop (pay return_url ctx id provider_id description) w =
    (create_payment_for_existing_transaction env return_url ctx id provider_id description w).1
serve env decimal shop (look_up id) w = (get_transaction env id w).1
serve env decimal shop (look_up_order order) w = (get_transaction_by_client_order env order w).1
serve env decimal shop (checkout_cancel ctx id reason) w =
    (cancel_payment_for_existing_transaction env ctx id reason w).1
serve env decimal shop (checkout_cancel_provider ctx id reason) w =
    (cancel_selected_provider_for_existing_transaction env ctx id reason w).1

unfoldable pub serve_all : Env → (ℤ → String) → Shop → List Call → World → World
serve_all env decimal shop [] w = w
serve_all env decimal shop (c ∷ cs) w = serve_all env decimal shop cs (serve env decimal shop c w)
