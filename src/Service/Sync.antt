-- ===== src/Service/Sync.antt =====
-- pkg/service/sync_reconciler.go: transactionReconciler, which brings a transaction in line with
-- what its provider reports. The functions return the SyncTransactionResult that the code fills in.
pub mod Paid
use extend_regional_payment.Prelude.{String, ◌<>◌, ◌==◌, Bool, false, not, ◌||◌}
use extend_regional_payment.Prelude.{Option, none, some, if◌then◌else◌}
use extend_regional_payment.Prelude.Int.{ℤ, pos}
use extend_regional_payment.Model.{
  Status, RefundStatus, Refund, Transaction, same_status, same_refund_status, refund_text,
}
use extend_regional_payment.Store.Types.{StoreError, Result, ok, err, error_text}
use extend_regional_payment.Store.Memory.{
  atomic_claim_fulfilling, reset_to_pending, commit_fulfilled, mark_failed,
  atomic_claim_external_refunding, update_provider_transaction_id,
}
use extend_regional_payment.Adapter.Types.{
  Answer, answer, error, adapter_error_text, SyncPaymentStatus, SyncRefundStatus,
  ProviderSyncResult, sync_payment_text, sync_refund_text,
}
use extend_regional_payment.Adapter.Effects.{fulfill_item, sync_status}
use extend_regional_payment.Adapter.Provider.{PaymentProvider, get}
use extend_regional_payment.Service.World.{
  Env, FulfillmentReverser, ItemFulfiller, M, pure, ◌>>=◌, ◌>>◌, on_store, call, now, add_days,
  succeeded,
}
use extend_regional_payment.Service.Reply.{Reply, reply, fail}
use extend_regional_payment.Service.Refund.{reverse_ags_refund}

-- The syncOutcome constants of admin.go.
pub data Outcome : Type 0 where
  fulfilled failed refunded partial_refund_unchanged unchanged unsupported sync_failed : Outcome

pub record SyncTransactionResult : Type 0 where
  pub transaction_id : String
  pub provider_id : String
  pub outcome : Outcome
  pub message : String
  pub provider_tx_id : String
  pub payment_status : String
  pub refund_status : String
  pub raw_payment_status : String
  pub raw_refund_status : String
  pub refund_amount : ℤ
  pub refund_currency_code : String

abbrev pub Sync : Type 0
Sync = M SyncTransactionResult

-- `result.Outcome = o; result.Message = m; return result`
abbrev ends : SyncTransactionResult → Outcome → String → Sync
ends result o m = pure (record result { outcome = o; message = m })

-- The message, or a default for the empty one.
abbrev ends_or : SyncTransactionResult → Outcome → String → Sync
ends_or result o default = ends result o (if result.message == "" then default else result.message)

abbrev pub initial_result : Transaction → SyncTransactionResult
initial_result tx = record {
  transaction_id = tx.id;
  provider_id = tx.provider_id;
  outcome = Outcome.unchanged;
  message = "provider state did not require local changes";
  provider_tx_id = "";
  payment_status = "";
  refund_status = "";
  raw_payment_status = "";
  raw_refund_status = "";
  refund_amount = pos 0;
  refund_currency_code = "";
}

-- providerTxIDForClaim of scheduler.go
abbrev pub provider_tx_id_for_claim : String → String → String
provider_tx_id_for_claim stored polled = if not (polled == "") then polled else stored

fulfill_result : Env → SyncTransactionResult → Transaction → Option String → Sync
fulfill_result env result claimed (some e) = do
  t ← now env
  on_store (reset_to_pending claimed.id t)
  ends result Outcome.sync_failed ("AGS fulfillment failed: " <> e)
fulfill_result env result claimed none = do
  t ← now env
  let delete_at = add_days t env.cfg.record_retention_days
  committed ← on_store (commit_fulfilled claimed.id result.raw_payment_status delete_at t)
  elim committed [
    | ok _ ↦ ends result Outcome.fulfilled "provider payment synced and AGS fulfillment completed"
    | err e ↦
        ends result Outcome.sync_failed ("failed to commit fulfilled status: " <> error_text e)
  ]

-- The type assertion `r.reverser.(ItemFulfiller)`.
abbrev pub as_fulfiller : Option FulfillmentReverser → Option ItemFulfiller
as_fulfiller none = none
as_fulfiller (some r) = r.item_fulfiller

fulfill_claimed : Env → SyncTransactionResult → Transaction → Option ItemFulfiller → Sync
unfolding fulfill_result
fulfill_claimed env result claimed none = do
  t ← now env
  on_store (reset_to_pending claimed.id t)
  ends result Outcome.sync_failed "fulfiller is not configured"
fulfill_claimed env result claimed (some fulfill) = do
  e ←
      call (λ h. fulfill h claimed.user_id claimed.item_id claimed.id claimed.quantity)
        (λ e.
          fulfill_item claimed.user_id claimed.item_id claimed.id claimed.quantity (succeeded e))
  fulfill_result env result claimed e

claim_result : Env → SyncTransactionResult → Result Transaction → Sync
unfolding fulfill_claimed
claim_result env result (err StoreError.no_documents) =
    ends result Outcome.unchanged "transaction already handled concurrently"
claim_result env result (err e) =
    ends result Outcome.sync_failed ("failed to claim fulfillment sync: " <> error_text e)
claim_result env result (ok claimed) =
    fulfill_claimed env result claimed (as_fulfiller env.reverser)

unfoldable pub sync_provider_paid : Env → Transaction → SyncTransactionResult → Sync
unfolding claim_result
sync_provider_paid env tx result =
    let claim : Sync = do
      t ← now env
      let claim_tx_id = provider_tx_id_for_claim tx.provider_tx_id result.provider_tx_id
      claimed ← on_store (atomic_claim_fulfilling tx.id claim_tx_id t)
      claim_result env result claimed
    in if same_status tx.status Status.fulfilled
      then ends result Outcome.unchanged "transaction already fulfilled"
      else if not (same_status tx.status Status.pending)
      then ends result Outcome.unchanged "provider is paid but local transaction is not pending"
      else claim

failed_result : SyncTransactionResult → Result (Unit {0}) → Sync
failed_result result (ok _) = ends result Outcome.failed "provider failure synced"
failed_result result (err e) =
    ends result Outcome.sync_failed ("failed to mark transaction failed: " <> error_text e)

unfoldable pub sync_provider_failed : Env → Transaction → SyncTransactionResult → Sync
unfolding failed_result
sync_provider_failed env tx result =
    let reason =
      if result.raw_payment_status == ""
      then "provider: payment expired or rejected"
      else result.raw_payment_status in
    let mark : Sync = do
      t ← now env
      marked ← on_store (mark_failed tx.id reason (add_days t (pos 7)) t)
      failed_result result marked
    in if same_status tx.status Status.failed
      then ends result Outcome.unchanged "transaction already failed"
      else if not (same_status tx.status Status.pending)
      then ends result Outcome.unchanged "provider is failed but local transaction is not pending"
      else mark

abbrev pub is_refunded : Option Refund → Bool
is_refunded none = false
is_refunded (some r) = same_refund_status r.status RefundStatus.refunded

reverse_result : Env → SyncTransactionResult → Reply (Unit {0}) → Sync
reverse_result env result (reply _) =
    ends (record result { refund_status = refund_text RefundStatus.refunded }) Outcome.refunded
      "provider refund synced and AGS fulfillment reversed"
reverse_result env result (fail c m) =
    ends (record result { refund_status = refund_text RefundStatus.refund_failed })
      Outcome.sync_failed (env.status_text c m)

refund_claim_result : Env → SyncTransactionResult → Result Transaction → Sync
unfolding reverse_result
refund_claim_result env result (err StoreError.no_documents) =
    ends result Outcome.unchanged "transaction is not eligible for refund sync"
refund_claim_result env result (err e) =
    ends result Outcome.sync_failed ("failed to claim refund sync: " <> error_text e)
refund_claim_result env result (ok claimed) = do
  reversed ← reverse_ags_refund env env.reverser claimed
  reverse_result env result reversed

unfoldable pub sync_provider_refund : Env → Transaction → SyncTransactionResult → Sync
unfolding refund_claim_result
sync_provider_refund env tx result =
    let claim : Sync = do
      t ← now env
      claimed ← on_store (atomic_claim_external_refunding tx.id "provider refund sync" t)
      refund_claim_result env result claimed
    in if is_refunded tx.refund
      then ends (record result { refund_status = refund_text RefundStatus.refunded })
          Outcome.unchanged "transaction already marked refunded"
      else if not (same_status tx.status Status.fulfilled)
      then ends result Outcome.unchanged
          "provider reports refund but local transaction is not fulfilled"
      else claim

maybe_update_provider_tx_id : Env → Transaction → String → M (Unit {0})
maybe_update_provider_tx_id env tx provider_tx_id =
    let write : M (Unit {0}) = do
      t ← now env
      on_store (update_provider_transaction_id tx.id provider_tx_id t)
      pure tt
    in if provider_tx_id == "" || provider_tx_id == tx.provider_tx_id then pure tt else write

-- The switch on the payment status.
sync_payment : Env → Transaction → SyncTransactionResult → SyncPaymentStatus → Sync
sync_payment env tx result SyncPaymentStatus.paid = sync_provider_paid env tx result
sync_payment env tx result SyncPaymentStatus.failed = sync_provider_failed env tx result
sync_payment env tx result SyncPaymentStatus.unsupported =
    ends_or result Outcome.unsupported "provider cannot prove transaction state"
sync_payment env tx result SyncPaymentStatus.unknown =
    ends_or result Outcome.unsupported "provider transaction state is unknown"
sync_payment env tx result _ =
    ends_or result Outcome.unchanged "provider state did not require local changes"

-- The two tests of the refund status before it.
sync_refund :
    Env → Transaction → SyncTransactionResult → SyncPaymentStatus → SyncRefundStatus → Sync
unfolding sync_payment
sync_refund env tx result payment SyncRefundStatus.refunded = sync_provider_refund env tx result
sync_refund env tx result payment SyncRefundStatus.partial_refunded =
    ends_or result Outcome.partial_refund_unchanged
      "provider reports partial refund; AGS reversal is not automatic"
sync_refund env tx result payment _ = sync_payment env tx result payment

abbrev pub reported : Transaction → ProviderSyncResult → SyncTransactionResult
reported tx r = record (initial_result tx) {
  provider_tx_id = if r.provider_tx_id == "" then tx.provider_tx_id else r.provider_tx_id;
  payment_status = sync_payment_text r.payment_status;
  refund_status = sync_refund_text r.refund_status;
  raw_payment_status = r.raw_payment_status;
  raw_refund_status = r.raw_refund_status;
  refund_amount = r.refund_amount;
  refund_currency_code = r.refund_currency_code;
  message = r.message;
}

unfoldable pub sync_answer : Env → Transaction → Answer (Option ProviderSyncResult) → Sync
unfolding maybe_update_provider_tx_id sync_refund
sync_answer env tx (error e) =
    ends (initial_result tx) Outcome.sync_failed ("provider sync failed: " <> adapter_error_text e)
sync_answer env tx (answer none) =
    ends (initial_result tx) Outcome.sync_failed "provider sync returned empty result"
sync_answer env tx (answer (some r)) = do
  maybe_update_provider_tx_id env tx (reported tx r).provider_tx_id
  sync_refund env tx (reported tx r) r.payment_status r.refund_status

sync_with : Env → Transaction → Option PaymentProvider → Sync
unfolding sync_answer
sync_with env tx none =
    ends (initial_result tx) Outcome.sync_failed ("unknown provider: " <> tx.provider_id)
sync_with env tx (some prov) = do
  r ← call (λ h. prov.sync_transaction_status h tx) (λ _. sync_status tx.id)
  sync_answer env tx r

unfoldable pub sync_transaction : Env → Transaction → Sync
unfolding sync_with
sync_transaction env tx =
    if tx.provider_tx_id == ""
    then ends (initial_result tx) Outcome.unsupported "missing provider transaction id"
    else sync_with env tx (get tx.provider_id env.registry)
