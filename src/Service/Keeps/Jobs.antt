-- ===== src/Service/Keeps/Jobs.antt =====
-- The scheduler's jobs, and the reconciliation with a provider.
use extend_regional_payment.Prelude.{Option, none, some, List, [], ◌∷◌, arith}
use extend_regional_payment.Model.{Transaction}
use extend_regional_payment.Store.Memory.{Store}
use extend_regional_payment.Adapter.Types.{
  Answer, answer, error, PaymentStatus, ProviderPaymentStatus, ProviderSyncResult,
}
use extend_regional_payment.Service.World.{World, Env, M}
use extend_regional_payment.Service.Scheduler.{
  for_each, recover_fulfilling, recover_polled, recover_pending, expire_pending,
  run_stuck_fulfillment_recovery, run_lost_webhook_recovery,
}
use extend_regional_payment.Service.Sync.{
  SyncTransactionResult, sync_provider_paid, sync_provider_failed, sync_provider_refund,
  sync_answer, sync_transaction,
}
use extend_regional_payment.Service.Keeps.{
  Keeper, ResetKeeper, keep-claim_external_refunding, keep-claim_fulfilling, keep-commit_fulfilled,
  keep-mark_failed, keep-mark_canceled, keep-mark_expired, keep-increment_retries,
  keep-update_provider_tx_id,
}
use extend_regional_payment.Service.Keeps.Webhooks.{keep-reverse_ags_refund}

module _ {P : Store → Type 0} (keep : Keeper P) (env : Env) where
  pub keep-recover_fulfilling :
      (tx : Transaction) (w : World) → P w.store → P (recover_fulfilling env tx w).1.store
  unfolding recover_fulfilling
  keep-recover_fulfilling tx w h =
      grind (arith, keep-commit_fulfilled keep, keep-mark_failed keep, keep-increment_retries keep)

  keep-recover_polled :
      (tx : Transaction) (ps : ProviderPaymentStatus) (status : PaymentStatus) (w : World)
      → P w.store
      → P (recover_polled env tx ps status w).1.store
  unfolding recover_polled
  keep-recover_polled tx ps PaymentStatus.success w h =
      grind (arith, keep-claim_fulfilling keep, keep-commit_fulfilled keep)
  keep-recover_polled tx ps PaymentStatus.failed w h = grind (arith, keep-mark_failed keep)
  keep-recover_polled tx ps PaymentStatus.canceled w h = grind (arith, keep-mark_canceled keep)
  keep-recover_polled tx ps PaymentStatus.expired w h = grind (arith, keep-mark_expired keep)
  keep-recover_polled tx ps _ w h = h

  pub keep-recover_pending :
      (tx : Transaction) (w : World) → P w.store → P (recover_pending env tx w).1.store
  unfolding recover_pending
  keep-recover_pending tx w h = grind (arith, keep-recover_polled)

  pub keep-expire_pending :
      (tx : Transaction) (w : World) → P w.store → P (expire_pending env tx w).1.store
  unfolding expire_pending
  keep-expire_pending tx w h =
      grind (arith, keep-recover_pending, keep-mark_canceled keep, keep-mark_expired keep)

  keep-for_each :
      (run : Transaction → M (Unit {0}))
      → ((tx : Transaction) (w : World) → P w.store → P (run tx w).1.store)
      → (txns : List Transaction) (w : World) → P w.store
      → P (for_each run txns w).1.store
  unfolding for_each
  keep-for_each run one [] w h = h
  keep-for_each run one (tx ∷ txs) w h = keep-for_each run one txs (run tx w).1 (one tx w h)

  pub keep-run_stuck_fulfillment_recovery :
      (w : World) → P w.store → P (run_stuck_fulfillment_recovery env w).1.store
  unfolding run_stuck_fulfillment_recovery
  keep-run_stuck_fulfillment_recovery w h =
      keep-for_each (recover_fulfilling env) keep-recover_fulfilling _ w h

  pub keep-run_lost_webhook_recovery :
      (w : World) → P w.store → P (run_lost_webhook_recovery env w).1.store
  unfolding run_lost_webhook_recovery
  keep-run_lost_webhook_recovery w h =
      keep-for_each (recover_pending env) keep-recover_pending _ _
        (keep-for_each (expire_pending env) keep-expire_pending _ w h)

  module _ (again : ResetKeeper P) where
    keep-sync_provider_paid :
        (tx : Transaction) (r : SyncTransactionResult) (w : World)
        → P w.store
        → P (sync_provider_paid env tx r w).1.store
    unfolding sync_provider_paid
    keep-sync_provider_paid tx r w h =
        grind (arith, keep-claim_fulfilling keep, keep-commit_fulfilled keep, again.reset)

    keep-sync_provider_failed :
        (tx : Transaction) (r : SyncTransactionResult) (w : World)
        → P w.store
        → P (sync_provider_failed env tx r w).1.store
    unfolding sync_provider_failed
    keep-sync_provider_failed tx r w h = grind (arith, keep-mark_failed keep)

    keep-sync_provider_refund :
        (tx : Transaction) (r : SyncTransactionResult) (w : World)
        → P w.store
        → P (sync_provider_refund env tx r w).1.store
    unfolding sync_provider_refund
    keep-sync_provider_refund tx r w h =
        grind (arith, keep-claim_external_refunding keep, keep-reverse_ags_refund keep)

    keep-sync_answer :
        (tx : Transaction) (a : Answer (Option ProviderSyncResult)) (w : World)
        → P w.store
        → P (sync_answer env tx a w).1.store
    unfolding sync_answer
    keep-sync_answer tx (error e) w h = h
    keep-sync_answer tx (answer none) w h = h
    keep-sync_answer tx (answer (some r)) w h = grind (
      arith,
      keep-update_provider_tx_id keep,
      keep-sync_provider_paid,
      keep-sync_provider_failed,
      keep-sync_provider_refund,
    )

    pub keep-sync_transaction :
        (tx : Transaction) (w : World) → P w.store → P (sync_transaction env tx w).1.store
    unfolding sync_transaction
    keep-sync_transaction tx w h = grind (arith, keep-sync_answer)
