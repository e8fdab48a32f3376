-- ===== src/Service/Keeps/Requests.antt =====
-- The handlers of players and administrators.
use extend_regional_payment.Prelude.{String, List, [], ◌∷◌, ◌≡◌, arith}
use extend_regional_payment.Model.{Transaction}
use extend_regional_payment.Store.Memory.{Store}
use extend_regional_payment.Adapter.Provider.{PaymentProvider}
use extend_regional_payment.Service.World.{World, Env}
use extend_regional_payment.Service.Handler.{Context}
use extend_regional_payment.Service.Cancel.{
  mark_canceled_transaction, mark_expired_transaction, cancel_at_provider,
  cancel_payment_for_existing_transaction, cancel_selected_provider_for_existing_transaction,
}
use extend_regional_payment.Service.Admin.{
  TransactionRequest, get_transaction_detail, RefundRequest, refund_at_provider, refund,
  admin_sync_transaction, sync_all, SyncTransactionsRequest, admin_sync_transactions,
}
use extend_regional_payment.Service.Public.{
  claim_cooldown, PublicTransactionRequest, sync_my_transaction, PublicSyncTransactionsRequest,
  sync_my_transactions, CancelTransactionRequest, cancel_my_transaction,
}
use extend_regional_payment.Service.Keeps.{
  Keeper, ResetKeeper, keep-mark_canceled, keep-mark_expired, keep-clear_provider,
  keep-claim_refunding, keep-mark_refund_failed, keep-mark_refund_provider_succeeded,
}
use extend_regional_payment.Service.Keeps.Webhooks.{keep-reverse_ags_refund}
use extend_regional_payment.Service.Keeps.Jobs.{keep-sync_transaction}
use extend_regional_payment.Service.Sync.{sync_transaction}

module _ {P : Store → Type 0} (keep : Keeper P) (env : Env) where
  keep-mark_canceled_transaction :
      (id reason status : String) (w : World)
      → P w.store
      → P (mark_canceled_transaction env id reason status w).1.store
  unfolding mark_canceled_transaction
  keep-mark_canceled_transaction id reason status w h = grind (arith, keep-mark_canceled keep)

  keep-mark_expired_transaction :
      (id reason status : String) (w : World)
      → P w.store
      → P (mark_expired_transaction env id reason status w).1.store
  unfolding mark_expired_transaction
  keep-mark_expired_transaction id reason status w h = grind (arith, keep-mark_expired keep)

  store-cancel_at_provider :
      (tx : Transaction) (reason : String) (w : World)
      → (cancel_at_provider env tx reason w).1.store ≡ w.store
  unfolding cancel_at_provider
  store-cancel_at_provider tx reason w = ground arith

  pub keep-cancel_payment_for_existing_transaction :
      (ctx : Context) (id reason : String) (w : World)
      → P w.store
      → P (cancel_payment_for_existing_transaction env ctx id reason w).1.store
  unfolding cancel_payment_for_existing_transaction
  keep-cancel_payment_for_existing_transaction ctx id reason w h =
      grind (arith, keep-mark_canceled keep, keep-mark_expired keep)

  pub keep-cancel_selected_provider_for_existing_transaction :
      (ctx : Context) (id reason : String) (w : World)
      → P w.store
      → P (cancel_selected_provider_for_existing_transaction env ctx id reason w).1.store
  unfolding cancel_selected_provider_for_existing_transaction
  keep-cancel_selected_provider_for_existing_transaction ctx id reason w h =
      grind (arith, keep-clear_provider keep)

  pub keep-get_transaction_detail :
      (req : TransactionRequest) (w : World)
      → P w.store
      → P (get_transaction_detail env req w).1.store
  unfolding get_transaction_detail
  keep-get_transaction_detail req w h = grind arith

  keep-refund_at_provider :
      (tx : Transaction) (prov : PaymentProvider) (w : World)
      → P w.store
      → P (refund_at_provider env tx prov w).1.store
  unfolding refund_at_provider
  keep-refund_at_provider tx prov w h =
      grind (arith, keep-mark_refund_failed keep, keep-mark_refund_provider_succeeded keep)

  pub keep-refund : (req : RefundRequest) (w : World) → P w.store → P (refund env req w).1.store
  unfolding refund
  keep-refund req w h = grind (
    arith,
    keep-claim_refunding keep,
    keep-mark_refund_failed keep,
    keep-refund_at_provider,
    keep-reverse_ags_refund keep,
  )

  module _ (again : ResetKeeper P) where
    pub keep-admin_sync_transaction :
        (req : TransactionRequest) (w : World)
        → P w.store
        → P (admin_sync_transaction env req w).1.store
    unfolding admin_sync_transaction
    keep-admin_sync_transaction req w h = grind (arith, keep-sync_transaction keep env again)

    keep-sync_all :
        (txns : List Transaction) (w : World) → P w.store → P (sync_all env txns w).1.store
    unfolding sync_all
    keep-sync_all [] w h = h
    keep-sync_all (tx ∷ txs) w h =
        let first = keep-sync_transaction keep env again tx w h in
        ground (arith, keep-sync_all txs (sync_transaction env tx w).1 first)

    pub keep-admin_sync_transactions :
        (req : SyncTransactionsRequest) (w : World)
        → P w.store
        → P (admin_sync_transactions env req w).1.store
    unfolding admin_sync_transactions
    keep-admin_sync_transactions req w h = grind (arith, keep-sync_all)

    store-claim_cooldown :
        (namespace user_id provider : String) (w : World)
        → (claim_cooldown env namespace user_id provider w).1.store ≡ w.store
    unfolding claim_cooldown
    store-claim_cooldown namespace user_id provider w = ground arith

    pub keep-sync_my_transaction :
        (ctx : Context) (req : PublicTransactionRequest) (w : World)
        → P w.store
        → P (sync_my_transaction env ctx req w).1.store
    unfolding sync_my_transaction
    keep-sync_my_transaction ctx req w h =
        grind (arith, keep-sync_transaction keep env again, store-claim_cooldown)

    pub keep-sync_my_transactions :
        (ctx : Context) (req : PublicSyncTransactionsRequest) (w : World)
        → P w.store
        → P (sync_my_transactions env ctx req w).1.store
    unfolding sync_my_transactions
    keep-sync_my_transactions ctx req w h = grind (arith, keep-sync_all, store-claim_cooldown)

    pub keep-cancel_my_transaction :
        (ctx : Context) (req : CancelTransactionRequest) (w : World)
        → P w.store
        → P (cancel_my_transaction env ctx req w).1.store
    unfolding cancel_my_transaction
    keep-cancel_my_transaction ctx req w h = grind (
      arith,
      keep-mark_canceled_transaction,
      keep-mark_expired_transaction,
      store-cancel_at_provider,
      keep-sync_transaction keep env again,
    )
