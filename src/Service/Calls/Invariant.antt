-- ===== src/Service/Calls/Invariant.antt =====
-- What every run of calls keeps.
use extend_regional_payment.Prelude.Int.{ℤ}
use extend_regional_payment.Service.Payment.Item.{Shop}
use extend_regional_payment.Service.Keeps.Orders.{
  OrderKeeper, keep-create_payment_intent, keep-create_checkout_transaction,
}
use extend_regional_payment.Prelude.{String, List, [], ◌∷◌}
use extend_regional_payment.Store.Memory.{Store}
use extend_regional_payment.Store.Invariant.{IsWellFormed}
use extend_regional_payment.Service.Keeps.Formed.{
  IsWellFormed-keeper, IsWellFormed-reset_keeper, IsWellFormed-order_keeper,
}
use extend_regional_payment.Service.World.{World, Env}
use extend_regional_payment.Service.Keeps.{Keeper, ResetKeeper}
use extend_regional_payment.Service.Keeps.Webhooks.{keep-handle_webhook}
use extend_regional_payment.Service.Keeps.Jobs.{
  keep-run_stuck_fulfillment_recovery, keep-run_lost_webhook_recovery,
}
use extend_regional_payment.Service.Keeps.Requests.{
  keep-cancel_payment_for_existing_transaction,
  keep-cancel_selected_provider_for_existing_transaction, keep-get_transaction_detail, keep-refund,
  keep-admin_sync_transaction, keep-admin_sync_transactions, keep-sync_my_transaction,
  keep-sync_my_transactions, keep-cancel_my_transaction,
}
use extend_regional_payment.Service.Keeps.Payments.{
  keep-create_payment_for_existing_transaction, keep-get_transaction,
  keep-get_transaction_by_client_order,
}
use extend_regional_payment.Service.Calls.{
  Call, new_intent, new_checkout, webhook, stuck_job, lost_webhook_job, detail, admin_sync,
  admin_refund, admin_sync_page, my_sync, my_sync_page, my_cancel, pay, look_up, look_up_order,
  checkout_cancel, checkout_cancel_provider, serve, serve_all,
}

module _ {P : Store → Type 0} {Fresh : String → Type 0} (keep : Keeper P) (again : ResetKeeper P)
    (orders : OrderKeeper P Fresh) (env : Env) (decimal : ℤ → String) (shop : Shop)
    (new : (w : World) → Fresh (shop.new_uuid w)) where
  pub keep-serve : (c : Call) (w : World) → P w.store → P (serve env decimal shop c w).store
  unfolding serve
  keep-serve (new_intent ctx req) w h =
      keep-create_payment_intent orders decimal env shop new ctx req w h
  keep-serve (new_checkout ctx req) w h =
      keep-create_checkout_transaction orders decimal env shop new ctx req w h
  keep-serve (webhook req) w h = keep-handle_webhook keep env again req w h
  keep-serve stuck_job w h = keep-run_stuck_fulfillment_recovery keep env w h
  keep-serve lost_webhook_job w h = keep-run_lost_webhook_recovery keep env w h
  keep-serve (detail req) w h = keep-get_transaction_detail keep env req w h
  keep-serve (admin_sync req) w h = keep-admin_sync_transaction keep env again req w h
  keep-serve (admin_refund req) w h = keep-refund keep env req w h
  keep-serve (admin_sync_page req) w h = keep-admin_sync_transactions keep env again req w h
  keep-serve (my_sync ctx req) w h = keep-sync_my_transaction keep env again ctx req w h
  keep-serve (my_sync_page ctx req) w h = keep-sync_my_transactions keep env again ctx req w h
  keep-serve (my_cancel ctx req) w h = keep-cancel_my_transaction keep env again ctx req w h
  keep-serve (pay return_url ctx id provider_id description) w h =
      keep-create_payment_for_existing_transaction keep env return_url ctx id provider_id
        description w h
  keep-serve (look_up id) w h = keep-get_transaction keep env id w h
  keep-serve (look_up_order order) w h = keep-get_transaction_by_client_order keep env order w h
  keep-serve (checkout_cancel ctx id reason) w h =
      keep-cancel_payment_for_existing_transaction keep env ctx id reason w h
  keep-serve (checkout_cancel_provider ctx id reason) w h =
      keep-cancel_selected_provider_for_existing_transaction keep env ctx id reason w h

  pub keep-serve_all :
      (cs : List Call) (w : World) → P w.store → P (serve_all env decimal shop cs w).store
  unfolding serve_all
  keep-serve_all [] w h = h
  keep-serve_all (c ∷ cs) w h = keep-serve_all cs (serve env decimal shop c w) (keep-serve c w h)

-- After any run of webhooks, jobs and requests of players and administrators, those that create a
-- transaction or take it back included, whatever the providers and AGS answer, a store that was well
-- formed is well formed: one entry for a key, each transaction under its own id, and no two with the
-- same client order id.
pub serve_all-IsWellFormed :
    (env : Env) (decimal : ℤ → String) (shop : Shop) (cs : List Call) (w : World)
    → IsWellFormed w.store
    → IsWellFormed (serve_all env decimal shop cs w).store
serve_all-IsWellFormed env decimal shop =
    keep-serve_all IsWellFormed-keeper IsWellFormed-reset_keeper IsWellFormed-order_keeper env
      decimal shop (λ w. tt)
