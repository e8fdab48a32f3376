-- ===== src/Service/Keeps/Payments.antt =====
-- The payment service.
use extend_regional_payment.Prelude.{String, arith}
use extend_regional_payment.Model.{Transaction}
use extend_regional_payment.Store.Memory.{Store}
use extend_regional_payment.Service.World.{World, Env}
use extend_regional_payment.Service.Handler.{Context}
use extend_regional_payment.Service.Keeps.{Keeper, keep-attach_provider, keep-mark_failed}
use extend_regional_payment.Service.Payment.{
  ReturnUrl, pay_at_provider, create_payment_for_existing_transaction, get_transaction,
  get_transaction_by_client_order,
}
use extend_regional_payment.Service.Admin.{poll_provider}

module _ {P : Store → Type 0} (keep : Keeper P) (env : Env) where
  pub keep-pay_at_provider :
      (return_url : ReturnUrl) (tx : Transaction) (provider_id description : String) (w : World)
      → P w.store
      → P (pay_at_provider env return_url tx provider_id description w).1.store
  unfolding pay_at_provider
  keep-pay_at_provider return_url tx provider_id description w h =
      grind (arith, keep-attach_provider keep, keep-mark_failed keep)

  pub keep-create_payment_for_existing_transaction :
      (return_url : ReturnUrl) (ctx : Context) (id provider_id description : String) (w : World)
      → P w.store
      → P
          (create_payment_for_existing_transaction env return_url ctx id provider_id description
            w).1.store
  unfolding create_payment_for_existing_transaction
  keep-create_payment_for_existing_transaction return_url ctx id provider_id description w h =
      grind (arith, keep-pay_at_provider)

  pub keep-get_transaction :
      (id : String) (w : World) → P w.store → P (get_transaction env id w).1.store
  unfolding get_transaction poll_provider
  keep-get_transaction id w h = grind arith

  pub keep-get_transaction_by_client_order :
      (order : String) (w : World)
      → P w.store
      → P (get_transaction_by_client_order env order w).1.store
  unfolding get_transaction_by_client_order poll_provider
  keep-get_transaction_by_client_order order w h = grind arith
