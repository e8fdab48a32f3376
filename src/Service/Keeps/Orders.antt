-- ===== src/Service/Keeps/Orders.antt =====
-- The payment service where it inserts transactions and takes them back.
use extend_regional_payment.Prelude.{String, arith, Option}
use extend_regional_payment.Prelude.Int.{ℤ}
use extend_regional_payment.Prelude.Table.{erase}
use extend_regional_payment.Model.{Transaction}
use extend_regional_payment.Store.Memory.{Store, create_transaction}
use extend_regional_payment.Adapter.Types.{PaymentInitRequest, AdapterError}
use extend_regional_payment.Adapter.Provider.{PaymentProvider}
use extend_regional_payment.Service.World.{World, Env}
use extend_regional_payment.Service.Handler.{Context}
use extend_regional_payment.Service.Payment.Item.{Shop}
use extend_regional_payment.Service.Payment.Create.{
  CreatePaymentIntentRequest, insert_row, ask_provider, submit, order_item, order_at_provider,
  create_payment_intent, create_pending_transaction, create_checkout_transaction, new_transaction,
}

-- A property that the insertion and the removal of a transaction keep, if Fresh holds of its id.
pub record OrderKeeper (P : Store → Type 0) (Fresh : String → Type 0) : Type 0 where
  pub create : (tx : Transaction) (s : Store) → Fresh tx.id → P s → P (create_transaction tx s).1
  pub remove : (id : String) (s : Store) → Fresh id → P s → P (erase id s)

module _ {P : Store → Type 0} {Fresh : String → Type 0} (orders : OrderKeeper P Fresh)
    (decimal : ℤ → String) (env : Env) (shop : Shop) where
  keep-insert_row :
      (tx : Transaction) (w : World) → Fresh tx.id → P w.store → P (insert_row tx w).1.store
  unfolding insert_row
  keep-insert_row tx w fresh h = grind (arith, orders.create tx w.store fresh h)

  keep-ask_provider :
      (tx : Transaction) (prov : PaymentProvider) (request : PaymentInitRequest)
      (invalid : Option AdapterError) (w : World)
      → Fresh tx.id
      → P w.store
      → P (ask_provider tx prov request invalid w).1.store
  unfolding ask_provider
  keep-ask_provider tx prov request invalid w fresh h =
      grind (arith, orders.remove tx.id w.store fresh h)

  keep-submit :
      (tx : Transaction) (prov : PaymentProvider) (description : String) (w : World)
      → Fresh tx.id
      → P w.store
      → P (submit env shop tx prov description w).1.store
  unfolding submit
  keep-submit tx prov description w fresh h =
      grind (arith, keep-insert_row tx w fresh h, keep-ask_provider)

  module _ (new : (w : World) → Fresh (shop.new_uuid w)) where
    keep-order_item :
        (req : CreatePaymentIntentRequest) (user_id provider_id : String) (prov : PaymentProvider)
        (w : World)
        → P w.store
        → P (order_item decimal env shop req user_id provider_id prov w).1.store
    unfolding order_item new_transaction
    keep-order_item req user_id provider_id prov w h = grind (arith, keep-submit, new)

    keep-order_at_provider :
        (req : CreatePaymentIntentRequest) (user_id : String) (w : World)
        → P w.store
        → P (order_at_provider decimal env shop req user_id w).1.store
    unfolding order_at_provider
    keep-order_at_provider req user_id w h = grind (arith, keep-order_item)

    pub keep-create_payment_intent :
        (ctx : Context) (req : CreatePaymentIntentRequest) (w : World)
        → P w.store
        → P (create_payment_intent decimal env shop ctx req w).1.store
    unfolding create_payment_intent
    keep-create_payment_intent ctx req w h = grind (arith, keep-order_at_provider)

    keep-create_pending_transaction :
        (req : CreatePaymentIntentRequest) (user_id : String) (w : World)
        → P w.store
        → P (create_pending_transaction decimal env shop user_id req w).1.store
    unfolding create_pending_transaction new_transaction
    keep-create_pending_transaction req user_id w h = grind (arith, keep-insert_row, new)

    pub keep-create_checkout_transaction :
        (ctx : Context) (req : CreatePaymentIntentRequest) (w : World)
        → P w.store
        → P (create_checkout_transaction decimal env shop ctx req w).1.store
    unfolding create_checkout_transaction
    keep-create_checkout_transaction ctx req w h = grind (arith, keep-create_pending_transaction)
