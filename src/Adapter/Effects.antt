-- ===== src/Adapter/Effects.antt =====
-- The calls that the services make to the outside, in the order in which they make them: to AGS
-- (FulfillUserItem, ReverseFulfillment), to a provider, and the notifications. `Bool` is whether
-- the call succeeded.
use extend_regional_payment.Prelude.{String, Bool, List}
use extend_regional_payment.Prelude.Int.{ℤ}

pub data Effect : Type 0 where
  fulfill_item : (user_id item_id order_no : String) → ℤ → Bool → Effect
  reverse_fulfillment : (txn_id : String) → Bool → Effect
  create_intent : (order_no : String) → Bool → Effect
  refund_payment : (order_no provider_tx_id : String) → ℤ → (currency_code : String) → Bool → Effect
  cancel_payment : (order_no reason : String) → Effect
  poll_payment : (provider_tx_id : String) → Effect
  sync_status : (order_no : String) → Effect
  notify : (user_id txn_id status item_id : String) → Effect

abbrev pub History : Type 0
History = List Effect
