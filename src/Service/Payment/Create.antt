-- ===== src/Service/Payment/Create.antt =====
-- pkg/service/payment.go: CreatePaymentIntent and CreateCheckoutTransaction, which create the
-- pending transaction of an order.
pub mod Gate
pub mod Outcomes
pub mod Amount
pub mod Paid
use extend_regional_payment.Prelude.{String, ◌<>◌, ◌==◌, ◌+◌, Option, none, some}
use extend_regional_payment.Prelude.Int.{ℤ, pos, ltb_ℤ, leb_ℤ, ◌*ℤ◌, to_int64}
use extend_regional_payment.Prelude.Text.{trim_space}
use extend_regional_payment.Model.{Time, Status, Transaction}
use extend_regional_payment.Store.Types.{StoreError, Result, ok, err}
use extend_regional_payment.Store.Memory.{
  create_transaction, find_by_client_order_id, delete_transaction,
}
use extend_regional_payment.Store.Listing.{count_pending_by_user}
use extend_regional_payment.Adapter.Types.{
  AdapterError, Answer, answer, error, adapter_error_text, PaymentIntent, PaymentInitRequest,
}
use extend_regional_payment.Adapter.Effects.{create_intent}
use extend_regional_payment.Adapter.Provider.{PaymentProvider, get}
use extend_regional_payment.Service.World.{Env, on_store, read, call, now, add_days}
use extend_regional_payment.Service.Reply.{
  invalid_argument, resource_exhausted, internal, unavailable, TransactionStatus, map_status,
  TransactionResponse, tx_to_transaction_response,
}
use extend_regional_payment.Service.Handler.{
  Handler, Context, ◌>>=◌, ◌>>◌, done, reject, lift, refuse_if, require_user,
}
use extend_regional_payment.Service.Payment.{
  CreatePaymentIntentResponse, payment_response, init_request, known_provider, made,
}
use extend_regional_payment.Prelude.Found.{Found, found, failed}
use extend_regional_payment.Service.Payment.Item.{Shop, ItemDetails, lookup_item_details}

pub record CreatePaymentIntentRequest : Type 0 where
  pub item_id : String
  pub quantity : ℤ
  pub client_order_id : String
  pub provider_id : String
  pub region_code : String
  pub description : String

unfoldable pub tx_to_create_response : Transaction → CreatePaymentIntentResponse
tx_to_create_response tx = record {
  transaction_id = tx.id;
  payment_url = "";
  qr_code_data = "";
  expires_at = tx.expires_at;
  status = map_status tx.status;
}

-- `itemDetails.UnitPrice * int64(req.Quantity)`
unfoldable pub total_amount : ItemDetails → ℤ → ℤ
total_amount details quantity = to_int64 (details.unit_price *ℤ quantity)

-- The tests that both functions begin with.
check_purchase : CreatePaymentIntentRequest → Handler (Unit {0})
check_purchase req = do
  refuse_if (req.item_id == "") invalid_argument "item_id is required"
  refuse_if (ltb_ℤ req.quantity (pos 1)) invalid_argument "quantity must be >= 1"
  refuse_if (req.client_order_id == "") invalid_argument "client_order_id is required"

abbrev priced : Found ItemDetails → Handler ItemDetails
priced (found details) = done details
priced (failed e) = reject invalid_argument ("failed to get item price: " <> e)

-- The limit on pending transactions of one user. `decimal` is %d.
check_limit : (ℤ → String) → Env → String → Handler (Unit {0})
check_limit decimal env user_id = do
  count ← lift (read (count_pending_by_user env.cfg.ab_namespace user_id))
  refuse_if (leb_ℤ env.cfg.max_concurrent_intent_per_user (pos count)) resource_exhausted (
      "too many pending transactions (max "
      <> decimal env.cfg.max_concurrent_intent_per_user
      <> ")")

-- The transaction that is stored, with the provider's id and name, which the checkout leaves empty.
unfoldable pub new_transaction :
    Env
    → String
    → CreatePaymentIntentRequest
    → ItemDetails
    → (id provider_id display_name : String) → Time
    → Transaction
unfolding total_amount
new_transaction env user_id req details id provider_id display_name t = record {
  id = id;
  client_order_id = req.client_order_id;
  user_id = user_id;
  namespace = env.cfg.ab_namespace;
  provider_id = provider_id;
  provider_display_name = display_name;
  payment_url = "";
  item_name = details.name;
  item_id = req.item_id;
  quantity = req.quantity;
  region_code = details.region_code;
  amount = total_amount details req.quantity;
  currency_code = details.currency_code;
  provider_tx_id = "";
  provider_status = "";
  status = Status.pending;
  failure_reason = "";
  refund = none;
  retries = pos 0;
  created_at = t;
  expires_at = t + env.cfg.payment_expiry_default;
  updated_at = t;
  delete_at = add_days (t + env.cfg.payment_expiry_default) env.cfg.record_retention_days;
}

-- What CreateTransaction leads to: the order is new, or this transaction has it already.
pub data Created : Type 0 where
  fresh : Created
  existing : Transaction → Created

abbrev found_existing : Result Transaction → Handler Created
found_existing (ok tx) = done (existing tx)
found_existing (err _) = reject internal "failed to retrieve existing transaction"

created : String → Result (Unit {0}) → Handler Created
created order (ok _) = done fresh
created order (err StoreError.duplicate_client_order_id) = do
  tx ← lift (read (find_by_client_order_id order))
  found_existing tx
created order (err _) = reject internal "failed to create transaction"

unfoldable pub insert_row : Transaction → Handler Created
unfolding created
insert_row tx = do
  result ← lift (on_store (create_transaction tx))
  created tx.client_order_id result

-- The row is deleted, and the call fails.
abbrev withdrawn : {A : Type 0} → String → Handler A → Handler A
withdrawn id failure = do lift (on_store (delete_transaction id)); failure

intent_made : Transaction → Answer PaymentIntent → Handler CreatePaymentIntentResponse
intent_made tx (error e) =
    withdrawn tx.id (reject unavailable ("payment provider unavailable: " <> adapter_error_text e))
intent_made tx (answer intent) = done (payment_response tx intent TransactionStatus.pending)

unfoldable pub ask_provider :
    Transaction
    → PaymentProvider
    → PaymentInitRequest
    → Option AdapterError
    → Handler CreatePaymentIntentResponse
unfolding intent_made
ask_provider tx prov request (some e) =
    withdrawn tx.id (reject invalid_argument ("invalid provider request: " <> adapter_error_text e))
ask_provider tx prov request none = do
  intent ←
      lift (call (λ h. prov.create_payment_intent h request) (λ a. create_intent tx.id (made a)))
  intent_made tx intent

-- From the insertion of the row on.
unfoldable pub submit :
    Env → Shop → Transaction → PaymentProvider → String → Handler CreatePaymentIntentResponse
unfolding insert_row ask_provider
submit env shop tx prov description = do
  row ← insert_row tx
  let request = init_request env shop.return_url tx tx.provider_id description
  elim row [
    | existing tx' ↦ done (tx_to_create_response tx')
    | fresh ↦ ask_provider tx prov request (prov.validate_payment_init request)
  ]

-- From the lookup of the item on.
unfoldable pub order_item :
    (ℤ → String)
    → Env
    → Shop
    → CreatePaymentIntentRequest
    → (user_id provider_id : String) → PaymentProvider
    → Handler CreatePaymentIntentResponse
unfolding check_limit
order_item decimal env shop req user_id provider_id prov = do
  details ← (λ w. priced (lookup_item_details env shop req.item_id req.region_code w) w)
  check_limit decimal env user_id
  t ← lift (now env)
  id ← lift (λ w. (shop.new_uuid w, w))
  let tx = new_transaction env user_id req details id provider_id prov.info.display_name t
  submit env shop tx prov req.description

-- From the tests of the request on.
unfoldable pub order_at_provider :
    (ℤ → String)
    → Env
    → Shop
    → CreatePaymentIntentRequest
    → String
    → Handler CreatePaymentIntentResponse
unfolding check_purchase
order_at_provider decimal env shop req user_id = do
  check_purchase req
  refuse_if (trim_space req.provider_id == "") invalid_argument "provider_id is required"
  let provider_id = trim_space req.provider_id
  prov ← known_provider (get provider_id env.registry) provider_id
  order_item decimal env shop req user_id provider_id prov

unfoldable pub create_payment_intent :
    (ℤ → String)
    → Env
    → Shop
    → Context
    → CreatePaymentIntentRequest
    → Handler CreatePaymentIntentResponse
create_payment_intent decimal env shop ctx req = do
  user_id ← require_user env ctx
  order_at_provider decimal env shop req user_id

abbrev row_of : Transaction → Created → Transaction
row_of tx fresh = tx
row_of tx (existing tx') = tx'

unfoldable pub create_pending_transaction :
    (ℤ → String) → Env → Shop → String → CreatePaymentIntentRequest → Handler Transaction
unfolding check_purchase check_limit insert_row
create_pending_transaction decimal env shop user_id req = do
  check_purchase req
  details ← (λ w. priced (lookup_item_details env shop req.item_id req.region_code w) w)
  check_limit decimal env user_id
  t ← lift (now env)
  id ← lift (λ w. (shop.new_uuid w, w))
  let tx = new_transaction env user_id req details id "" "" t
  row ← insert_row tx
  done (row_of tx row)

unfoldable pub create_checkout_transaction :
    (ℤ → String) → Env → Shop → Context → CreatePaymentIntentRequest → Handler TransactionResponse
create_checkout_transaction decimal env shop ctx req = do
  user_id ← require_user env ctx
  tx ← create_pending_transaction decimal env shop user_id req
  done (tx_to_transaction_response tx)
