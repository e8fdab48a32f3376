-- ===== src/Service/Payment.antt =====
-- pkg/service/payment.go: a payment at a provider for a transaction that the checkout has created,
-- and the lookup of transactions. `return_url` is returnURLWithTransactionID, which builds on the
-- URL parser; the time of a reply is not formatted.
pub mod Attach
pub mod Item
pub mod Create
use extend_regional_payment.Prelude.{
  String, ◌<>◌, ◌==◌, not, ◌&&◌, Bool, true, false, Option, none, some, if◌then◌else◌,
}
use extend_regional_payment.Prelude.Int.{pos}
use extend_regional_payment.Prelude.Text.{trim_space}
use extend_regional_payment.Model.{Time, Status, Transaction, same_status}
use extend_regional_payment.Store.Types.{StoreError, Result, ok, err}
use extend_regional_payment.Store.Memory.{
  find_by_id, find_by_client_order_id, mark_failed, attach_provider_transaction,
}
use extend_regional_payment.Adapter.Types.{
  AdapterError, Answer, answer, error, adapter_error_text, PaymentInitRequest, PaymentIntent,
}
use extend_regional_payment.Adapter.Effects.{create_intent}
use extend_regional_payment.Adapter.Provider.{PaymentProvider, get}
use extend_regional_payment.Service.World.{Config, Env, on_store, read, call, now, add_days}
use extend_regional_payment.Service.Reply.{
  Code, invalid_argument, permission_denied, failed_precondition, internal, unavailable,
  TransactionStatus, map_status, TransactionResponse, tx_to_transaction_response,
}
use extend_regional_payment.Service.Handler.{
  Handler, Context, ◌>>=◌, ◌>>◌, done, reject, lift, refuse_if, require_user, load, loaded,
}
use extend_regional_payment.Service.Admin.{poll_provider}

pub record CreatePaymentIntentResponse : Type 0 where
  pub transaction_id : String
  pub payment_url : String
  pub qr_code_data : String
  pub expires_at : Time
  pub status : TransactionStatus

abbrev pub ReturnUrl : Type 0
ReturnUrl = String → String → String

unfoldable pub init_request : Env → ReturnUrl → Transaction → String → String → PaymentInitRequest
init_request env return_url tx provider_id description = record {
  internal_order_id = tx.id;
  user_id = tx.user_id;
  region_code = tx.region_code;
  amount = tx.amount;
  currency_code = tx.currency_code;
  description = description;
  callback_url = env.cfg.public_base_url <> env.cfg.base_path <> "/v1/webhook/" <> provider_id;
  return_url = return_url (env.cfg.public_base_url <> env.cfg.base_path <> "/payment-result") tx.id;
  expiry_duration = env.cfg.payment_expiry_default;
}

abbrev pub payment_response :
    Transaction → PaymentIntent → TransactionStatus → CreatePaymentIntentResponse
payment_response tx intent status = record {
  transaction_id = tx.id;
  payment_url = intent.payment_url;
  qr_code_data = intent.qr_code_data;
  expires_at = tx.expires_at;
  status = status;
}

abbrev pub known_provider : Option PaymentProvider → String → Handler PaymentProvider
known_provider none provider_id = reject invalid_argument ("unknown provider: " <> provider_id)
known_provider (some prov) provider_id = done prov

abbrev valid_request : Option AdapterError → Handler (Unit {0})
valid_request none = done tt
valid_request (some e) =
    reject invalid_argument ("invalid provider request: " <> adapter_error_text e)

-- After a refused attachment: the same payment may have been attached by another call.
attached_already :
    Transaction → PaymentIntent → Result Transaction → Handler CreatePaymentIntentResponse
attached_already tx intent (err _) = reject failed_precondition "payment provider already selected"
attached_already tx intent (ok current) =
    if current.provider_tx_id == intent.provider_transaction_id
    then done (payment_response tx intent (map_status current.status))
    else reject failed_precondition "payment provider already selected"

attached : Transaction → PaymentIntent → Result (Unit {0}) → Handler CreatePaymentIntentResponse
unfolding attached_already
attached tx intent (ok _) = done (payment_response tx intent TransactionStatus.pending)
attached tx intent (err StoreError.no_documents) = do
  current ← lift (read (find_by_id tx.id))
  attached_already tx intent current
attached tx intent (err StoreError.not_found) = reject Code.not_found "transaction not found"
attached tx intent (err _) = reject internal "failed to attach payment provider"

intent_made :
    Env
    → Transaction
    → String
    → PaymentProvider
    → Answer PaymentIntent
    → Handler CreatePaymentIntentResponse
unfolding attached
intent_made env tx provider_id prov (error e) = do
  t ← lift (now env)
  lift (
      on_store (
        mark_failed tx.id ("payment provider unavailable: " <> adapter_error_text e)
          (add_days t (pos 7)) t))
  reject unavailable ("payment provider unavailable: " <> adapter_error_text e)
intent_made env tx provider_id prov (answer intent) = do
  t ← lift (now env)
  result ← lift (
      on_store (
        attach_provider_transaction tx.id provider_id prov.info.display_name
          intent.provider_transaction_id intent.payment_url t))
  attached tx intent result

abbrev pub made : {A : Type 0} → Answer A → Bool
made (answer _) = true
made (error _) = false

-- The part after the tests of the transaction.
unfoldable pub pay_at_provider :
    Env → ReturnUrl → Transaction → String → String → Handler CreatePaymentIntentResponse
unfolding intent_made
pay_at_provider env return_url tx provider_id description = do
  refuse_if (provider_id == "") invalid_argument "provider_id is required"
  prov ← known_provider (get provider_id env.registry) provider_id
  let request = init_request env return_url tx provider_id description
  valid_request (prov.validate_payment_init request)
  intent ←
      lift (call (λ h. prov.create_payment_intent h request) (λ a. create_intent tx.id (made a)))
  intent_made env tx provider_id prov intent

unfoldable pub create_payment_for_existing_transaction :
    Env → ReturnUrl → Context → String → String → String → Handler CreatePaymentIntentResponse
create_payment_for_existing_transaction env return_url ctx transaction_id provider_id description =
    do
      user_id ← require_user env ctx
      refuse_if (transaction_id == "") invalid_argument "transaction_id is required"
      tx ← load transaction_id
      refuse_if (not (tx.user_id == user_id)) permission_denied
          "transaction does not belong to user"
      refuse_if (not (same_status tx.status Status.pending)) failed_precondition
          "transaction is not pending"
      refuse_if (not (tx.provider_tx_id == "")) failed_precondition
          "payment provider already selected"
      pay_at_provider env return_url tx (trim_space provider_id) description

-- The live poll of GetTransaction and GetTransactionByClientOrder, for pending transactions only.
live_response : Env → Transaction → Handler TransactionResponse
live_response env tx =
    let polled =
      poll_provider tx (tx_to_transaction_response tx) (get tx.provider_id env.registry) in
    if same_status tx.status Status.pending && not (tx.provider_tx_id == "")
    then polled
    else done (tx_to_transaction_response tx)

unfoldable pub get_transaction : Env → String → Handler TransactionResponse
unfolding live_response
get_transaction env transaction_id = do tx ← load transaction_id; live_response env tx

unfoldable pub get_transaction_by_client_order : Env → String → Handler TransactionResponse
unfolding live_response
get_transaction_by_client_order env order = do
  tx ← (λ w. loaded (find_by_client_order_id order w.store) w)
  live_response env tx
