-- ===== src/Service/Webhook.antt =====
-- pkg/service/webhook.go: WebhookService, from the signature test to the commit.
pub mod Success
pub mod Gate
pub mod Authentic
pub mod Once
pub mod Report
use extend_regional_payment.Prelude.{String, ◌<>◌, ◌==◌, ℕ, List, not}
use extend_regional_payment.Prelude.{Option, none, some, if◌then◌else◌}
use extend_regional_payment.Prelude.Int.{pos}
use extend_regional_payment.Prelude.Text.{trim_space}
use extend_regional_payment.Prelude.Table.{Table}
use extend_regional_payment.Model.{Time, Status, Transaction, text, same_status}
use extend_regional_payment.Store.Types.{StoreError, Result, ok, err, error_text}
use extend_regional_payment.Store.Memory.{
  Store, find_by_id, atomic_claim_fulfilling, reset_to_pending, commit_fulfilled, mark_failed,
  mark_canceled_if_pending, mark_expired_if_pending, atomic_claim_external_refunding,
}
use extend_regional_payment.Adapter.Types.{
  AdapterError, Answer, answer, error, adapter_error_text, PaymentStatus, PaymentResult,
}
use extend_regional_payment.Adapter.Effects.{fulfill_item, notify}
use extend_regional_payment.Adapter.Provider.{PaymentProvider, get}
use extend_regional_payment.Service.World.{
  Env, M, pure, on_store, read, call, emit, now, add_days, succeeded,
}
use extend_regional_payment.Service.Reply.{invalid_argument, internal, reply, fail}
use extend_regional_payment.Service.Handler.{Handler, ◌>>=◌, ◌>>◌, done, reject, lift, refuse_if}
use extend_regional_payment.Service.Refund.{reverse_ags_refund}
use extend_regional_payment.Service.Sync.{is_refunded}

pub record WebhookRequest : Type 0 where
  pub provider_id : String
  pub headers : Table String
  pub raw_payload : List ℕ

pub record WebhookResponse : Type 0 where
  pub message : String

abbrev pub says : String → Handler WebhookResponse
says m = done (record { message = m })

refund_claimed : Env → Result Transaction → Handler WebhookResponse
refund_claimed env (err StoreError.no_documents) = says "ok"
refund_claimed env (err e) = reject internal ("failed to claim refund: " <> error_text e)
refund_claimed env (ok claimed) = do
  reversed ← lift (reverse_ags_refund env env.reverser claimed)
  elim reversed [
    | reply _ ↦ says "ok"
    | fail c m ↦ reject internal ("AGS refund reversal failed: " <> env.status_text c m)
  ]

refund_found : Env → Result Transaction → Handler WebhookResponse
unfolding refund_claimed
refund_found env (err StoreError.not_found) = says "ok"
refund_found env (err e) = reject internal ("failed to look up transaction: " <> error_text e)
refund_found env (ok tx) =
    let claim : Handler WebhookResponse = do
      t ← lift (now env)
      claimed ← lift (on_store (atomic_claim_external_refunding tx.id "provider refund webhook" t))
      refund_claimed env claimed
    in if is_refunded tx.refund
      then says "ok"
      else if not (same_status tx.status Status.fulfilled)
      then says "ok"
      else claim

unfoldable pub handle_provider_refund : Env → PaymentResult → Handler WebhookResponse
unfolding refund_found
handle_provider_refund env result = do
  found ← lift (read (find_by_id result.internal_order_id))
  refund_found env found

-- `tx, _ := FindByID(…); if tx != nil { Notify… }`
notify_found : Result Transaction → Status → M (Unit {0})
notify_found (ok tx) status = emit (notify tx.user_id tx.id (text status) tx.item_id)
notify_found (err _) status = pure tt

-- `strings.ToLower` of the two names.
lower_name : Status → String
lower_name Status.expired = "expired"
lower_name _ = "canceled"

mark_terminal : Status → PaymentResult → Time → Time → Store → Result (Unit {0}) × Store
mark_terminal status result delete_at t =
    if same_status status Status.expired
    then mark_expired_if_pending result.internal_order_id result.failure_reason
        result.raw_provider_status delete_at t
    else mark_canceled_if_pending result.internal_order_id result.failure_reason
        result.raw_provider_status delete_at t

-- An error of the store is at most logged.
handle_terminal : Env → PaymentResult → Status → Handler WebhookResponse
unfolding mark_terminal notify_found lower_name
handle_terminal env result status = do
  t ← lift (now env)
  let delete_at = add_days t env.cfg.record_retention_days
  lift (on_store (mark_terminal status result delete_at t))
  found ← lift (read (find_by_id result.internal_order_id))
  lift (notify_found found status)
  says (lower_name status)

handle_failed : Env → PaymentResult → Handler WebhookResponse
unfolding notify_found
handle_failed env result = do
  t ← lift (now env)
  lift
      (on_store (mark_failed result.internal_order_id result.failure_reason (add_days t (pos 7)) t))
  found ← lift (read (find_by_id result.internal_order_id))
  lift (notify_found found Status.failed)
  says "payment failed"

fulfill_result : Env → PaymentResult → Transaction → Option String → Handler WebhookResponse
fulfill_result env result tx (some e) = do
  t ← lift (now env)
  lift (on_store (reset_to_pending tx.id t))
  reject internal ("fulfillment failed: " <> e)
fulfill_result env result tx none = do
  t ← lift (now env)
  let delete_at = add_days t env.cfg.record_retention_days
  lift (on_store (commit_fulfilled tx.id result.raw_provider_status delete_at t))
  lift (emit (notify tx.user_id tx.id (text Status.fulfilled) tx.item_id))
  says "ok"

claim_result : Env → PaymentResult → Result Transaction → Handler WebhookResponse
unfolding fulfill_result
claim_result env result (err StoreError.no_documents) = says "ok"
claim_result env result (err StoreError.not_found) = says "ok"
claim_result env result (err _) = reject internal "failed to claim transaction"
claim_result env result (ok tx) = do
  e ← lift (
      call (λ h. env.fulfiller h tx.user_id tx.item_id tx.id tx.quantity)
        (λ e. fulfill_item tx.user_id tx.item_id tx.id tx.quantity (succeeded e)))
  fulfill_result env result tx e

unfoldable pub handle_success : Env → PaymentResult → Handler WebhookResponse
unfolding claim_result
handle_success env result = do
  t ← lift (now env)
  claimed ←
      lift (
        on_store
          (atomic_claim_fulfilling result.internal_order_id result.provider_transaction_id t))
  claim_result env result claimed

-- Steps 4 to 9, by the status of the parsed payload.
unfoldable pub handle_result : Env → PaymentResult → PaymentStatus → Handler WebhookResponse
unfolding handle_terminal handle_failed
handle_result env result PaymentStatus.refunded = handle_provider_refund env result
handle_result env result PaymentStatus.canceled = handle_terminal env result Status.canceled
handle_result env result PaymentStatus.expired = handle_terminal env result Status.expired
handle_result env result PaymentStatus.failed = handle_failed env result
handle_result env result PaymentStatus.success = handle_success env result
handle_result env result _ = says "ok"

parsed : Env → Answer PaymentResult → Handler WebhookResponse
parsed env (error e) = reject invalid_argument ("failed to parse webhook: " <> adapter_error_text e)
parsed env (answer result) = handle_result env result result.status

abbrev signed : Option AdapterError → Handler (Unit {0})
signed none = done tt
signed (some e) = reject invalid_argument ("invalid webhook signature: " <> adapter_error_text e)

abbrev provider_of : Option PaymentProvider → String → Handler PaymentProvider
provider_of none id = reject invalid_argument ("unknown provider: " <> id)
provider_of (some prov) id = done prov

unfoldable pub handle_webhook : Env → WebhookRequest → Handler WebhookResponse
unfolding parsed
handle_webhook env req = do
  refuse_if (trim_space req.provider_id == "") invalid_argument "provider_id required"
  prov ← provider_of (get req.provider_id env.registry) req.provider_id
  signed (prov.validate_webhook_signature req.raw_payload req.headers)
  refuse_if env.cfg.webhook_force_error internal "forced error for certification"
  result ← (λ w. (reply (prov.handle_webhook w.history req.raw_payload req.headers), w))
  parsed env result
