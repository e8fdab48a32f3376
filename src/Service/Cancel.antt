-- ===== src/Service/Cancel.antt =====
-- pkg/service/cancel.go, with terminalMarkError of public.go: cancellation of a pending
-- transaction, at the provider first if one is attached.
pub mod Outcomes
use extend_regional_payment.Prelude.{String, ◌<>◌, ◌==◌, Bool, true, not}
use extend_regional_payment.Prelude.{Option, none, some, if◌then◌else◌}
use extend_regional_payment.Prelude.Int.{pos, ltb_ℤ}
use extend_regional_payment.Prelude.Text.{trim_space}
use extend_regional_payment.Model.{Time, Status, Transaction, same_status, text}
use extend_regional_payment.Store.Types.{StoreError, Result, ok, err}
use extend_regional_payment.Store.Memory.{
  find_by_id, mark_canceled_if_pending, mark_expired_if_pending,
  clear_provider_transaction_if_pending,
}
use extend_regional_payment.Adapter.Types.{
  Answer, answer, error, adapter_error_text, CancelStatus, CancelResult, cancel_text,
}
use extend_regional_payment.Adapter.Effects.{cancel_payment}
use extend_regional_payment.Adapter.Provider.{PaymentProvider, get}
use extend_regional_payment.Service.World.{Config, Env, M, pure, on_store, call, now, add_days}
use extend_regional_payment.Service.Reply.{
  Code, permission_denied, failed_precondition, internal, unavailable, TransactionResponse,
  tx_to_transaction_response,
}
use extend_regional_payment.Service.Handler.{
  Handler, Context, ◌>>=◌, ◌>>◌, done, reject, lift, refuse_if, require_user, load, reload,
}

pub record CancelTransactionResponse : Type 0 where
  pub transaction_id : String
  pub success : Bool
  pub transaction : TransactionResponse
  pub message : String

unfoldable pub canceled_response : Transaction → String → CancelTransactionResponse
canceled_response tx message = record {
  transaction_id = tx.id;
  success = true;
  transaction = tx_to_transaction_response tx;
  message = message;
}

abbrev pub terminal_mark_error : {A : Type 0} → StoreError → String → Handler A
terminal_mark_error StoreError.not_found action = reject Code.not_found "transaction not found"
terminal_mark_error StoreError.no_documents action =
    reject failed_precondition ("transaction is no longer eligible to " <> action)
terminal_mark_error _ action = reject internal ("failed to " <> action <> " transaction")

unfoldable pub cancel_terminal_delete_at : Option Config → Time → Time
cancel_terminal_delete_at none t = add_days t (pos 7)
cancel_terminal_delete_at (some cfg) t =
    add_days t
      (if ltb_ℤ (pos 0) cfg.record_retention_days then cfg.record_retention_days else pos 7)

-- The text, or a default for the empty one.
abbrev pub or_default : String → String → String
or_default s default = if s == "" then default else s

abbrev pub marked : Result (Unit {0}) → String → Handler (Unit {0})
marked (ok _) action = done tt
marked (err e) action = terminal_mark_error e action

unfoldable pub mark_canceled_transaction : Env → String → String → String → Handler Transaction
unfolding cancel_terminal_delete_at
mark_canceled_transaction env txn_id reason provider_status = do
  t ← lift (now env)
  let delete_at = cancel_terminal_delete_at (some env.cfg) t
  result ← lift (on_store (mark_canceled_if_pending txn_id reason provider_status delete_at t))
  marked result "cancel"
  reload txn_id

unfoldable pub mark_expired_transaction : Env → String → String → String → Handler Transaction
unfolding cancel_terminal_delete_at
mark_expired_transaction env txn_id reason provider_status = do
  t ← lift (now env)
  let delete_at = cancel_terminal_delete_at (some env.cfg) t
  result ← lift (on_store (mark_expired_if_pending txn_id reason provider_status delete_at t))
  marked result "expire"
  reload txn_id

abbrev provider_of : Option PaymentProvider → Transaction → Handler PaymentProvider
provider_of none tx = reject failed_precondition ("unknown provider: " <> tx.provider_id)
provider_of (some prov) tx = done prov

abbrev cancel_answer : Answer (Option CancelResult) → Handler CancelResult
cancel_answer (error e) = reject unavailable ("provider cancel failed: " <> adapter_error_text e)
cancel_answer (answer none) = reject unavailable "provider cancel returned empty result"
cancel_answer (answer (some result)) = done result

-- Get, CancelPayment, and the tests of what they return.
unfoldable pub cancel_at_provider : Env → Transaction → String → Handler CancelResult
cancel_at_provider env tx reason = do
  prov ← provider_of (get tx.provider_id env.registry) tx
  result ← lift (call (λ h. prov.cancel_payment h tx reason) (λ _. cancel_payment tx.id reason))
  cancel_answer result

-- `if onAlreadyPaid != nil { onAlreadyPaid() }`
abbrev pub run_callback : Option (M (Unit {0})) → M (Unit {0})
run_callback none = pure tt
run_callback (some action) = action

abbrev pub cancel_failed_message : CancelResult → String
cancel_failed_message result =
    or_default (or_default result.failure_reason result.message) "provider cancellation failed"

abbrev pub provider_status_of : CancelResult → String
provider_status_of result = or_default result.provider_status (cancel_text result.status)

unfoldable pub finish_cancel :
    Env → Transaction → String → String → Handler CancelTransactionResponse
unfolding mark_canceled_transaction
finish_cancel env tx reason provider_status = do
  updated ← mark_canceled_transaction env tx.id reason provider_status
  done (canceled_response updated "transaction canceled")

-- The switch on the provider's answer in cancelPendingTransaction.
unfoldable pub settle_cancel :
    Env
    → Transaction
    → String
    → Option (M (Unit {0}))
    → CancelResult
    → CancelStatus
    → Handler CancelTransactionResponse
unfolding finish_cancel mark_expired_transaction
settle_cancel env tx reason on_already_paid result CancelStatus.canceled =
    finish_cancel env tx reason (provider_status_of result)
settle_cancel env tx reason on_already_paid result CancelStatus.expired = do
  updated ← mark_expired_transaction env tx.id reason (provider_status_of result)
  done (canceled_response updated "transaction already expired at provider")
settle_cancel env tx reason on_already_paid result CancelStatus.already_paid = do
  lift (run_callback on_already_paid)
  reject failed_precondition "provider reports payment already completed"
settle_cancel env tx reason on_already_paid result CancelStatus.pending =
    reject unavailable (or_default result.message "provider cancellation is still pending")
settle_cancel env tx reason on_already_paid result CancelStatus.unsupported =
    reject failed_precondition "provider cancellation is not supported for selected payment"
settle_cancel env tx reason on_already_paid result _ =
    reject unavailable (cancel_failed_message result)

-- The part of cancelPendingTransaction after its tests of the status.
unfoldable pub cancel_pending :
    Env → Transaction → String → Option (M (Unit {0})) → Handler CancelTransactionResponse
unfolding finish_cancel cancel_at_provider settle_cancel
cancel_pending env tx reason on_already_paid =
    let at_provider : Handler CancelTransactionResponse = do
      result ← cancel_at_provider env tx reason
      settle_cancel env tx reason on_already_paid result result.status
    in if tx.provider_tx_id == "" then finish_cancel env tx reason "" else at_provider

unfoldable pub cancel_pending_transaction :
    Env → Transaction → String → Option (M (Unit {0})) → Handler CancelTransactionResponse
unfolding cancel_pending
cancel_pending_transaction env tx reason on_already_paid =
    if same_status tx.status Status.canceled
    then done (canceled_response tx "transaction already canceled")
    else if not (same_status tx.status Status.pending)
    then reject failed_precondition
        ("transaction cannot be canceled from status " <> text tx.status)
    else cancel_pending env tx (or_default (trim_space reason) "user canceled transaction")
        on_already_paid

unfoldable pub cancel_payment_for_existing_transaction :
    Env → Context → String → String → Handler CancelTransactionResponse
unfolding cancel_pending_transaction
cancel_payment_for_existing_transaction env ctx transaction_id reason = do
  user_id ← require_user env ctx
  tx ← load transaction_id
  refuse_if (not (tx.user_id == user_id)) permission_denied "transaction does not belong to user"
  cancel_pending_transaction env tx reason none

abbrev updated_transaction : Result Transaction → Handler Transaction
updated_transaction (ok tx) = done tx
updated_transaction (err e) = reject internal "failed to retrieve updated transaction"

clear_selected : Env → Transaction → Handler CancelTransactionResponse
clear_selected env tx = do
  t ← lift (now env)
  result ← lift (on_store (clear_provider_transaction_if_pending tx.id tx.provider_tx_id t))
  marked result "clear selected provider"
  updated ← (λ w. updated_transaction (find_by_id tx.id w.store) w)
  done (canceled_response updated "selected provider canceled")

-- The switch on the provider's answer in CancelSelectedProviderForExistingTransaction.
settle_selected :
    Env → Transaction → CancelResult → CancelStatus → Handler CancelTransactionResponse
unfolding clear_selected
settle_selected env tx result CancelStatus.canceled = clear_selected env tx
settle_selected env tx result CancelStatus.expired = clear_selected env tx
settle_selected env tx result CancelStatus.already_paid =
    reject failed_precondition "provider reports payment already completed"
settle_selected env tx result CancelStatus.pending =
    reject unavailable (or_default result.message "provider cancellation is still pending")
settle_selected env tx result CancelStatus.unsupported =
    reject failed_precondition "provider cancellation is not supported for selected payment"
settle_selected env tx result _ = reject unavailable (cancel_failed_message result)

cancel_selected : Env → Transaction → String → Handler CancelTransactionResponse
unfolding cancel_at_provider settle_selected
cancel_selected env tx reason =
    let at_provider : Handler CancelTransactionResponse = do
      result ← cancel_at_provider env tx reason
      settle_selected env tx result result.status
    in if tx.provider_tx_id == ""
      then done (canceled_response tx "no selected provider to cancel")
      else at_provider

unfoldable pub cancel_selected_provider_for_existing_transaction :
    Env → Context → String → String → Handler CancelTransactionResponse
unfolding cancel_selected
cancel_selected_provider_for_existing_transaction env ctx transaction_id reason = do
  user_id ← require_user env ctx
  tx ← load transaction_id
  refuse_if (not (tx.user_id == user_id)) permission_denied "transaction does not belong to user"
  refuse_if (not (same_status tx.status Status.pending)) failed_precondition
      ("selected provider cannot be canceled from status " <> text tx.status)
  cancel_selected env tx (or_default (trim_space reason) "user canceled selected provider")
