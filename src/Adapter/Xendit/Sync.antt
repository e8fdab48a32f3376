-- ===== src/Adapter/Xendit/Sync.antt =====
-- internal/adapter/xendit/xendit.go: GetPaymentStatus and SyncTransactionStatus, which asks for the
-- session, the payment request, the payment, the transactions and the refunds, in this order.
use text.Mathlib.Text.{starts_with}
use extend_regional_payment.Prelude.{
  String, [], Bool, true, false, Option, some, ◌==◌, if◌then◌else◌,
}
use extend_regional_payment.Prelude.Int.{pos}
use extend_regional_payment.Prelude.Text.{trim_space}
use extend_regional_payment.Model.{Transaction}
use extend_regional_payment.Adapter.Types.{
  unsupported_sync, ProviderPaymentStatus, SyncPaymentStatus, SyncRefundStatus, ProviderSyncResult,
  Answer,
}
use extend_regional_payment.Adapter.Effects.{History}
use extend_regional_payment.Adapter.SyncStatus.{sync_payment_status}
use extend_regional_payment.Adapter.Xendit.{Api, PaymentSessionResponse}
use extend_regional_payment.Adapter.Xendit.Statuses.{map_payment_session_status}
use extend_regional_payment.Adapter.Xendit.Refunds.{merge_refund_summary}
use extend_regional_payment.Adapter.Xendit.Merges.{
  merge_payment_request_status, merge_payment_status, merge_transaction_history,
}
use extend_regional_payment.Adapter.Xendit.Calls.{
  Call, pure, labelled, ◌>>=◌, answer_of, payment_session_id, get_session,
  get_payment_request_status, get_payment_status_v3, list_refunds_by_payment_request_id,
}
use extend_regional_payment.Adapter.Xendit.Records.{collect_transaction_history}

-- The result so far, and the ids that the steps have found.
pub record Progress : Type 0 where
  pub result : ProviderSyncResult
  pub payment_request_id : String
  pub payment_id : String

abbrev pub is_refund : SyncRefundStatus → Bool
is_refund SyncRefundStatus.refunded = true
is_refund SyncRefundStatus.partial_refunded = true
is_refund _ = false

unfoldable pub first_result : String → ProviderSyncResult
first_result provider_tx_id = record {
  provider_tx_id = provider_tx_id;
  payment_status = SyncPaymentStatus.pending;
  refund_status = SyncRefundStatus.none;
  raw_payment_status = "";
  raw_refund_status = "";
  refund_amount = pos 0;
  refund_currency_code = "";
  message = "xendit transaction history synced";
}

-- A refund, whole or in part, is of a paid transaction.
unfoldable pub finish : ProviderSyncResult → ProviderSyncResult
finish result = record result {
  payment_status =
      if is_refund result.refund_status then SyncPaymentStatus.paid else result.payment_status;
  message = if result.message == "" then "xendit transaction history synced" else result.message;
}

module _ (api : Api) where
  unfoldable pub provider_status_from_payment_session :
      (fallback_tx_id : String) → PaymentSessionResponse → ProviderPaymentStatus
  provider_status_from_payment_session fallback_tx_id session = record {
    provider_tx_id =
        if payment_session_id session == "" then fallback_tx_id else payment_session_id session;
    status = map_payment_session_status api.upper_rune session.status;
    amount = session.amount;
    currency_code = session.currency;
    failure_reason = session.status;
  }

  -- What the session says.
  unfoldable pub with_session : String → PaymentSessionResponse → Progress
  with_session provider_tx_id session = record {
    result = record (first_result provider_tx_id) {
      provider_tx_id =
          if payment_session_id session == "" then provider_tx_id else payment_session_id session;
      payment_status =
          sync_payment_status (map_payment_session_status api.upper_rune session.status);
      raw_payment_status = session.status;
    };
    payment_request_id = trim_space session.payment_request_id;
    payment_id = trim_space session.payment_id;
  }

module _ (api : Api) (h : History) where
  unfoldable pub get_payment_status : String → Call ProviderPaymentStatus
  get_payment_status provider_tx_id = do
    session ← get_session api h provider_tx_id
    pure (provider_status_from_payment_session api provider_tx_id session)

  unfoldable pub fetch_session : String → Call Progress
  fetch_session provider_tx_id =
      if starts_with provider_tx_id "ps"
      then (labelled "xendit sync fetch session" (get_session api h provider_tx_id) >>= λ session.
          pure (with_session api provider_tx_id session))
      else pure (record {
        result = first_result provider_tx_id;
        payment_request_id = provider_tx_id;
        payment_id = "";
      })

  unfoldable pub fetch_payment_request : Progress → Call Progress
  fetch_payment_request p =
      if p.payment_request_id == ""
      then pure p
      else (get_payment_request_status api h p.payment_request_id >>= λ pr. pure (record p {
        result = merge_payment_request_status api.upper_rune p.result pr;
        payment_id = if p.payment_id == "" then trim_space pr.latest_payment_id else p.payment_id;
      }))

  unfoldable pub fetch_payment : Progress → Call Progress
  fetch_payment p =
      if p.payment_id == ""
      then pure p
      else (get_payment_status_v3 api h p.payment_id >>= λ payment.
          pure (record p { result = merge_payment_status api.upper_rune p.result payment }))

  unfoldable pub fetch_history : Transaction → Progress → Call Progress
  fetch_history tx p = do
    items ← collect_transaction_history api h tx.id p.payment_id p.payment_request_id
    pure (record p {
      result =
          merge_transaction_history api.upper_rune api.through_float p.result items tx.amount
            tx.currency_code;
    })

  unfoldable pub fetch_refunds : Transaction → Progress → Call Progress
  fetch_refunds tx p =
      if p.payment_request_id == ""
      then pure p
      else (list_refunds_by_payment_request_id api h p.payment_request_id >>= λ refunds.
          pure (record p {
            result =
                merge_refund_summary api.upper_rune p.result refunds tx.amount tx.currency_code;
          }))

  unfoldable pub sync_calls : Transaction → Call (Option ProviderSyncResult)
  unfolding fetch_session fetch_payment_request fetch_payment fetch_history fetch_refunds
  sync_calls tx = do
    of_session ← fetch_session (trim_space tx.provider_tx_id)
    of_request ← fetch_payment_request of_session
    of_payment ← fetch_payment of_request
    of_history ← fetch_history tx of_payment
    of_refunds ← fetch_refunds tx of_history
    pure (some (finish of_refunds.result))

  unfoldable pub sync_transaction_status : Transaction → Answer (Option ProviderSyncResult)
  sync_transaction_status tx =
      if trim_space tx.provider_tx_id == ""
      then answer_of (pure (some (unsupported_sync "" "missing provider transaction id")) [])
      else answer_of (sync_calls tx [])
