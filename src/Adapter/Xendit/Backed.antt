-- ===== src/Adapter/Xendit/Backed.antt =====
-- internal/adapter/xendit/xendit.go: what stands behind a refund that SyncTransactionStatus reports.

use text.Mathlib.Text.{starts_with}
use extend_regional_payment.Prelude.{◌≡◌, ◌⊎◌, String, List, true, false, Option, some}
use extend_regional_payment.Prelude.Text.{trim_space}
use extend_regional_payment.Prelude.Found.{Found, found, failed}
use extend_regional_payment.Model.{Transaction}
use extend_regional_payment.Adapter.Types.{SyncPaymentStatus, SyncRefundStatus, ProviderSyncResult}
use extend_regional_payment.Adapter.Effects.{History}
use extend_regional_payment.Adapter.Xendit.{
  PaymentSessionResponse, PaymentRequestResponse, Api, Calls, RefundRecord, TransactionRecord,
}
use extend_regional_payment.Adapter.Xendit.Refunds.{Summary, summarize_xendit_refunds}
use extend_regional_payment.Adapter.Xendit.Merges.{refund_records}
use extend_regional_payment.Adapter.Xendit.Calls.{
  get_session, get_payment_request_status, Call, list_refunds_by_payment_request_id,
}
use extend_regional_payment.Adapter.Xendit.Records.{collect_transaction_history}
use extend_regional_payment.Adapter.Xendit.Sync.{Progress, is_refund, finish}

-- What holds of the value of a chain that ends well.
abbrev Holds : {A : Type 0} → (A → Type 0) → Found A → Type 0
Holds P (found a) = P a
Holds P (failed e) = Unit

data Ensures {A : Type 0} (P : A → Type 0) (m : Call A) : Type 0 where
  ensured : ((calls : Calls) → Holds P ((m calls).0)) → Ensures P m

-- The call gives this value from some state of the calls.
abbrev pub Given : {A : Type 0} → Call A → A → Type 0
Given m a = (calls : Calls) × (calls' : Calls) × (m calls ≡ (found a, calls'))

module _ (api : Api) (h : History) (tx : Transaction) where
  -- The payment request of the transaction: its provider transaction id, or, where that is the id of a
  -- session, the request that this session names.
  pub data IsRequest : String → Type 0 where
    itself :
        starts_with (trim_space tx.provider_tx_id) "ps" ≡ false
        → IsRequest (trim_space tx.provider_tx_id)
    of_session :
        (session : PaymentSessionResponse)
        → starts_with (trim_space tx.provider_tx_id) "ps" ≡ true
        → Given (get_session api h (trim_space tx.provider_tx_id)) session
        → IsRequest (trim_space session.payment_request_id)

  -- The payment of the transaction: the one that its session names, or the latest of its payment
  -- request; none is known of a transaction without a session at first.
  pub data IsPayment : String → Type 0 where
    not_known : starts_with (trim_space tx.provider_tx_id) "ps" ≡ false → IsPayment ""
    of_session :
        (session : PaymentSessionResponse)
        → starts_with (trim_space tx.provider_tx_id) "ps" ≡ true
        → Given (get_session api h (trim_space tx.provider_tx_id)) session
        → IsPayment (trim_space session.payment_id)
    of_request :
        (request_id : String) (pr : PaymentRequestResponse)
        → IsRequest request_id
        → Given (get_payment_request_status api h request_id) pr
        → IsPayment (trim_space pr.latest_payment_id)

  -- The refunds of this transaction that one of the calls of the SDK gave.
  pub data IsReported : List RefundRecord → Type 0 where
    of_history :
        (payment_id request_id : String) (items : List TransactionRecord)
        → IsPayment payment_id
        → IsRequest request_id
        → Given (collect_transaction_history api h tx.id payment_id request_id) items
        → IsReported (refund_records api.upper_rune api.through_float items)
    of_list :
        (request_id : String) (refunds : List RefundRecord)
        → IsRequest request_id
        → Given (list_refunds_by_payment_request_id api h request_id) refunds
        → IsReported refunds

  abbrev summary_of : List RefundRecord → Summary
  summary_of refunds = summarize_xendit_refunds api.upper_rune refunds tx.amount tx.currency_code

  -- The refund of the result is the summary of reported refunds.
  abbrev pub IsBacked : ProviderSyncResult → Type 0
  IsBacked result =
      (refunds : List RefundRecord) × IsReported refunds
      × ((summary_of refunds).status ≡ result.refund_status)
      × ((summary_of refunds).amount ≡ result.refund_amount)
      × ((summary_of refunds).currency ≡ result.refund_currency_code)

  abbrev Sound : ProviderSyncResult → Type 0
  Sound result = (is_refund result.refund_status ≡ false) ⊎ IsBacked result

  -- Before the history: no refund yet, and the ids are those of the transaction.
  abbrev Known : Progress → Type 0
  Known p =
      (p.result.refund_status ≡ SyncRefundStatus.none)
      × IsRequest p.payment_request_id
      × IsPayment p.payment_id

  abbrev SoundSoFar : Progress → Type 0
  SoundSoFar p = Sound p.result × IsRequest p.payment_request_id

  abbrev Ended : Option ProviderSyncResult → Type 0
  Ended end = (result : ProviderSyncResult) × (end ≡ some (finish result)) × Sound result

  abbrev PaidAndBacked : ProviderSyncResult → Type 0
  PaidAndBacked result =
      is_refund result.refund_status ≡ true
      → (result.payment_status ≡ SyncPaymentStatus.paid) × IsBacked result
