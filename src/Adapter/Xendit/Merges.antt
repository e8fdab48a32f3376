-- ===== src/Adapter/Xendit/Merges.antt =====
-- internal/adapter/xendit/xendit.go: how a payment request, a payment and the transaction history
-- change the result of a sync.
use Prim.Native.Char.{Char}
use extend_regional_payment.Prelude.{
  String, List, [], ◌∷◌, Bool, true, false, ◌||◌, ◌==◌, ◌<>◌, if◌then◌else◌,
}
use extend_regional_payment.Prelude.Int.{ℤ}
use extend_regional_payment.Adapter.Types.{SyncPaymentStatus, sync_payment_text, ProviderSyncResult}
use extend_regional_payment.Adapter.Xendit.{
  PaymentRequestResponse, XenditPayment, TransactionRecord, RefundRecord,
}
use extend_regional_payment.Adapter.Xendit.Statuses.{
  normal, map_provider_payment_status, map_transaction_refund_status, append_raw_status,
}
use extend_regional_payment.Adapter.Xendit.Refunds.{merge_refund_summary}

is_pending : SyncPaymentStatus → Bool
is_pending SyncPaymentStatus.pending = true
is_pending _ = false

is_paid : SyncPaymentStatus → Bool
is_paid SyncPaymentStatus.paid = true
is_paid _ = false

-- A new payment status, which a pending one does not replace.
next_status : (next current : SyncPaymentStatus) → SyncPaymentStatus
unfolding is_pending
next_status next current = elim (is_pending next) [
  | false ↦ next
  | true ↦ if sync_payment_text current == "" then next else current
]

-- The status and the failure code of a payment request or of a payment.
unfoldable pub merge_status :
    (Char → Char)
    → ProviderSyncResult
    → (status status_label failure_code failure_label : String) → ProviderSyncResult
unfolding next_status
merge_status upper_rune result status status_label failure_code failure_label = record result {
  payment_status =
      next_status (map_provider_payment_status upper_rune status) result.payment_status;
  raw_payment_status =
      if status == ""
      then result.raw_payment_status
      else append_raw_status result.raw_payment_status (status_label <> status);
  message = if failure_code == "" then result.message else failure_label <> failure_code;
}

module _ (upper_rune : Char → Char) where
  unfoldable pub merge_payment_request_status :
      ProviderSyncResult → PaymentRequestResponse → ProviderSyncResult
  unfolding merge_status
  merge_payment_request_status result pr =
      merge_status upper_rune result pr.status "payment_request:" pr.failure_code
        "xendit payment request failure: "

  unfoldable pub merge_payment_status : ProviderSyncResult → XenditPayment → ProviderSyncResult
  unfolding merge_status
  merge_payment_status result payment =
      merge_status upper_rune result payment.status "payment:" payment.failure_code
        "xendit payment failure: "

  -- A record of a payment: a success makes the result paid, and a failure fails what is not paid.
  unfoldable pub merge_payment_record : ProviderSyncResult → TransactionRecord → ProviderSyncResult
  unfolding is_paid
  merge_payment_record result item =
      let status = normal upper_rune item.status in
      let raw =
        append_raw_status result.raw_payment_status
          (normal upper_rune item.kind <> ":" <> status) in
      if status == "SUCCESS"
      then record result { payment_status = SyncPaymentStatus.paid; raw_payment_status = raw }
      else if (status == "FAILED") || (status == "VOIDED") || (status == "REVERSED")
      then record result {
        payment_status =
            if is_paid result.payment_status
            then result.payment_status
            else SyncPaymentStatus.failed;
        raw_payment_status = raw;
      }
      else result

  unfoldable pub merge_record : ProviderSyncResult → TransactionRecord → ProviderSyncResult
  unfolding merge_payment_record
  merge_record result item =
      if normal upper_rune item.kind == "PAYMENT" then merge_payment_record result item else result

  unfoldable pub merge_records : ProviderSyncResult → List TransactionRecord → ProviderSyncResult
  merge_records result [] = result
  merge_records result (item ∷ items) = merge_records (merge_record result item) items

  -- The refunds among the records, with their amount through a float64.
  unfoldable pub refund_records : (ℤ → ℤ) → List TransactionRecord → List RefundRecord
  refund_records through_float [] = []
  refund_records through_float (item ∷ items) =
      let rest = refund_records through_float items in
      if normal upper_rune item.kind == "REFUND"
      then record {
        id = item.id;
        status = map_transaction_refund_status upper_rune item.status;
        amount = through_float item.amount;
        currency = item.currency;
      }
        ∷ rest
      else rest

  unfoldable pub merge_transaction_history :
      (ℤ → ℤ)
      → ProviderSyncResult
      → List TransactionRecord
      → (tx_amount : ℤ) → (tx_currency : String) → ProviderSyncResult
  merge_transaction_history through_float result items tx_amount tx_currency =
      merge_refund_summary upper_rune (merge_records result items)
        (refund_records through_float items) tx_amount tx_currency
