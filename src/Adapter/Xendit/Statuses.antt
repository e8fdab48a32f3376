-- ===== src/Adapter/Xendit/Statuses.antt =====
-- internal/adapter/xendit/xendit.go: the status mappings. A status is compared trimmed and in upper
-- case.
use Prim.Native.Char.{Char}
use extend_regional_payment.Prelude.{String, [], ◌∷◌, ◌||◌, ◌==◌, ◌<>◌, if◌then◌else◌}
use extend_regional_payment.Prelude.Table.{has_key}
use extend_regional_payment.Prelude.Text.{trim_space, to_upper, contains}
use extend_regional_payment.Adapter.Types.{PaymentStatus, CancelStatus, SyncPaymentStatus}

-- strings.ToUpper(strings.TrimSpace(raw))
abbrev pub normal : (Char → Char) → String → String
normal upper_rune raw = to_upper upper_rune (trim_space raw)

module _ (upper_rune : Char → Char) where
  unfoldable pub map_provider_payment_status : String → SyncPaymentStatus
  unfolding has_key
  map_provider_payment_status raw =
      let status = normal upper_rune raw in
      if has_key status ("SUCCEEDED" ∷ "SUCCESS" ∷ "COMPLETED" ∷ "PAID" ∷ [])
      then SyncPaymentStatus.paid
      else if has_key status
          ("FAILED" ∷ "CANCELED" ∷ "CANCELLED" ∷ "EXPIRED" ∷ "VOIDED" ∷ "REVERSED" ∷ [])
      then SyncPaymentStatus.failed
      else if status == ""
      then SyncPaymentStatus.unknown
      else SyncPaymentStatus.pending

  unfoldable pub map_transaction_refund_status : String → String
  map_transaction_refund_status raw =
      let status = normal upper_rune raw in
      if (status == "SUCCESS") || (status == "REVERSED") || (status == "VOIDED")
      then "SUCCEEDED"
      else if status == "PENDING"
      then "PENDING"
      else if status == "FAILED"
      then "FAILED"
      else raw

  unfoldable pub map_payment_session_status : String → PaymentStatus
  unfolding has_key
  map_payment_session_status raw =
      let status = normal upper_rune raw in
      if has_key status ("COMPLETED" ∷ "PAID" ∷ "SUCCEEDED" ∷ "SUCCESS" ∷ [])
      then PaymentStatus.success
      else if (status == "CANCELED") || (status == "CANCELLED")
      then PaymentStatus.canceled
      else if status == "EXPIRED"
      then PaymentStatus.expired
      else if status == "FAILED"
      then PaymentStatus.failed
      else PaymentStatus.pending

  unfoldable pub map_payment_session_cancel_status : String → CancelStatus
  unfolding has_key
  map_payment_session_cancel_status raw =
      let status = normal upper_rune raw in
      if (status == "CANCELED") || (status == "CANCELLED")
      then CancelStatus.canceled
      else if status == "EXPIRED"
      then CancelStatus.expired
      else if has_key status ("COMPLETED" ∷ "PAID" ∷ "SUCCEEDED" ∷ "SUCCESS" ∷ [])
      then CancelStatus.already_paid
      else if (status == "ACTIVE") || (status == "PENDING")
      then CancelStatus.pending
      else CancelStatus.failed

-- The raw statuses seen so far, and one more if it is not among them as a part of the text.
unfoldable pub append_raw_status : (existing next : String) → String
append_raw_status existing next =
    let status = trim_space next in
    if status == ""
    then existing
    else if existing == ""
    then status
    else if contains existing status
    then existing
    else existing <> "," <> status
