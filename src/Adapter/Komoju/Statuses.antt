-- ===== src/Adapter/Komoju/Statuses.antt =====
-- internal/adapter/komoju/komoju.go: the status mappings. A status is compared trimmed and in lower
-- case.
use Prim.Native.Char.{Char}
use extend_regional_payment.Prelude.{String, ◌||◌, ◌==◌, if◌then◌else◌}
use extend_regional_payment.Prelude.Text.{trim_space, to_lower}
use extend_regional_payment.Adapter.Types.{PaymentStatus, CancelStatus}

module _ (lower_rune : Char → Char) where
  unfoldable pub map_komoju_cancel_status : String → CancelStatus
  map_komoju_cancel_status raw =
      let status = to_lower lower_rune (trim_space raw) in
      if (status == "cancelled") || (status == "canceled")
      then CancelStatus.canceled
      else if status == "expired"
      then CancelStatus.expired
      else if (status == "captured") || (status == "refunded")
      then CancelStatus.already_paid
      else if (status == "pending") || (status == "authorized")
      then CancelStatus.pending
      else CancelStatus.failed

  unfoldable pub map_session_status : String → PaymentStatus
  map_session_status raw =
      let status = to_lower lower_rune (trim_space raw) in
      if (status == "cancelled") || (status == "canceled")
      then PaymentStatus.canceled
      else if status == "expired"
      then PaymentStatus.expired
      else if status == "failed"
      then PaymentStatus.failed
      else PaymentStatus.pending

  unfoldable pub map_payment_status : String → PaymentStatus
  map_payment_status raw =
      let status = to_lower lower_rune (trim_space raw) in
      if status == "captured"
      then PaymentStatus.success
      else if status == "refunded"
      then PaymentStatus.refunded
      else if (status == "cancelled") || (status == "canceled")
      then PaymentStatus.canceled
      else if status == "expired"
      then PaymentStatus.expired
      else if status == "failed"
      then PaymentStatus.failed
      else PaymentStatus.pending

  unfoldable pub failure_reason_of : String → String
  failure_reason_of raw = elim (map_payment_status raw) [ PaymentStatus.failed ↦ raw | _ ↦ "" ]
