-- ===== src/Adapter/SyncStatus.antt =====
-- internal/adapter/sync.go: from a payment status to the two sync statuses.
use extend_regional_payment.Adapter.Types.{PaymentStatus, SyncPaymentStatus, SyncRefundStatus}

unfoldable pub sync_payment_status : PaymentStatus → SyncPaymentStatus
sync_payment_status PaymentStatus.success = SyncPaymentStatus.paid
sync_payment_status PaymentStatus.failed = SyncPaymentStatus.failed
sync_payment_status PaymentStatus.canceled = SyncPaymentStatus.failed
sync_payment_status PaymentStatus.expired = SyncPaymentStatus.failed
sync_payment_status _ = SyncPaymentStatus.pending

unfoldable pub sync_refund_status : PaymentStatus → SyncRefundStatus
sync_refund_status PaymentStatus.refunded = SyncRefundStatus.refunded
sync_refund_status _ = SyncRefundStatus.none
