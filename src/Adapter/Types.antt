-- ===== src/Adapter/Types.antt =====
-- internal/adapter/provider.go: the statuses and results that a provider adapter returns. A status
-- type is a Go string type: `other` is a text that is none of its constants.
use extend_regional_payment.Prelude.{ℕ, String, Bool, false, ◌≡◌, ◌⊎◌, inl, inr, refl}
use extend_regional_payment.Prelude.Int.{ℤ, pos}
use extend_regional_payment.Model.{Time}

pub data PaymentStatus : Type 0 where
  success failed pending refunded canceled expired : PaymentStatus
  other : String → PaymentStatus

pub data CancelStatus : Type 0 where
  canceled expired already_paid pending unsupported failed : CancelStatus
  other : String → CancelStatus

pub data SyncPaymentStatus : Type 0 where
  pending paid failed unknown unsupported : SyncPaymentStatus
  other : String → SyncPaymentStatus

pub data SyncRefundStatus : Type 0 where
  none pending partial_refunded refunded failed unknown unsupported : SyncRefundStatus
  other : String → SyncRefundStatus

-- The conversions string(status).
abbrev pub payment_text : PaymentStatus → String
payment_text PaymentStatus.success = "SUCCESS"
payment_text PaymentStatus.failed = "FAILED"
payment_text PaymentStatus.pending = "PENDING"
payment_text PaymentStatus.refunded = "REFUNDED"
payment_text PaymentStatus.canceled = "CANCELED"
payment_text PaymentStatus.expired = "EXPIRED"
payment_text (PaymentStatus.other s) = s

abbrev pub cancel_text : CancelStatus → String
cancel_text CancelStatus.canceled = "CANCELED"
cancel_text CancelStatus.expired = "EXPIRED"
cancel_text CancelStatus.already_paid = "ALREADY_PAID"
cancel_text CancelStatus.pending = "PENDING"
cancel_text CancelStatus.unsupported = "UNSUPPORTED"
cancel_text CancelStatus.failed = "FAILED"
cancel_text (CancelStatus.other s) = s

abbrev pub sync_payment_text : SyncPaymentStatus → String
sync_payment_text SyncPaymentStatus.pending = "PENDING"
sync_payment_text SyncPaymentStatus.paid = "PAID"
sync_payment_text SyncPaymentStatus.failed = "FAILED"
sync_payment_text SyncPaymentStatus.unknown = "UNKNOWN"
sync_payment_text SyncPaymentStatus.unsupported = "UNSUPPORTED"
sync_payment_text (SyncPaymentStatus.other s) = s

abbrev pub sync_refund_text : SyncRefundStatus → String
sync_refund_text SyncRefundStatus.none = "NONE"
sync_refund_text SyncRefundStatus.pending = "PENDING"
sync_refund_text SyncRefundStatus.partial_refunded = "PARTIAL_REFUNDED"
sync_refund_text SyncRefundStatus.refunded = "REFUNDED"
sync_refund_text SyncRefundStatus.failed = "FAILED"
sync_refund_text SyncRefundStatus.unknown = "UNKNOWN"
sync_refund_text SyncRefundStatus.unsupported = "UNSUPPORTED"
sync_refund_text (SyncRefundStatus.other s) = s

-- An `error` of an adapter: ErrNotSupported or one with its text.
pub data AdapterError : Type 0 where
  not_supported : AdapterError
  failure : String → AdapterError

abbrev pub adapter_error_text : AdapterError → String
adapter_error_text not_supported = "operation not supported by this provider"
adapter_error_text (failure message) = message

-- The pair of a value and an `error` that an adapter returns.
pub data Answer (A : Type 0) : Type 0 where
  answer : A → Answer A
  error : AdapterError → Answer A

pub Answer-cases :
    {A : Type 0} (r : Answer A) → ((a : A) × (r ≡ answer a)) ⊎ ((e : AdapterError) × (r ≡ error e))
Answer-cases (answer a) = inl (a, refl)
Answer-cases (error e) = inr (e, refl)

pub record PaymentInitRequest : Type 0 where
  pub internal_order_id : String
  pub user_id : String
  pub region_code : String
  pub amount : ℤ
  pub currency_code : String
  pub description : String
  pub callback_url : String
  pub return_url : String
  pub expiry_duration : ℕ

pub record ProviderInfo : Type 0 where
  pub id : String
  pub display_name : String

pub record PaymentIntent : Type 0 where
  pub provider_transaction_id : String
  pub payment_url : String
  pub qr_code_data : String
  pub expires_at : Time

-- The raw payload of a webhook is not read after the adapter, and is left out.
pub record PaymentResult : Type 0 where
  pub provider_transaction_id : String
  pub internal_order_id : String
  pub status : PaymentStatus
  pub raw_provider_status : String
  pub amount : ℤ
  pub currency_code : String
  pub failure_reason : String

pub record ProviderPaymentStatus : Type 0 where
  pub provider_tx_id : String
  pub status : PaymentStatus
  pub amount : ℤ
  pub currency_code : String
  pub failure_reason : String

pub record CancelResult : Type 0 where
  pub status : CancelStatus
  pub provider_status : String
  pub provider_tx_id : String
  pub message : String
  pub failure_reason : String
  pub retryable : Bool
  pub raw_payment_status : String
  pub raw_provider_status : String

pub record ProviderSyncResult : Type 0 where
  pub provider_tx_id : String
  pub payment_status : SyncPaymentStatus
  pub refund_status : SyncRefundStatus
  pub raw_payment_status : String
  pub raw_refund_status : String
  pub refund_amount : ℤ
  pub refund_currency_code : String
  pub message : String

-- The results with the fields that an adapter sets, and zero values in the others.
abbrev pub cancel_result :
    CancelStatus → (provider_status provider_tx_id message failure_reason : String) → CancelResult
cancel_result status provider_status provider_tx_id message failure_reason = record {
  status = status;
  provider_status = provider_status;
  provider_tx_id = provider_tx_id;
  message = message;
  failure_reason = failure_reason;
  retryable = false;
  raw_payment_status = "";
  raw_provider_status = "";
}

abbrev pub unsupported_sync : (provider_tx_id message : String) → ProviderSyncResult
unsupported_sync provider_tx_id message = record {
  provider_tx_id = provider_tx_id;
  payment_status = SyncPaymentStatus.unsupported;
  refund_status = SyncRefundStatus.unsupported;
  raw_payment_status = "";
  raw_refund_status = "";
  refund_amount = pos 0;
  refund_currency_code = "";
  message = message;
}
