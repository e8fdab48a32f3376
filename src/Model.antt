-- ===== src/Model.antt =====
-- internal/model/transaction.go: the transaction document with its statuses. The code writes no
-- other status than these constants, so a status is an enumeration, and `text` is its string.
-- A time.Time is its nanoseconds since the zero time; an int32 or int64 is an integer.
use extend_regional_payment.Prelude.{
  Bool-cases, ◌≡◌, ◌≢◌, ◌⊎◌, inl, inr, arith, ℕ, String, Bool, true, false, Option,
}
use extend_regional_payment.Prelude.Int.{ℤ}

pub data Status : Type 0 where
  pending fulfilling fulfilled failed canceled expired : Status

pub data RefundStatus : Type 0 where
  refunding refunded refund_failed : RefundStatus

abbrev pub text : Status → String
text pending = "PENDING"
text fulfilling = "FULFILLING"
text fulfilled = "FULFILLED"
text failed = "FAILED"
text canceled = "CANCELED"
text expired = "EXPIRED"

abbrev pub refund_text : RefundStatus → String
refund_text refunding = "REFUNDING"
refund_text refunded = "REFUNDED"
refund_text refund_failed = "REFUND_FAILED"

-- `==` on two status strings.
abbrev pub same_status : Status → Status → Bool
same_status pending pending = true
same_status fulfilling fulfilling = true
same_status fulfilled fulfilled = true
same_status failed failed = true
same_status canceled canceled = true
same_status expired expired = true
same_status _ _ = false

abbrev pub same_refund_status : RefundStatus → RefundStatus → Bool
same_refund_status refunding refunding = true
same_refund_status refunded refunded = true
same_refund_status refund_failed refund_failed = true
same_refund_status _ _ = false

abbrev pub Time : Type 0
Time = ℕ

pub record Refund : Type 0 where
  pub status : RefundStatus
  pub reason : String
  pub failure_reason : String
  pub provider_refunded : Bool
  pub created_at : Time
  pub updated_at : Time

pub record Transaction : Type 0 where
  pub id : String
  pub client_order_id : String
  pub user_id : String
  pub namespace : String
  pub provider_id : String
  pub provider_display_name : String
  pub payment_url : String
  pub item_name : String
  pub item_id : String
  pub quantity : ℤ
  pub region_code : String
  pub amount : ℤ
  pub currency_code : String
  pub provider_tx_id : String
  pub provider_status : String
  pub status : Status
  pub failure_reason : String
  pub refund : Option Refund
  pub retries : ℤ
  pub created_at : Time
  pub expires_at : Time
  pub updated_at : Time
  pub delete_at : Time

pub pending_cases : (u : Transaction) → (u.status ≡ Status.pending) ⊎ (u.status ≢ Status.pending)
pending_cases u = elim (Bool-cases (same_status u.status Status.pending)) [
  | inl e ↦ inl (ground arith)
  | inr e ↦ inr (ground arith)
]
