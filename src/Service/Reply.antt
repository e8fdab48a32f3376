-- ===== src/Service/Reply.antt =====
-- The replies of the gRPC handlers: a response, or a status with its code and message; and the
-- protobuf views of a transaction (pkg/service/payment.go).
use extend_regional_payment.Prelude.{String, Bool, true, false, Option, none, some}
use extend_regional_payment.Prelude.Int.{ℤ}
use extend_regional_payment.Model.{Time, Status, Refund, Transaction, refund_text}

-- google.golang.org/grpc/codes, those in use. gRPC sends an error that is no status as `unknown`.
pub data Code : Type 0 where
  invalid_argument not_found permission_denied resource_exhausted : Code
  failed_precondition internal unavailable unauthenticated unknown : Code

pub data Reply (A : Type 0) : Type 0 where
  reply : A → Reply A
  fail : Code → String → Reply A

-- Whether it is a response and no error.
abbrev pub is_response : {A : Type 0} → Reply A → Bool
is_response (reply _) = true
is_response (fail _ _) = false

-- pb.TransactionStatus
pub data TransactionStatus : Type 0 where
  unspecified pending fulfilling fulfilled failed canceled expired : TransactionStatus

unfoldable pub map_status : Status → TransactionStatus
map_status Status.pending = TransactionStatus.pending
map_status Status.fulfilling = TransactionStatus.fulfilling
map_status Status.fulfilled = TransactionStatus.fulfilled
map_status Status.failed = TransactionStatus.failed
map_status Status.canceled = TransactionStatus.canceled
map_status Status.expired = TransactionStatus.expired

-- `none` is the empty string, which filters by no status.
unfoldable pub status_filter_string : TransactionStatus → Option Status
status_filter_string TransactionStatus.unspecified = none
status_filter_string TransactionStatus.pending = some Status.pending
status_filter_string TransactionStatus.fulfilling = some Status.fulfilling
status_filter_string TransactionStatus.fulfilled = some Status.fulfilled
status_filter_string TransactionStatus.failed = some Status.failed
status_filter_string TransactionStatus.canceled = some Status.canceled
status_filter_string TransactionStatus.expired = some Status.expired

pub record TransactionResponse : Type 0 where
  pub transaction_id : String
  pub user_id : String
  pub namespace : String
  pub provider_id : String
  pub provider_display_name : String
  pub amount : ℤ
  pub currency_code : String
  pub region_code : String
  pub item_name : String
  pub item_id : String
  pub quantity : ℤ
  pub status : TransactionStatus
  pub provider_tx_id : String
  pub provider_status : String
  pub failure_reason : String
  pub payment_url : String
  pub created_at : Time
  pub expires_at : Time
  pub updated_at : Time
  pub refund_status : String
  pub refund_reason : String
  pub refund_failure_reason : String

refund_field : (Refund → String) → Option Refund → String
refund_field f none = ""
refund_field f (some r) = f r

unfoldable pub tx_to_transaction_response : Transaction → TransactionResponse
unfolding map_status refund_field
tx_to_transaction_response tx = record {
  transaction_id = tx.id;
  user_id = tx.user_id;
  namespace = tx.namespace;
  provider_id = tx.provider_id;
  provider_display_name = tx.provider_display_name;
  amount = tx.amount;
  currency_code = tx.currency_code;
  region_code = tx.region_code;
  item_name = tx.item_name;
  item_id = tx.item_id;
  quantity = tx.quantity;
  status = map_status tx.status;
  provider_tx_id = tx.provider_tx_id;
  provider_status = tx.provider_status;
  failure_reason = tx.failure_reason;
  payment_url = tx.payment_url;
  created_at = tx.created_at;
  expires_at = tx.expires_at;
  updated_at = tx.updated_at;
  refund_status = refund_field (λ r. refund_text r.status) tx.refund;
  refund_reason = refund_field (λ r. r.reason) tx.refund;
  refund_failure_reason = refund_field (λ r. r.failure_reason) tx.refund;
}
