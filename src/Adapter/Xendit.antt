-- ===== src/Adapter/Xendit.antt =====
-- internal/adapter/xendit/xendit.go: the adapter's configuration, the messages of the Xendit API, and
-- what the adapter uses of other packages, which is a parameter. A float64 amount is read only
-- through int64(...), and is this integer. New sets both SDK clients.
pub mod Statuses
pub mod Refunds
pub mod Merges
pub mod Calls
pub mod Records
pub mod Sync
pub mod Backed
pub mod Intents
pub mod Webhooks
pub mod Cancels
pub mod Provider
pub mod Settings
use Prim.Native.Char.{Char}
use extend_regional_payment.Prelude.{ℕ, String, List, Option}
use extend_regional_payment.Prelude.Int.{ℤ}
use extend_regional_payment.Prelude.Table.{Table}
use extend_regional_payment.Prelude.Found.{Found}
use extend_regional_payment.Model.{Time}
use extend_regional_payment.Adapter.Effects.{History}
use extend_regional_payment.Adapter.Http.{HttpRequest, HttpResponse}

-- A map[string]struct{} is the list of its keys.
pub record Config : Type 0 where
  pub provider_id : String
  pub display_name : String
  pub secret_api_key : String
  pub callback_token : String
  pub api_base_url : String
  pub default_country : String
  pub allowed_countries : List String
  pub allowed_currencies : List String

pub record PaymentSessionRequest : Type 0 where
  pub reference_id : String
  pub session_type : String
  pub mode : String
  pub amount : ℤ
  pub currency : String
  pub country : String
  pub description : String
  pub success_return_url : String
  pub failure_return_url : String
  pub cancel_return_url : String
  pub expires_at : String
  pub metadata : Table String

pub record PaymentSessionResponse : Type 0 where
  pub id : String
  pub payment_session_id : String
  pub status : String
  pub payment_link_url : String
  pub reference_id : String
  pub amount : ℤ
  pub currency : String
  pub payment_request_id : String
  pub payment_id : String
  pub metadata : Table String

-- The amounts and the metadata of a payment request and of a payment are not read.
pub record PaymentRequestResponse : Type 0 where
  pub id : String
  pub payment_request_id : String
  pub reference_id : String
  pub status : String
  pub currency : String
  pub latest_payment_id : String
  pub failure_code : String

pub record XenditPayment : Type 0 where
  pub payment_id : String
  pub reference_id : String
  pub payment_request_id : String
  pub status : String
  pub currency : String
  pub failure_code : String

pub record TransactionRecord : Type 0 where
  pub id : String
  pub product_id : String
  pub kind : String
  pub status : String
  pub reference_id : String
  pub currency : String
  pub amount : ℤ

pub record RefundRecord : Type 0 where
  pub id : String
  pub status : String
  pub amount : ℤ
  pub currency : String

pub record RefundEvent : Type 0 where
  pub event : String
  pub id : String
  pub status : String
  pub amount : ℤ
  pub currency : String
  pub reference_id : String

-- A transaction as the SDK gives it: its type is one of the SDK's names, or what the union holds
-- else, by its JSON.
pub record SdkTransaction : Type 0 where
  pub id : String
  pub product_id : String
  pub type_name : Option String
  pub type_json : Found String
  pub status : String
  pub reference_id : String
  pub currency : String
  pub amount : ℤ

pub record SdkRefund : Type 0 where
  pub id : String
  pub amount : ℤ
  pub currency : String

pub record CreateRefund : Type 0 where
  pub payment_request_id : String
  pub reference_id : String
  pub amount : ℤ
  pub currency : String
  pub reason : String
  pub metadata : Table String

-- The status of the HTTP response, where there is one, and the error's text.
pub record SdkError : Type 0 where
  pub http_code : Option ℕ
  pub message : String

-- A response without a value is `none`.
pub data SdkAnswer (A : Type 0) : Type 0 where
  sdk_response : Option A → SdkAnswer A
  sdk_error : SdkError → SdkAnswer A

-- What the adapter asks of Xendit: a request of its own, or a call of the SDK.
pub data XenditCall : Type 0 where
  http : HttpRequest → XenditCall
  transactions_by_reference transactions_by_product refunds_of : String → XenditCall
  new_refund : (idempotency_key : String) → CreateRefund → XenditCall

abbrev pub Calls : Type 0
Calls = List XenditCall

-- The calls of the services before, and those of the same method.
abbrev pub Past : Type 0
Past = History × Calls

-- `list_transactions` is GetAllTransactions of payments and refunds, 50 at most, with the filter that
-- the call names; `list_refunds` is GetAllRefunds of a payment request, 100 at most. json.Unmarshal is
-- `decode_*`, `rfc3339` is Time.Format, `quote` is %q, `decimal` is %d, `sorted` is sortedCodes under %v.
-- `through_float` is int64(float64(n)), which is n up to 2^53.
pub record Api : Type 0 where
  pub cfg : Config
  pub send : Past → HttpRequest → Found HttpResponse
  pub list_transactions : Past → XenditCall → SdkAnswer (List SdkTransaction)
  pub list_refunds : Past → (payment_request_id : String) → SdkAnswer (List SdkRefund)
  pub create_refund : Past → (idempotency_key : String) → CreateRefund → Option SdkError
  pub now : Past → Time
  pub upper_rune : Char → Char
  pub through_float : ℤ → ℤ
  pub rfc3339 : Time → String
  pub basic_auth : String → String → String
  pub encode_session : PaymentSessionRequest → String
  pub encode_reason : String → String
  pub decode_session : String → Found PaymentSessionResponse
  pub decode_payment_request : String → Found PaymentRequestResponse
  pub decode_payment : String → Found XenditPayment
  pub decode_session_event : List ℕ → Found PaymentSessionResponse
  pub decode_refund_event : List ℕ → Found RefundEvent
  pub quote : String → String
  pub decimal : ℕ → String
  pub sorted : List String → String
