-- ===== src/Adapter/Komoju.antt =====
-- internal/adapter/komoju/komoju.go: the adapter's configuration, the messages of the KOMOJU API,
-- and what the adapter uses of other packages, which is a parameter.
pub mod Amounts
pub mod Charges
pub mod Statuses
pub mod Calls
pub mod Intents
pub mod Webhooks
pub mod Cancels
pub mod Provider
pub mod Settings
use Prim.Native.Char.{Char}
use extend_regional_payment.Prelude.{ℕ, String, List, Option}
use extend_regional_payment.Prelude.Int.{ℤ}
use extend_regional_payment.Prelude.Table.{Table}
use extend_regional_payment.Prelude.Found.{Found}
use extend_regional_payment.Model.{Time}
use extend_regional_payment.Adapter.Effects.{History}
use extend_regional_payment.Adapter.Http.{Requests, Send}

-- A map[string]struct{} is the list of its keys.
pub record Config : Type 0 where
  pub provider_id : String
  pub display_name : String
  pub secret_key : String
  pub webhook_secret : String
  pub api_version : String
  pub api_base_url : String
  pub default_locale : String
  pub allowed_currencies : List String

pub record PaymentData : Type 0 where
  pub external_order_num : String
  pub capture : String

pub record CreateSessionRequest : Type 0 where
  pub mode : String
  pub amount : ℤ
  pub currency : String
  pub return_url : String
  pub expires_in_seconds : ℤ
  pub default_locale : String
  pub payment_data : PaymentData
  pub metadata : Table String

pub record RefundRequest : Type 0 where
  pub amount : ℤ

pub record PaymentResponse : Type 0 where
  pub id : String
  pub status : String
  pub amount : ℤ
  pub total : ℤ
  pub currency : String
  pub external_order_num : String
  pub metadata : Table String

pub record SessionResponse : Type 0 where
  pub id : String
  pub status : String
  pub amount : ℤ
  pub currency : String
  pub session_url : String
  pub payment : Option PaymentResponse

pub record WebhookEvent : Type 0 where
  pub id : String
  pub type_name : String
  pub resource : String
  pub data_payment : PaymentResponse
  pub created_at : String

-- An `error` of a call: *httpStatusError, or another one by its text.
pub data ApiError : Type 0 where
  http_status : ℕ → String → ApiError
  plain : String → ApiError

pub data Reply (A : Type 0) : Type 0 where
  reply : A → Reply A
  fault : ApiError → Reply A

-- `scale` is money.ParseCurr with Scale(). json.Marshal is `encode_*`, and cannot fail on these
-- types; json.Unmarshal is `decode_*`. `quote` is %q, `decimal` is %d, `sorted` is sortedCodes
-- under %v, and `hmac_sha256` takes the key and the message.
pub record Api : Type 0 where
  pub cfg : Config
  pub send : Send
  pub now : History → Requests → Time
  pub upper_rune : Char → Char
  pub lower_rune : Char → Char
  pub scale : String → Found ℕ
  pub hmac_sha256 : String → List ℕ → List ℕ
  pub basic_auth : String → String → String
  pub encode_session : CreateSessionRequest → String
  pub encode_refund : RefundRequest → String
  pub decode_session : String → Found SessionResponse
  pub decode_payment : String → Found PaymentResponse
  pub decode_object : String → Found (Unit {0})
  pub decode_event : List ℕ → Found WebhookEvent
  pub quote : String → String
  pub decimal : ℕ → String
  pub sorted : List String → String
