-- ===== src/Adapter/Generic.antt =====
-- internal/adapter/generic/generic.go and GenericProviderConfig of internal/config/config.go: a
-- provider that is described by its configuration. Templates, JSON paths and the HMACs are
-- parameters.
pub mod Calls
pub mod Signature
pub mod Methods
pub mod Provider
pub mod Settings
use Prim.Native.Char.{Char}
use extend_regional_payment.Prelude.{ℕ, String, List, Option}
use extend_regional_payment.Prelude.Int.{ℤ}
use extend_regional_payment.Prelude.Table.{Table}
use extend_regional_payment.Prelude.Found.{Found}
use extend_regional_payment.Model.{Time}
use extend_regional_payment.Adapter.Effects.{History}
use extend_regional_payment.Adapter.Http.{Send}

pub record Config : Type 0 where
  pub name : String
  pub display_name : String
  pub auth_header : String
  pub auth_value : String
  pub create_intent_url : String
  pub create_intent_body_template : String
  pub payment_url_json_path : String
  pub qr_code_data_json_path : String
  pub provider_tx_id_json_path : String
  pub status_url_template : String
  pub status_method : String
  pub status_payment_status_path : String
  pub status_success_value : String
  pub status_pending_value : String
  pub status_failed_values : List String
  pub status_refund_value : String
  pub status_refund_amount_path : String
  pub status_refund_currency_path : String
  pub webhook_signature_method : String
  pub webhook_signature_secret : String
  pub webhook_signature_header : String
  pub webhook_tx_id_json_path : String
  pub webhook_success_status_path : String
  pub webhook_success_status_value : String
  pub webhook_failed_status_value : String
  pub webhook_timestamp_json_path : String
  pub webhook_timestamp_format : String
  pub refund_url : String
  pub refund_body_template : String
  pub cancel_url_template : String
  pub cancel_method : String
  pub cancel_body_template : String
  pub cancel_status_path : String
  pub cancel_success_values : List String
  pub cancel_expired_values : List String
  pub cancel_paid_values : List String
  pub cancel_pending_values : List String

-- A value of the map that a template is executed with.
pub data Datum : Type 0 where
  text number : String → Datum

-- A template that is parsed is its text. `parse_error` is what template.Parse refuses it with, and
-- `execute` runs it. `json_text` and `json_int` are gjson.Get with String() and Int(), on the path.
-- The HMACs take the key and the message, `text_of` is string(rawBody), `quote` is %q, `decimal` is %d,
-- and `integer` is an int64 as a template prints it.
pub record Api : Type 0 where
  pub cfg : Config
  pub send : Send
  pub now : History → Time
  pub upper_rune : Char → Char
  pub parse_error : String → Option String
  pub execute : (template : String) → Table Datum → Found String
  pub json_text : (body path : String) → String
  pub json_int : (body path : String) → ℤ
  pub text_of : List ℕ → String
  pub hmac_sha256 : String → List ℕ → List ℕ
  pub hmac_sha512 : String → List ℕ → List ℕ
  pub quote : String → String
  pub decimal : ℕ → String
  pub integer : ℤ → String
