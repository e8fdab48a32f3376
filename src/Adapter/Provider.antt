-- ===== src/Adapter/Provider.antt =====
-- internal/adapter/provider.go and registry.go: the PaymentProvider interface and the registry.
-- An adapter is a parameter of the services. What a call returns may depend on all calls before it,
-- so an adapter's methods take the history; the methods that only compute take none.
use extend_regional_payment.Prelude.{ℕ, String, List, Option, [], ◌∷◌}
use extend_regional_payment.Prelude.Int.{ℤ}
use extend_regional_payment.Prelude.Table.{Table, lookup, insert}
use extend_regional_payment.Model.{Transaction}
use extend_regional_payment.Adapter.Types.{
  AdapterError, Answer, PaymentInitRequest, ProviderInfo, PaymentIntent, PaymentResult,
  ProviderPaymentStatus, CancelResult, ProviderSyncResult,
}
use extend_regional_payment.Adapter.Effects.{History}

-- A pointer that the services test for nil is an `Option`.
pub record PaymentProvider : Type 0 where
  pub info : ProviderInfo
  pub validate_payment_init : PaymentInitRequest → Option AdapterError
  pub create_payment_intent : History → PaymentInitRequest → Answer PaymentIntent
  pub get_payment_status : History → String → Answer ProviderPaymentStatus
  pub sync_transaction_status : History → Transaction → Answer (Option ProviderSyncResult)
  pub validate_webhook_signature : List ℕ → Table String → Option AdapterError
  pub handle_webhook : History → List ℕ → Table String → Answer PaymentResult
  pub refund_payment : History → String → String → ℤ → String → Option AdapterError
  pub cancel_payment : History → Transaction → String → Answer (Option CancelResult)

abbrev pub Registry : Type 0
Registry = Table PaymentProvider

unfoldable pub register : PaymentProvider → Registry → Registry
register p r = insert p.info.id p r

-- `none` is the error "unknown payment provider".
abbrev pub get : String → Registry → Option PaymentProvider
get provider_id r = lookup provider_id r

-- The keys of the map, in the order of the list.
unfoldable pub names : Registry → List String
names [] = []
names ((provider_id, _) ∷ r) = provider_id ∷ names r

unfoldable pub infos : Registry → List ProviderInfo
infos [] = []
infos ((_, p) ∷ r) = p.info ∷ infos r
