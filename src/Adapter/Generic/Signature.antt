-- ===== src/Adapter/Generic/Signature.antt =====
-- internal/adapter/generic/generic.go: ValidateWebhookSignature with computeHMAC.
use extend_regional_payment.Prelude.{
  ℕ, String, List, Bool, Option, none, some, ◌||◌, ◌==◌, ◌<>◌, if◌then◌else◌,
}
use extend_regional_payment.Prelude.Table.{Table}
use extend_regional_payment.Prelude.Text.{to_upper}
use extend_regional_payment.Prelude.Found.{Found, found, failed}
use extend_regional_payment.Adapter.Types.{AdapterError, failure}
use extend_regional_payment.Adapter.Http.{text_at}
use extend_regional_payment.Adapter.Hex.{encode, decode, bytes_of, same_bytes}
use extend_regional_payment.Adapter.Generic.{Api}

module _ (api : Api) where
  unfoldable pub compute_hmac : (method secret : String) → List ℕ → Found String
  compute_hmac method secret body =
      if method == "HMAC_SHA256"
      then found (encode (api.hmac_sha256 secret body))
      else if method == "HMAC_SHA512"
      then found (encode (api.hmac_sha512 secret body))
      else failed ("unsupported signature method: " <> method)

  -- The bytes that the header stands for: those of its hex digits, or its own.
  unfoldable pub provided_bytes : String → List ℕ
  provided_bytes provided = elim (decode provided) [ some bytes ↦ bytes | none ↦ bytes_of provided ]

  -- The three comparisons.
  unfoldable pub matches : (computed provided : String) → Bool
  unfolding provided_bytes
  matches computed provided =
      same_bytes (bytes_of computed) (provided_bytes provided)
      || (encode (bytes_of provided) == computed)
      || (computed == provided)

  unfoldable pub validate_webhook_signature : List ℕ → Table String → Option AdapterError
  validate_webhook_signature raw_body headers =
      let method = to_upper api.upper_rune api.cfg.webhook_signature_method in
      let provided = text_at api.cfg.webhook_signature_header headers in
      if method == "NONE"
      then none
      else if provided == ""
      then some
          (failure ("missing signature header " <> api.quote api.cfg.webhook_signature_header))
      else elim (compute_hmac method api.cfg.webhook_signature_secret raw_body) [
        | failed e ↦ some (failure ("compute hmac: " <> e))
        | found computed ↦
            if matches computed provided then none else some (failure "webhook signature mismatch")
      ]
