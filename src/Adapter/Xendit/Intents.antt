-- ===== src/Adapter/Xendit/Intents.antt =====
-- internal/adapter/xendit/xendit.go: New, Info, ValidatePaymentInit and CreatePaymentIntent.
use Prim.Native.Char.{Char, code}
use extend_regional_payment.Prelude.{
  ℕ, ◌+◌, String, Bool, [], ◌∷◌, Option, none, some, ◌&&◌, ◌||◌, ◌==◌, ◌<>◌, leb, if◌then◌else◌,
}
use extend_regional_payment.Prelude.Table.{has_key}
use extend_regional_payment.Prelude.Text.{or_default, trim_space}
use extend_regional_payment.Prelude.Found.{Found, found, failed}
use extend_regional_payment.Adapter.Types.{
  PaymentInitRequest, PaymentIntent, ProviderInfo, AdapterError, failure, Answer,
}
use extend_regional_payment.Adapter.Effects.{History}
use extend_regional_payment.Adapter.Xendit.{
  Api, Config, PaymentSessionRequest, PaymentSessionResponse,
}
use extend_regional_payment.Adapter.Xendit.Statuses.{normal}
use extend_regional_payment.Adapter.Xendit.Calls.{
  Call, pure, raise, labelled, ◌>>=◌, answer_of, no_session, payment_session_id, do_json,
}

-- The defaults that New writes into the configuration.
unfoldable pub new_config : Config → Config
new_config cfg = record cfg {
  provider_id = or_default cfg.provider_id "provider_xendit";
  display_name = or_default cfg.display_name "Xendit";
}

unfoldable pub info : Config → ProviderInfo
info cfg = record { id = cfg.provider_id; display_name = cfg.display_name }

is_separator : ℕ → Bool
is_separator n = (leb 45 n && leb n 45) || (leb 95 n && leb n 95)

-- The text before the first `-` or `_`.
before_separator : String → String
before_separator String.[] = String.[]
before_separator (String.◌∷◌ c s) =
    let rest = before_separator s in if is_separator (code c) then String.[] else String.◌∷◌ c rest

unfoldable pub normalize_region_code : (Char → Char) → String → String
unfolding before_separator is_separator
normalize_region_code upper_rune region_code =
    let region = normal upper_rune region_code in or_default (before_separator region) region

module _ (api : Api) where
  unfoldable pub resolve_country : String → Found String
  resolve_country region_code =
      let country =
        or_default (normalize_region_code api.upper_rune region_code) api.cfg.default_country in
      if has_key country api.cfg.allowed_countries
      then found country
      else failed (
          "xendit country "
          <> api.quote country
          <> " is not allowed; allowed="
          <> api.sorted api.cfg.allowed_countries)

  -- The checks of buildCreatePaymentSessionRequest, with the country that they find.
  unfoldable pub check_request : PaymentInitRequest → Found String
  check_request req = elim (resolve_country req.region_code) [
    | failed e ↦ failed e
    | found country ↦
        if has_key (normal api.upper_rune req.currency_code) api.cfg.allowed_currencies
        then found country
        else failed (
            "xendit currency "
            <> api.quote (normal api.upper_rune req.currency_code)
            <> " is not allowed; allowed="
            <> api.sorted api.cfg.allowed_currencies)
  ]

  -- The request that ValidatePaymentInit builds is dropped.
  unfoldable pub validate_payment_init : PaymentInitRequest → Option AdapterError
  validate_payment_init req = elim (check_request req) [
    | failed e ↦ some (failure e)
    | found country ↦ none
  ]

module _ (api : Api) (h : History) where
  -- The clock is read before the first call.
  unfoldable pub expiry : PaymentInitRequest → ℕ
  expiry req = api.now (h, []) + req.expiry_duration

  unfoldable pub build_create_payment_session_request :
      PaymentInitRequest → (country : String) → PaymentSessionRequest
  build_create_payment_session_request req country = record {
    reference_id = req.internal_order_id;
    session_type = "PAY";
    mode = "PAYMENT_LINK";
    amount = req.amount;
    currency = normal api.upper_rune req.currency_code;
    country = country;
    description = or_default (trim_space req.description) "Payment";
    success_return_url = req.return_url;
    failure_return_url = req.return_url;
    cancel_return_url = req.return_url;
    expires_at = api.rfc3339 (expiry req);
    metadata =
        ("internalOrderId", req.internal_order_id)
        ∷ ("userId", req.user_id)
        ∷ ("country", country)
        ∷ ("regionCode", normalize_region_code api.upper_rune req.region_code)
        ∷ [];
  }

  -- What a created session gives.
  unfoldable pub intent_of : PaymentInitRequest → PaymentSessionResponse → Call PaymentIntent
  intent_of req session =
      if payment_session_id session == ""
      then raise "xendit CreatePaymentSession: empty session id"
      else if session.payment_link_url == ""
      then raise "xendit CreatePaymentSession: empty payment_link_url"
      else pure (record {
        provider_transaction_id = payment_session_id session;
        payment_url = session.payment_link_url;
        qr_code_data = "";
        expires_at = expiry req;
      })

  unfoldable pub post_session : PaymentInitRequest → (country : String) → Call PaymentIntent
  post_session req country = do
    session ← labelled "xendit CreatePaymentSession" (
        do_json api h no_session api.decode_session "POST" "/sessions"
          (some (api.encode_session (build_create_payment_session_request req country))))
    intent_of req session

  unfoldable pub create_payment_intent : PaymentInitRequest → Answer PaymentIntent
  create_payment_intent req = elim (check_request api req) [
    | failed e ↦ answer_of (raise e [])
    | found country ↦ answer_of (post_session req country [])
  ]
