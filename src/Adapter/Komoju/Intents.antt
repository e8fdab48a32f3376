-- ===== src/Adapter/Komoju/Intents.antt =====
-- internal/adapter/komoju/komoju.go: New, Info, ValidatePaymentInit and CreatePaymentIntent.
use extend_regional_payment.Prelude.{
  ℕ, ◌+◌, ◌*◌, ◌/◌, String, [], ◌∷◌, Option, none, some, ◌==◌, ◌<>◌, ◌||◌, leb, ltb, if◌then◌else◌,
}
use extend_regional_payment.Prelude.Table.{has_key}
use extend_regional_payment.Prelude.Int.{ℤ, pos}
use extend_regional_payment.Prelude.Text.{or_default, trim_space, to_upper}
use extend_regional_payment.Prelude.Found.{found, failed}
use extend_regional_payment.Adapter.Types.{
  PaymentInitRequest, PaymentIntent, ProviderInfo, AdapterError, failure, Answer, answer, error,
}
use extend_regional_payment.Adapter.Effects.{History}
use extend_regional_payment.Adapter.Http.{Requests}
use extend_regional_payment.Adapter.Komoju.{
  Api, Config, CreateSessionRequest, SessionResponse, reply, fault,
}
use extend_regional_payment.Adapter.Komoju.Amounts.{to_komoju_amount}
use extend_regional_payment.Adapter.Komoju.Calls.{do_json, no_session, answer_of}

-- The defaults that New writes into the configuration.
unfoldable pub new_config : Config → Config
new_config cfg = record cfg {
  provider_id = or_default cfg.provider_id "provider_komoju";
  display_name = or_default cfg.display_name "KOMOJU";
  api_base_url = or_default cfg.api_base_url "https://komoju.com";
}

unfoldable pub info : Config → ProviderInfo
info cfg = record { id = cfg.provider_id; display_name = cfg.display_name }

-- The whole seconds of a duration, with the session's limits. Duration.Seconds() is a float64,
-- which int() cuts off: the quotient, for durations below 2^23 seconds.
unfoldable pub expires_in : ℕ → ℕ
expires_in expiry_duration =
    let seconds = expiry_duration / 1000000000 in
    if leb seconds 0 || ltb 86400 seconds then 86400 else seconds

module _ (api : Api) where
  currency_of : PaymentInitRequest → String
  currency_of req = to_upper api.upper_rune (trim_space req.currency_code)

  unfoldable pub validate_payment_init : PaymentInitRequest → Option AdapterError
  unfolding currency_of
  validate_payment_init req =
      if has_key (currency_of req) api.cfg.allowed_currencies
      then elim (to_komoju_amount api req.amount (currency_of req)) [
        | failed e ↦ some (failure e)
        | found amount ↦ none
      ]
      else some (
          failure (
            "komoju currency "
            <> api.quote (currency_of req)
            <> " is not allowed; allowed="
            <> api.sorted api.cfg.allowed_currencies))

  unfoldable pub create_session_request : PaymentInitRequest → ℤ → CreateSessionRequest
  unfolding currency_of
  create_session_request req amount = record {
    mode = "payment";
    amount = amount;
    currency = currency_of req;
    return_url = req.return_url;
    expires_in_seconds = pos (expires_in req.expiry_duration);
    default_locale = api.cfg.default_locale;
    payment_data = record { external_order_num = req.internal_order_id; capture = "auto" };
    metadata =
        ("internalOrderId", req.internal_order_id)
        ∷ ("userId", req.user_id)
        ∷ ("regionCode", to_upper api.upper_rune (trim_space req.region_code))
        ∷ [];
  }

  -- What a created session gives.
  unfoldable pub intent_of :
      History → Requests → PaymentInitRequest → SessionResponse → Answer PaymentIntent
  intent_of h sent req session =
      if session.id == ""
      then error (failure "komoju CreateSession: empty session id")
      else if session.session_url == ""
      then error (failure "komoju CreateSession: empty session_url")
      else answer (record {
        provider_transaction_id = session.id;
        payment_url = session.session_url;
        qr_code_data = "";
        expires_at = api.now h sent + expires_in req.expiry_duration * 1000000000;
      })

  unfoldable pub post_session : History → PaymentInitRequest → ℤ → Answer PaymentIntent
  post_session h req amount =
      let (response, sent) =
        do_json api h no_session api.decode_session [] "POST" "/api/v1/sessions"
          ("session-" <> req.internal_order_id)
          (some (api.encode_session (create_session_request req amount))) in
      elim response [
        | fault e ↦ answer_of api h (fault e)
        | reply session ↦ intent_of h sent req session
      ]

  unfoldable pub create_payment_intent : History → PaymentInitRequest → Answer PaymentIntent
  unfolding currency_of
  create_payment_intent h req = elim (validate_payment_init req) [
    | some e ↦ error e
    | none ↦ elim (to_komoju_amount api req.amount (currency_of req)) [
      | failed e ↦ error (failure e)
      | found amount ↦ post_session h req amount
    ]
  ]
