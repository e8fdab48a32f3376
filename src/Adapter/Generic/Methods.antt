-- ===== src/Adapter/Generic/Methods.antt =====
-- internal/adapter/generic/generic.go: the methods that ask the provider, and HandleWebhook.
use extend_regional_payment.Prelude.{
  ℕ, ◌+◌, ◌/◌, String, List, [], ◌∷◌, Bool, Option, none, some, not, ◌&&◌, ◌==◌, ◌<>◌,
  if◌then◌else◌,
}
use extend_regional_payment.Prelude.Int.{ℤ, pos, ltb_ℤ}
use extend_regional_payment.Prelude.Table.{Table}
use extend_regional_payment.Prelude.Text.{or_default, trim_space}
use extend_regional_payment.Prelude.Found.{Found, found, failed}
use extend_regional_payment.Model.{Transaction}
use extend_regional_payment.Adapter.Types.{
  cancel_result, unsupported_sync, PaymentInitRequest, PaymentIntent, PaymentResult, ProviderInfo,
  ProviderPaymentStatus, SyncPaymentStatus, SyncRefundStatus, ProviderSyncResult, CancelStatus,
  CancelResult, AdapterError, not_supported, failure, Answer, answer, error,
}
use extend_regional_payment.Adapter.Effects.{History}
use extend_regional_payment.Adapter.Http.{is_denied}
use extend_regional_payment.Adapter.SyncStatus.{sync_payment_status}
use extend_regional_payment.Adapter.Generic.{Config, Api, Datum, text, number}
use extend_regional_payment.Adapter.Generic.Calls.{
  map_status, map_webhook_status, map_cancel_status, new_request, do_request,
}

unfoldable pub info : Config → ProviderInfo
info cfg = record { id = cfg.name; display_name = cfg.display_name }

module _ (api : Api) where
  -- gjson.Get where the path is given.
  unfoldable pub optional_text : (body path : String) → String
  optional_text body path = if path == "" then "" else api.json_text body path

  unfoldable pub handle_webhook : List ℕ → Answer PaymentResult
  handle_webhook raw_body =
      let body = api.text_of raw_body in
      let tx_id = api.json_text body api.cfg.webhook_tx_id_json_path in
      let value = api.json_text body api.cfg.webhook_success_status_path in
      if tx_id == ""
      then error (
          failure (
            "webhook missing transaction ID at path " <> api.quote api.cfg.webhook_tx_id_json_path))
      else answer (record {
        provider_transaction_id = tx_id;
        internal_order_id = tx_id;
        status = map_webhook_status api.cfg value;
        raw_provider_status = value;
        amount = pos 0;
        currency_code = "";
        failure_reason = "";
      })

  -- The synced result of a status response: a refund that is paid back in part is told by its amount.
  refund_amount_of : (body : String) → ℤ
  refund_amount_of body =
      if api.cfg.status_refund_amount_path == ""
      then pos 0
      else api.json_int body api.cfg.status_refund_amount_path

  is_refund_value : String → Bool
  is_refund_value value =
      not (api.cfg.status_refund_value == "") && (value == api.cfg.status_refund_value)

  unfoldable pub sync_of_body : Transaction → (body : String) → ProviderSyncResult
  unfolding refund_amount_of is_refund_value
  sync_of_body tx body =
      let value = api.json_text body api.cfg.status_payment_status_path in
      let amount = refund_amount_of body in
      record {
        provider_tx_id = tx.provider_tx_id;
        payment_status =
            if is_refund_value value
            then SyncPaymentStatus.paid
            else sync_payment_status (map_status api.cfg value);
        refund_status =
            if ltb_ℤ (pos 0) amount && ltb_ℤ amount tx.amount
            then SyncRefundStatus.partial_refunded
            else if is_refund_value value
            then SyncRefundStatus.refunded
            else SyncRefundStatus.none;
        raw_payment_status = value;
        raw_refund_status = value;
        refund_amount = amount;
        refund_currency_code = optional_text body api.cfg.status_refund_currency_path;
        message = "generic provider status synced";
      }

module _ (api : Api) (h : History) where
  unfoldable pub intent_of_body : PaymentInitRequest → (body : String) → PaymentIntent
  intent_of_body req body = record {
    provider_transaction_id = api.json_text body api.cfg.provider_tx_id_json_path;
    payment_url = api.json_text body api.cfg.payment_url_json_path;
    qr_code_data = optional_text api body api.cfg.qr_code_data_json_path;
    expires_at = api.now h + req.expiry_duration;
  }

  -- The whole seconds of the duration, for durations below 2^23 seconds.
  create_data : PaymentInitRequest → Table Datum
  create_data req =
      ("OrderID", text req.internal_order_id)
      ∷ ("Amount", number (api.integer req.amount))
      ∷ ("CurrencyCode", text req.currency_code)
      ∷ ("CallbackURL", text req.callback_url)
      ∷ ("Description", text req.description)
      ∷ ("ExpirySeconds", number (api.decimal (req.expiry_duration / 1000000000)))
      ∷ []

  unfoldable pub create_payment_intent : PaymentInitRequest → Answer PaymentIntent
  unfolding create_data
  create_payment_intent req =
      elim (api.execute api.cfg.create_intent_body_template (create_data req)) [
        | failed e ↦ error (failure ("render create body: " <> e))
        | found body ↦ elim (do_request api h "POST" api.cfg.create_intent_url body) [
          | failed e ↦ error (failure ("create intent request: " <> e))
          | found response ↦ answer (intent_of_body req response)
        ]
      ]

  -- The body of the response to the status query.
  query_status : (provider_tx_id : String) → Found String
  query_status provider_tx_id =
      elim (api.execute api.cfg.status_url_template (("ProviderTxID", text provider_tx_id) ∷ [])) [
        | failed e ↦ failed ("render status URL: " <> e)
        | found url ↦ elim (do_request api h (or_default api.cfg.status_method "GET") url "") [
          | failed e ↦ failed ("status request: " <> e)
          | found body ↦ found body
        ]
      ]

  unfoldable pub get_payment_status : (provider_tx_id : String) → Answer ProviderPaymentStatus
  unfolding query_status
  get_payment_status provider_tx_id =
      if api.cfg.status_url_template == ""
      then error not_supported
      else elim (query_status provider_tx_id) [
        | failed e ↦ error (failure e)
        | found body ↦ answer (record {
          provider_tx_id = provider_tx_id;
          status = map_status api.cfg (api.json_text body api.cfg.status_payment_status_path);
          amount = pos 0;
          currency_code = "";
          failure_reason = "";
        })
      ]

  unfoldable pub sync_transaction_status : Transaction → Answer (Option ProviderSyncResult)
  unfolding query_status
  sync_transaction_status tx =
      if trim_space tx.provider_tx_id == ""
      then answer (some (unsupported_sync "" "missing provider transaction id"))
      else if api.cfg.status_url_template == ""
      then answer (
          some
            (unsupported_sync tx.provider_tx_id "generic provider status query is not configured"))
      else elim (query_status tx.provider_tx_id) [
        | failed e ↦ error (failure e)
        | found body ↦ answer (some (sync_of_body api tx body))
      ]

  unfoldable pub refund_payment :
      (internal_order_id provider_tx_id : String) → ℤ → String → Option AdapterError
  refund_payment internal_order_id provider_tx_id amount currency_code =
      elim (api.execute api.cfg.refund_body_template (
        ("OrderID", text internal_order_id)
        ∷ ("Amount", number (api.integer amount))
        ∷ ("CurrencyCode", text currency_code)
        ∷ ("ProviderTxID", text provider_tx_id)
        ∷ [])) [
          | failed e ↦ some (failure ("render refund body: " <> e))
          | found body ↦ elim (do_request api h "POST" api.cfg.refund_url body) [
            | failed e ↦ some (failure e)
            | found response ↦ none
          ]
        ]

  cancel_data : Transaction → (reason : String) → Table Datum
  cancel_data tx reason =
      ("OrderID", text tx.id)
      ∷ ("Amount", number (api.integer tx.amount))
      ∷ ("CurrencyCode", text tx.currency_code)
      ∷ ("ProviderTxID", text tx.provider_tx_id)
      ∷ ("Reason", text reason)
      ∷ []

  cancel_body : Transaction → (reason : String) → Found String
  unfolding cancel_data
  cancel_body tx reason =
      if api.cfg.cancel_body_template == ""
      then found ""
      else elim (api.execute api.cfg.cancel_body_template (cancel_data tx reason)) [
        | failed e ↦ failed ("render cancel body: " <> e)
        | found body ↦ found body
      ]

  request_cancel : Transaction → (reason : String) → Found String
  unfolding cancel_data cancel_body
  request_cancel tx reason =
      elim (api.execute api.cfg.cancel_url_template (cancel_data tx reason)) [
        | failed e ↦ failed ("render cancel URL: " <> e)
        | found url ↦ elim (cancel_body tx reason) [
          | failed e ↦ failed e
          | found body ↦ do_request api h (or_default api.cfg.cancel_method "POST") url body
        ]
      ]

  unfoldable pub cancel_payment : Transaction → (reason : String) → Answer (Option CancelResult)
  unfolding request_cancel
  cancel_payment tx reason =
      if api.cfg.cancel_url_template == ""
      then answer (
          some (
            cancel_result CancelStatus.unsupported "" "" "generic provider cancel is not configured"
              ""))
      else elim (request_cancel tx reason) [
        | failed e ↦ error (failure e)
        | found body ↦
            let value = optional_text api body api.cfg.cancel_status_path in
            answer (
              some (
                cancel_result (map_cancel_status api.cfg value) value tx.provider_tx_id
                  "generic provider cancel completed" ""))
      ]

  unfoldable pub validate_credentials : Option AdapterError
  validate_credentials = elim (api.send h [] (new_request api "GET" api.cfg.create_intent_url "")) [
    | failed e ↦ some (failure e)
    | found response ↦
        let code = response.status_code in
        if is_denied code
        then some (failure ("credential validation failed: HTTP " <> api.decimal code))
        else none
  ]
