-- ===== src/Adapter/Komoju/Cancels.antt =====
-- internal/adapter/komoju/komoju.go: SyncTransactionStatus, RefundPayment, CancelPayment and
-- ValidateCredentials. The methods that send several requests give the requests beside the answer.
use extend_regional_payment.Prelude.{
  String, Bool, [], Option, none, some, ◌==◌, ◌<>◌, ◌||◌, true, false, if◌then◌else◌,
}
use extend_regional_payment.Prelude.Int.{ℤ, pos}
use extend_regional_payment.Prelude.Text.{trim_space}
use extend_regional_payment.Prelude.Found.{found, failed}
use extend_regional_payment.Model.{Transaction}
use extend_regional_payment.Adapter.Types.{
  cancel_result, unsupported_sync, PaymentStatus, payment_text, CancelStatus, CancelResult,
  SyncPaymentStatus, SyncRefundStatus, ProviderPaymentStatus, ProviderSyncResult, AdapterError,
  failure, Answer, answer,
}
use extend_regional_payment.Adapter.Effects.{History}
use extend_regional_payment.Adapter.SyncStatus.{sync_payment_status, sync_refund_status}
use extend_regional_payment.Adapter.Http.{Requests}
use extend_regional_payment.Adapter.Komoju.{
  Api, ApiError, http_status, plain, Reply, reply, fault, PaymentResponse, SessionResponse,
}
use extend_regional_payment.Adapter.Komoju.Amounts.{to_komoju_amount}
use extend_regional_payment.Adapter.Komoju.Statuses.{map_komoju_cancel_status}
use extend_regional_payment.Adapter.Komoju.Calls.{
  do_json, no_session, no_payment, error_text, is_http_status, get_payment_status, answer_of,
}

is_refunded : SyncRefundStatus → Bool
is_refunded SyncRefundStatus.refunded = true
is_refunded _ = false

-- The synced statuses of a payment: a refunded one is paid, and refunded in full.
unfoldable pub sync_result : Transaction → ProviderPaymentStatus → ProviderSyncResult
unfolding is_refunded
sync_result tx ps =
    let refunded = is_refunded (sync_refund_status ps.status) in
    record {
      provider_tx_id = ps.provider_tx_id;
      payment_status = if refunded then SyncPaymentStatus.paid else sync_payment_status ps.status;
      refund_status = sync_refund_status ps.status;
      raw_payment_status = payment_text ps.status;
      raw_refund_status = payment_text ps.status;
      refund_amount = if refunded then tx.amount else pos 0;
      refund_currency_code = if refunded then tx.currency_code else "";
      message = "komoju payment status synced";
    }

module _ (api : Api) (h : History) where
  unfoldable pub sync_transaction_status : Transaction → Answer (Option ProviderSyncResult)
  sync_transaction_status tx =
      if trim_space tx.provider_tx_id == ""
      then answer (some (unsupported_sync "" "missing provider transaction id"))
      else elim ((get_payment_status api h [] tx.provider_tx_id).0) [
        | fault e ↦ answer_of api h (fault e)
        | reply ps ↦ answer (some (sync_result tx ps))
      ]

  unfoldable pub refund_payment :
      (internal_order_id provider_tx_id : String) → ℤ → String → Option AdapterError
  refund_payment internal_order_id provider_tx_id amount currency_code =
      elim (to_komoju_amount api amount currency_code) [
        | failed e ↦ some (failure e)
        | found refund_amount ↦
            elim ((do_json api h tt api.decode_object [] "POST"
              ("/api/v1/payments/" <> provider_tx_id <> "/refund") ("refund-" <> internal_order_id)
              (some (api.encode_refund (record { amount = refund_amount })))).0) [
                | fault e ↦ some (failure (error_text api.decimal e))
                | reply out ↦ none
              ]
      ]

  unfoldable pub cancel_result_from_komoju_payment : PaymentResponse → CancelResult
  cancel_result_from_komoju_payment payment =
      cancel_result (map_komoju_cancel_status api.lower_rune payment.status) payment.status
        payment.id "" ""

  bare_session_result : String → SessionResponse → CancelResult
  bare_session_result fallback_tx_id session =
      cancel_result (map_komoju_cancel_status api.lower_rune session.status) session.status
        fallback_tx_id "" ""

  unfoldable pub cancel_result_from_komoju_session : String → SessionResponse → CancelResult
  unfolding bare_session_result
  cancel_result_from_komoju_session fallback_tx_id session = elim session.payment [
    | none ↦ bare_session_result fallback_tx_id session
    | some payment ↦
        if payment.id == ""
        then bare_session_result fallback_tx_id session
        else cancel_result_from_komoju_payment payment
  ]

  -- POST /api/v1/payments/{id}/cancel, for a payment that is still open.
  unfoldable pub cancel_open_payment :
      Requests → Transaction → ProviderPaymentStatus → Reply CancelResult × Requests
  cancel_open_payment sent tx status =
      let payment_id =
        if status.provider_tx_id == "" then tx.provider_tx_id else status.provider_tx_id in
      let (response, sent') =
        do_json api h no_payment api.decode_payment sent "POST"
          ("/api/v1/payments/" <> payment_id <> "/cancel") ("cancel-" <> tx.id) none in
      (
        elim response [
          | fault e ↦ fault e
          | reply payment ↦ reply (cancel_result_from_komoju_payment payment)
        ],
        sent',
      )

  settled : Requests → ProviderPaymentStatus → CancelStatus → Reply CancelResult × Requests
  settled sent ps status =
      (reply (cancel_result status (payment_text ps.status) ps.provider_tx_id "" ""), sent)

  -- What the payment's own status says of a session that cannot be canceled.
  unfoldable pub cancel_by_status :
      Requests → Transaction → ProviderPaymentStatus → Reply CancelResult × Requests
  unfolding settled
  cancel_by_status sent tx ps = elim ps.status [
    | PaymentStatus.success ↦ settled sent ps CancelStatus.already_paid
    | PaymentStatus.refunded ↦ settled sent ps CancelStatus.already_paid
    | PaymentStatus.failed ↦ settled sent ps CancelStatus.canceled
    | PaymentStatus.canceled ↦ settled sent ps CancelStatus.canceled
    | PaymentStatus.expired ↦ settled sent ps CancelStatus.expired
    | _ ↦ cancel_open_payment sent tx ps
  ]

  -- A session that KOMOJU refuses to cancel, or does not know.
  unfoldable pub cancel_refused : Requests → Transaction → ApiError → Reply CancelResult × Requests
  cancel_refused sent tx e =
      let (status, sent') = get_payment_status api h sent tx.provider_tx_id in
      elim status [
        | fault status_error ↦ (
          reply
              (cancel_result CancelStatus.failed "cancel_failed" "" "" (error_text api.decimal e)),
          sent',
        )
        | reply ps ↦ cancel_by_status sent' tx ps
      ]

  unfoldable pub cancel_requests : Transaction → Reply CancelResult × Requests
  cancel_requests tx =
      let (response, sent) =
        do_json api h no_session api.decode_session [] "POST"
          ("/api/v1/sessions/" <> tx.provider_tx_id <> "/cancel") ("cancel-" <> tx.id) none in
      elim response [
        | reply session ↦
            (reply (cancel_result_from_komoju_session tx.provider_tx_id session), sent)
        | fault e ↦
            if is_http_status e 422 || is_http_status e 404
            then cancel_refused sent tx e
            else (fault e, sent)
      ]

  unfoldable pub cancel_payment : Transaction → String → Answer (Option CancelResult)
  cancel_payment tx reason = elim ((cancel_requests tx).0) [
    | fault e ↦ answer_of api h (fault e)
    | reply result ↦ answer (some result)
  ]

  unfoldable pub validate_credentials : Option AdapterError
  validate_credentials =
      elim ((do_json api h tt api.decode_object [] "GET" "/api/v1/payments?per_page=1" "" none).0) [
        | reply out ↦ none
        | fault (http_status code body) ↦
            let e = http_status code body in
            some (
              failure (
                if is_http_status e 401 || is_http_status e 403
                then "komoju ValidateCredentials: HTTP "
                  <> api.decimal code
                  <> " - check KOMOJU_SECRET_KEY"
                else error_text api.decimal e))
        | fault (plain e) ↦ some (failure e)
      ]
