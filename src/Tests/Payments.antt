-- ===== src/Tests/Payments.antt =====
-- Payments for existing transactions at concrete inputs.
use extend_regional_payment.Prelude.{◌<>◌, ◌≡◌, ◌⊎◌, some, refl, true, false, [], ◌∷◌, ◌++◌}
use extend_regional_payment.Prelude.Table.{lookup}
use extend_regional_payment.Model.{Status}
use extend_regional_payment.Store.Laws.{field_at}
use extend_regional_payment.Adapter.Types.{
  answer, error, AdapterError, PaymentIntent, adapter_error_text,
}
use extend_regional_payment.Adapter.Effects.{create_intent}
use extend_regional_payment.Service.World.{World}
use extend_regional_payment.Service.Reply.{reply, fail, unavailable, TransactionStatus}
use extend_regional_payment.Service.Handler.{Context}
use extend_regional_payment.Service.Payment.{
  ReturnUrl, init_request, payment_response, pay_at_provider,
}
use extend_regional_payment.Service.Payment.Attach.{pay_at_provider-outcomes}
use extend_regional_payment.Tests.Fixture.{env, xendit, pending_gem, world_of}

abbrev return_page : ReturnUrl
return_page page transaction_id = page <> "?transactionId=" <> transaction_id

pay_at_provider-outcomes_example :
    let u = pending_gem in
    let w = world_of pending_gem in
    let (result, w') = pay_at_provider env return_page u "xendit" "a gem" w in
    let asked =
      xendit.create_payment_intent w.history (init_request env return_page u "xendit" "a gem") in
    ((intent : PaymentIntent) × (asked ≡ answer intent)
      × (result ≡ reply (payment_response u intent TransactionStatus.pending))
      × (field_at (λ t. t.status) u.id w'.store ≡ some Status.pending)
      × (field_at (λ t. t.provider_id) u.id w'.store ≡ some "xendit")
      × (field_at (λ t. t.provider_tx_id) u.id w'.store ≡ some intent.provider_transaction_id)
      × (field_at (λ t. t.payment_url) u.id w'.store ≡ some intent.payment_url)
      × (w'.history ≡ w.history ++ (create_intent u.id true ∷ [])))
    ⊎ ((e : AdapterError) × (asked ≡ error e)
        × (result ≡ fail unavailable ("payment provider unavailable: " <> adapter_error_text e))
        × (field_at (λ t. t.status) u.id w'.store ≡ some Status.failed)
        × (field_at (λ t. t.failure_reason) u.id w'.store
            ≡ some ("payment provider unavailable: " <> adapter_error_text e))
        × (w'.history ≡ w.history ++ (create_intent u.id false ∷ [])))
unfolding lookup
pay_at_provider-outcomes_example =
    pay_at_provider-outcomes env return_page pending_gem "xendit" "a gem" (world_of pending_gem)
      xendit refl refl refl refl refl refl

abbrev alice : Context
alice = some (("x-auth-user-id", "alice" ∷ []) ∷ [])

-- A transaction that waits for its payment at the provider.
abbrev waiting : World
waiting = world_of (record pending_gem { provider_tx_id = "x-9" })
