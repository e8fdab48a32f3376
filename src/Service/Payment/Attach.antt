-- ===== src/Service/Payment/Attach.antt =====
-- What CreatePaymentForExistingTransaction does with the provider's answer.
use extend_regional_payment.Prelude.{
  String, ◌==◌, ◌≡◌, ◌⊎◌, ◌<>◌, inl, inr, some, none, true, false, ◌++◌, [], ◌∷◌,
}
use extend_regional_payment.Prelude.Table.{lookup}
use extend_regional_payment.Model.{Status, Transaction}
use extend_regional_payment.Store.Rows.{attach_provider_row, mark_failed_row}
use extend_regional_payment.Store.Laws.{row_laws, field_at}
use extend_regional_payment.Adapter.Types.{
  Answer-cases, answer, error, AdapterError, PaymentIntent, adapter_error_text,
}
use extend_regional_payment.Adapter.Effects.{create_intent}
use extend_regional_payment.Adapter.Provider.{PaymentProvider, get}
use extend_regional_payment.Service.World.{World, Env}
use extend_regional_payment.Service.Reply.{
  is_response, reply, fail, unavailable, TransactionStatus, is_response,
}
use extend_regional_payment.Service.Payment.{
  ReturnUrl, init_request, payment_response, pay_at_provider,
}

module _ (env : Env) (return_url : ReturnUrl) (u : Transaction) (provider_id description : String)
    (w : World) (prov : PaymentProvider) (found : lookup u.id w.store ≡ some u)
    (p : u.status ≡ Status.pending) (free : (u.provider_tx_id == "") ≡ true)
    (named : (provider_id == "") ≡ false) (known : get provider_id env.registry ≡ some prov)
    (valid : prov.validate_payment_init (init_request env return_url u provider_id description)
      ≡ none) where
  attach :
      (intent : PaymentIntent)
      → prov.create_payment_intent w.history (init_request env return_url u provider_id description)
        ≡ answer intent
      → let (result, w') = pay_at_provider env return_url u provider_id description w in
        (result ≡ reply (payment_response u intent TransactionStatus.pending))
        × (field_at (λ t. t.status) u.id w'.store ≡ some Status.pending)
        × (field_at (λ t. t.provider_id) u.id w'.store ≡ some provider_id)
        × (field_at (λ t. t.provider_tx_id) u.id w'.store ≡ some intent.provider_transaction_id)
        × (field_at (λ t. t.payment_url) u.id w'.store ≡ some intent.payment_url)
        × (w'.history ≡ w.history ++ (create_intent u.id true ∷ []))
  unfolding pay_at_provider attach_provider_row
  attach intent made = grind row_laws

  -- For a pending transaction without a payment and a known provider that accepts the request, the
  -- provider is asked once. If it makes a payment, the transaction is pending with the provider, its
  -- transaction id and its payment page attached, and the reply shows that page; if it fails, the
  -- transaction is FAILED with the provider's error, and the reply says that it is unavailable.
  pub pay_at_provider-outcomes :
      let (result, w') = pay_at_provider env return_url u provider_id description w in
      let asked =
        prov.create_payment_intent w.history
          (init_request env return_url u provider_id description) in
      ((intent : PaymentIntent) × (asked ≡ answer intent)
        × (result ≡ reply (payment_response u intent TransactionStatus.pending))
        × (field_at (λ t. t.status) u.id w'.store ≡ some Status.pending)
        × (field_at (λ t. t.provider_id) u.id w'.store ≡ some provider_id)
        × (field_at (λ t. t.provider_tx_id) u.id w'.store ≡ some intent.provider_transaction_id)
        × (field_at (λ t. t.payment_url) u.id w'.store ≡ some intent.payment_url)
        × (w'.history ≡ w.history ++ (create_intent u.id true ∷ [])))
      ⊎ ((e : AdapterError) × (asked ≡ error e)
          × (result ≡ fail unavailable ("payment provider unavailable: " <> adapter_error_text e))
          × (field_at (λ t. t.status) u.id w'.store ≡ some Status.failed)
          × (field_at (λ t. t.failure_reason) u.id w'.store
              ≡ some ("payment provider unavailable: " <> adapter_error_text e))
          × (w'.history ≡ w.history ++ (create_intent u.id false ∷ [])))
  unfolding pay_at_provider mark_failed_row
  pay_at_provider-outcomes =
      elim (Answer-cases (
        prov.create_payment_intent w.history
          (init_request env return_url u provider_id description))) [
            | inl (intent, made) ↦
                let (a, b, c, d, f, h) = attach intent made in inl (intent, made, a, b, c, d, f, h)
            | inr (e, bad) ↦
                inr (e, bad, grind row_laws, grind row_laws, grind row_laws, grind row_laws)
          ]
