-- ===== src/Service/Webhook/Success.antt =====
-- The critical path of HandleWebhook: claim, fulfil, commit or reset.
use extend_regional_payment.Prelude.{
  ◌<>◌, String, none, some, ◌≡◌, ◌≢◌, arith, true, false, [], ◌∷◌, ◌++◌, ◌⊎◌, Option-cases, inl,
  inr,
}
use extend_regional_payment.Prelude.Table.{lookup}
use extend_regional_payment.Model.{Status, Transaction}
use extend_regional_payment.Store.Rows.{
  claim_fulfilling_row, commit_fulfilled_row, reset_to_pending_row,
}
use extend_regional_payment.Store.Laws.{row_laws, field_at, result-on_row, on_row_unchanged}
use extend_regional_payment.Adapter.Types.{PaymentResult}
use extend_regional_payment.Adapter.Effects.{fulfill_item, notify}
use extend_regional_payment.Service.World.{World, Env}
use extend_regional_payment.Service.Reply.{reply, fail, internal}
use extend_regional_payment.Service.Webhook.{handle_success}

module _ (env : Env) (result : PaymentResult) (w : World) (u : Transaction)
    (found : lookup result.internal_order_id w.store ≡ some u) where
  -- If AGS grants the item.
  granted :
      u.id ≡ result.internal_order_id
      → u.status ≡ Status.pending
      → env.fulfiller w.history u.user_id u.item_id u.id u.quantity ≡ none
      → let (answer, w') = handle_success env result w in
        (answer ≡ reply (record { message = "ok" }))
        × (field_at (λ t. t.status) result.internal_order_id w'.store ≡ some Status.fulfilled)
        × (field_at (λ t. t.provider_tx_id) result.internal_order_id w'.store
            ≡ some result.provider_transaction_id)
        × (field_at (λ t. t.provider_status) result.internal_order_id w'.store
            ≡ some result.raw_provider_status)
        × (w'.history
            ≡ (w.history ++ (fulfill_item u.user_id u.item_id u.id u.quantity true ∷ []))
              ++ (notify u.user_id u.id "FULFILLED" u.item_id ∷ []))
  unfolding handle_success claim_fulfilling_row commit_fulfilled_row
  granted own p f = grind row_laws

  -- If AGS fails.
  refused :
      (e : String)
      → u.id ≡ result.internal_order_id
      → u.status ≡ Status.pending
      → env.fulfiller w.history u.user_id u.item_id u.id u.quantity ≡ some e
      → let (answer, w') = handle_success env result w in
        (answer ≡ fail internal ("fulfillment failed: " <> e))
        × (field_at (λ t. t.status) result.internal_order_id w'.store ≡ some Status.pending)
        × (field_at (λ t. t.provider_tx_id) result.internal_order_id w'.store
            ≡ some result.provider_transaction_id)
        × (w'.history ≡ w.history ++ (fulfill_item u.user_id u.item_id u.id u.quantity false ∷ []))
  unfolding handle_success claim_fulfilling_row reset_to_pending_row
  refused e own p f = grind row_laws

  -- A success webhook for a pending transaction makes one call of FulfillUserItem, with the
  -- transaction's user, item, id and quantity. If AGS grants the item, the transaction becomes
  -- FULFILLED with the provider's transaction id and raw status, the player is notified, and the
  -- reply is ok. If AGS fails, the reply is an internal error and the transaction is PENDING again,
  -- with the provider's transaction id.
  pub handle_success-pending :
      u.id ≡ result.internal_order_id
      → u.status ≡ Status.pending
      → let (answer, w') = handle_success env result w in
        let ags = env.fulfiller w.history u.user_id u.item_id u.id u.quantity in
        let entry = fulfill_item u.user_id u.item_id u.id u.quantity in
        ((ags ≡ none)
          × (answer ≡ reply (record { message = "ok" }))
          × (field_at (λ t. t.status) result.internal_order_id w'.store ≡ some Status.fulfilled)
          × (field_at (λ t. t.provider_tx_id) result.internal_order_id w'.store
              ≡ some result.provider_transaction_id)
          × (field_at (λ t. t.provider_status) result.internal_order_id w'.store
              ≡ some result.raw_provider_status)
          × (w'.history
              ≡ (w.history ++ (entry true ∷ []))
                ++ (notify u.user_id u.id "FULFILLED" u.item_id ∷ [])))
        ⊎ ((e : String) × (ags ≡ some e)
            × (answer ≡ fail internal ("fulfillment failed: " <> e))
            × (field_at (λ t. t.status) result.internal_order_id w'.store ≡ some Status.pending)
            × (field_at (λ t. t.provider_tx_id) result.internal_order_id w'.store
                ≡ some result.provider_transaction_id)
            × (w'.history ≡ w.history ++ (entry false ∷ [])))
  handle_success-pending own p =
      elim (Option-cases (env.fulfiller w.history u.user_id u.item_id u.id u.quantity)) [
        | inl f ↦ let (a, b, c, d, h) = granted own p f in inl (f, a, b, c, d, h)
        | inr (e, f) ↦ let (a, b, c, d) = refused e own p f in inr (e, f, a, b, c, d)
      ]

  -- A success webhook for a transaction that is not pending is acknowledged and changes nothing.
  pub handle_success-not_pending :
      u.status ≢ Status.pending
      → handle_success env result w ≡ (reply (record { message = "ok" }), w)
  unfolding handle_success claim_fulfilling_row
  handle_success-not_pending ne =
      let row = claim_fulfilling_row result.provider_transaction_id (env.clock w) in
      ground (
        arith,
        result-on_row row w.store result.internal_order_id,
        on_row_unchanged row w.store result.internal_order_id u found,
      )
