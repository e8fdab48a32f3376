-- ===== src/Service/Webhook/Report.antt =====
-- HandleWebhook on what a provider reports of a payment that did not succeed, or was paid back.
use extend_regional_payment.Prelude.{
  String, ◌≡◌, ◌≢◌, ◌⊎◌, inl, inr, some, true, false, refl, arith, Bool, ◌++◌, [], ◌∷◌, eq_iff,
}
use extend_regional_payment.Prelude.{Option-cases, if◌then◌else◌}
use extend_regional_payment.Prelude.{eq_iff, ◌&&◌}
use extend_regional_payment.Model.{pending_cases, same_status}
use extend_regional_payment.Service.World.{add_days}
use extend_regional_payment.Store.Laws.{row_laws, map_option}
use extend_regional_payment.Prelude.Table.{lookup}
use extend_regional_payment.Model.{Status, RefundStatus, Transaction}
use extend_regional_payment.Store.Rows.{
  mark_failed_row, mark_terminal_if_pending_row, claim_external_refunding_row, commit_refund_row,
  mark_refund_failed_row, is_refund_claimable,
}
use extend_regional_payment.Store.Laws.{
  field_at, lookup-on_row, result-on_row, on_row_unchanged, map_option,
}
use extend_regional_payment.Adapter.Types.{PaymentResult, PaymentStatus}
use extend_regional_payment.Adapter.Effects.{notify, reverse_fulfillment}
use extend_regional_payment.Service.World.{World, Env, FulfillmentReverser}
use extend_regional_payment.Service.Reply.{is_response, reply}
use extend_regional_payment.Service.Refund.{reverse_ags_refund}
use extend_regional_payment.Service.Webhook.{handle_result, handle_provider_refund}

module _ (env : Env) (result : PaymentResult) (w : World) (u : Transaction)
    (found : lookup result.internal_order_id w.store ≡ some u) where
  -- A webhook that reports a failed payment marks the transaction FAILED, with the provider's
  -- reason, whatever its status was, a fulfilled one included; it changes no other transaction, and
  -- tells the player.
  pub handle_result-failed :
      (k : String)
      → k ≢ result.internal_order_id
      → let (answer, w') = handle_result env result PaymentStatus.failed w in
        (answer ≡ reply (record { message = "payment failed" }))
        × (field_at (λ t. t.status) result.internal_order_id w'.store ≡ some Status.failed)
        × (field_at (λ t. t.failure_reason) result.internal_order_id w'.store
            ≡ some result.failure_reason)
        × (lookup k w'.store ≡ lookup k w.store)
        × (w'.history ≡ w.history ++ (notify u.user_id u.id "FAILED" u.item_id ∷ []))
  unfolding handle_result mark_failed_row
  handle_result-failed k ne = (
    refl,
    grind row_laws,
    grind row_laws,
    grind (arith, lookup-on_row, result-on_row, eq_iff),
    grind row_laws,
  )

  -- A webhook that reports an expired or canceled payment ends a pending transaction as EXPIRED or
  -- CANCELED; one that is not pending it leaves, with the whole store, as it was.
  pub handle_result-terminal :
      (is_expired : Bool)
      → let report = if is_expired then PaymentStatus.expired else PaymentStatus.canceled in
        let final = if is_expired then Status.expired else Status.canceled in
        let (_, w') = handle_result env result report w in
        ((u.status ≡ Status.pending)
          × (field_at (λ t. t.status) result.internal_order_id w'.store ≡ some final)
          × (field_at (λ t. t.failure_reason) result.internal_order_id w'.store
              ≡ some result.failure_reason))
        ⊎ ((u.status ≢ Status.pending) × (w'.store ≡ w.store))
  unfolding handle_result mark_terminal_if_pending_row
  handle_result-terminal true = elim (pending_cases u) [
    | inl p ↦ inl (p, grind row_laws, grind row_laws)
    | inr n ↦ inr (
      n,
      ground (
        arith,
        on_row_unchanged
            (mark_terminal_if_pending_row Status.expired result.failure_reason
              result.raw_provider_status (add_days (env.clock w) env.cfg.record_retention_days)
              (env.clock w))
            w.store result.internal_order_id u found,
      ),
    )
  ]
  handle_result-terminal false = elim (pending_cases u) [
    | inl p ↦ inl (p, grind row_laws, grind row_laws)
    | inr n ↦ inr (
      n,
      ground (
        arith,
        on_row_unchanged
            (mark_terminal_if_pending_row Status.canceled result.failure_reason
              result.raw_provider_status (add_days (env.clock w) env.cfg.record_retention_days)
              (env.clock w))
            w.store result.internal_order_id u found,
      ),
    )
  ]

  -- Whether the provider's report of a refund is taken up: only for a fulfilled transaction with no
  -- refund under way or done.
  abbrev refund_is_open : Bool
  refund_is_open = same_status u.status Status.fulfilled && is_refund_claimable u.refund

  -- A webhook that reports a refund leaves everything as it was, and says ok, unless the transaction
  -- is fulfilled and has no refund under way or done.
  pub handle_provider_refund-closed :
      u.id ≡ result.internal_order_id
      → refund_is_open ≡ false
      → handle_provider_refund env result w ≡ (reply (record { message = "ok" }), w)
  unfolding handle_provider_refund claim_external_refunding_row
  handle_provider_refund-closed own closed = ground (
    arith,
    result-on_row (claim_external_refunding_row "provider refund webhook" (env.clock w)) w.store
        u.id,
    on_row_unchanged (claim_external_refunding_row "provider refund webhook" (env.clock w)) w.store
        result.internal_order_id u found,
  )

  -- A webhook that reports a refund of a fulfilled transaction takes the item back in AGS, with the
  -- one call of ReverseFulfillment. If AGS does so, the refund is REFUNDED and the reply is ok; if AGS
  -- fails, the refund is REFUND_FAILED. Either way it is recorded that the provider has paid back, so
  -- that an administrator can repeat the reversal alone.
  pub handle_provider_refund-open :
      (r : FulfillmentReverser)
      → env.reverser ≡ some r
      → u.id ≡ result.internal_order_id
      → refund_is_open ≡ true
      → let (answer, w') = handle_provider_refund env result w in
        (done : Bool) × (w'.history ≡ w.history ++ (reverse_fulfillment u.id done ∷ []))
        × (field_at (λ t. map_option (λ f. f.status) t.refund) u.id w'.store
            ≡ some (some (if done then RefundStatus.refunded else RefundStatus.refund_failed)))
        × (field_at (λ t. map_option (λ f. f.provider_refunded) t.refund) u.id w'.store
            ≡ some (some true))
        × (field_at (λ t. t.status) u.id w'.store ≡ some Status.fulfilled)
        × (is_response answer ≡ done)
  unfolding handle_provider_refund claim_external_refunding_row reverse_ags_refund commit_refund_row
      mark_refund_failed_row
  handle_provider_refund-open r rev own opened =
      let v = (claim_external_refunding_row "provider refund webhook" (env.clock w) u).1 in
      elim (Option-cases (r.reverse_fulfillment w.history v)) [
        | inl f ↦
            (true, grind row_laws, grind row_laws, grind row_laws, grind row_laws, grind row_laws)
        | inr (e, f) ↦
            (false, grind row_laws, grind row_laws, grind row_laws, grind row_laws, grind row_laws)
      ]
