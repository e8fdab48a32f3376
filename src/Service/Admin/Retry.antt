-- ===== src/Service/Admin/Retry.antt =====
-- Refund: what a refund by an administrator does, and that a retry does not pay back twice.
use extend_regional_payment.Prelude.{
  ◌≡◌, inl, inr, some, none, true, false, arith, eq_refl, Option-cases, ◌++◌, [], ◌∷◌, ◌<>◌, Bool,
}
use extend_regional_payment.Prelude.{if◌then◌else◌, Bool}
use extend_regional_payment.Prelude.{◌||◌, ◌==◌}
use extend_regional_payment.Prelude.Table.{lookup}
use extend_regional_payment.Model.{Status, RefundStatus, Transaction, Refund}
use extend_regional_payment.Store.Rows.{
  claim_refunding_row, commit_refund_row, mark_refund_failed_row,
  mark_refund_provider_succeeded_row,
}
use extend_regional_payment.Store.Laws.{field_at, map_option, lookup-on_row, result-on_row}
use extend_regional_payment.Adapter.Types.{AdapterError, adapter_error_text}
use extend_regional_payment.Adapter.Effects.{refund_payment, reverse_fulfillment}
use extend_regional_payment.Adapter.Provider.{PaymentProvider, get}
use extend_regional_payment.Service.World.{World, Env, FulfillmentReverser}
use extend_regional_payment.Service.Reply.{is_response, fail, internal}
use extend_regional_payment.Service.Refund.{reverse_ags_refund}
use extend_regional_payment.Service.Admin.{refund, RefundRequest, refund_at_provider}

module _ (env : Env) (req : RefundRequest) (w : World) (u : Transaction) (prov : PaymentProvider)
    (r : FulfillmentReverser) (found : lookup req.transaction_id w.store ≡ some u)
    (own : u.id ≡ req.transaction_id)
    (scope : (req.namespace == "" || u.namespace == req.namespace) ≡ true)
    (paid : u.status ≡ Status.fulfilled) (known : get u.provider_id env.registry ≡ some prov)
    (rev : env.reverser ≡ some r) where
  -- A refund that failed after the provider had paid back is retried without the provider: the only
  -- call is the reversal in AGS. If AGS does it, the refund is REFUNDED and the reply a success;
  -- if not, it is REFUND_FAILED again, and can be retried again.
  pub refund-again :
      (f : Refund)
      → u.refund ≡ some f
      → f.status ≡ RefundStatus.refund_failed
      → f.provider_refunded ≡ true
      → let (answer, w') = refund env req w in
        (done : Bool) × (w'.history ≡ w.history ++ (reverse_fulfillment u.id done ∷ []))
        × (field_at (λ t. map_option (λ g. g.status) t.refund) u.id w'.store
            ≡ some (some (if done then RefundStatus.refunded else RefundStatus.refund_failed)))
        × (field_at (λ t. map_option (λ g. g.provider_refunded) t.refund) u.id w'.store
            ≡ some (some true))
        × (is_response answer ≡ done)
  unfolding refund claim_refunding_row reverse_ags_refund commit_refund_row mark_refund_failed_row
      refund_at_provider
  refund-again f has bad flag =
      let v = (claim_refunding_row req.reason (env.clock w) u).1 in
      elim (Option-cases (r.reverse_fulfillment w.history v)) [
        | inl g ↦ (
          true,
          grind (arith, lookup-on_row, result-on_row, eq_refl),
          grind (arith, lookup-on_row, result-on_row, eq_refl),
          grind (arith, lookup-on_row, result-on_row, eq_refl),
          grind (arith, lookup-on_row, result-on_row, eq_refl),
        )
        | inr (e, g) ↦ (
          false,
          grind (arith, lookup-on_row, result-on_row, eq_refl),
          grind (arith, lookup-on_row, result-on_row, eq_refl),
          grind (arith, lookup-on_row, result-on_row, eq_refl),
          grind (arith, lookup-on_row, result-on_row, eq_refl),
        )
      ]

  -- The first refund of a fulfilled transaction asks the provider to pay back the transaction's
  -- amount in its currency. If the provider does not, the refund is REFUND_FAILED, the reply names
  -- the provider's error, and AGS is not called.
  pub refund-declined :
      (e : AdapterError)
      → u.refund ≡ none
      → prov.refund_payment w.history u.id u.provider_tx_id u.amount u.currency_code ≡ some e
      → let (answer, w') = refund env req w in
        (answer ≡ fail internal ("provider refund failed: " <> adapter_error_text e))
        × (w'.history
            ≡ w.history
              ++ (refund_payment u.id u.provider_tx_id u.amount u.currency_code false ∷ []))
        × (field_at (λ t. map_option (λ g. g.status) t.refund) u.id w'.store
            ≡ some (some RefundStatus.refund_failed))
        × (field_at (λ t. map_option (λ g. g.provider_refunded) t.refund) u.id w'.store
            ≡ some (some false))
  unfolding refund claim_refunding_row mark_refund_failed_row refund_at_provider
  refund-declined e fresh declined = (
    grind (arith, lookup-on_row, result-on_row, eq_refl),
    grind (arith, lookup-on_row, result-on_row, eq_refl),
    grind (arith, lookup-on_row, result-on_row, eq_refl),
    grind (arith, lookup-on_row, result-on_row, eq_refl),
  )

  -- If the provider pays back, the next call is the reversal in AGS, and the transaction's refund
  -- ends as REFUNDED, with a reply of success, or as REFUND_FAILED, by what AGS says; in both cases
  -- it is recorded that the provider has paid.
  pub refund-first :
      u.refund ≡ none
      → prov.refund_payment w.history u.id u.provider_tx_id u.amount u.currency_code ≡ none
      → let (answer, w') = refund env req w in
        (done : Bool) × (w'.history
          ≡ (w.history ++ (refund_payment u.id u.provider_tx_id u.amount u.currency_code true ∷ []))
            ++ (reverse_fulfillment u.id done ∷ []))
        × (field_at (λ t. map_option (λ g. g.status) t.refund) u.id w'.store
            ≡ some (some (if done then RefundStatus.refunded else RefundStatus.refund_failed)))
        × (field_at (λ t. map_option (λ g. g.provider_refunded) t.refund) u.id w'.store
            ≡ some (some true))
        × (is_response answer ≡ done)
  unfolding refund claim_refunding_row reverse_ags_refund commit_refund_row mark_refund_failed_row
      mark_refund_provider_succeeded_row refund_at_provider
  refund-first fresh paid_back =
      let v = (claim_refunding_row req.reason (env.clock w) u).1 in
      let h =
        w.history ++ (refund_payment u.id u.provider_tx_id u.amount u.currency_code true ∷ []) in
      elim (Option-cases (r.reverse_fulfillment h v)) [
        | inl g ↦ (
          true,
          grind (arith, lookup-on_row, result-on_row, eq_refl),
          grind (arith, lookup-on_row, result-on_row, eq_refl),
          grind (arith, lookup-on_row, result-on_row, eq_refl),
          grind (arith, lookup-on_row, result-on_row, eq_refl),
        )
        | inr (e, g) ↦ (
          false,
          grind (arith, lookup-on_row, result-on_row, eq_refl),
          grind (arith, lookup-on_row, result-on_row, eq_refl),
          grind (arith, lookup-on_row, result-on_row, eq_refl),
          grind (arith, lookup-on_row, result-on_row, eq_refl),
        )
      ]
