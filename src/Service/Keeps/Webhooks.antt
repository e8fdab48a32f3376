-- ===== src/Service/Keeps/Webhooks.antt =====
-- The refund reversal and the webhook handler.
use extend_regional_payment.Prelude.{
  Option, none, some, arith, inl, inr, Bool, true, false, refl, ◌≡◌,
}
use extend_regional_payment.Model.{Transaction}
use extend_regional_payment.Store.Memory.{Store}
use extend_regional_payment.Service.World.{World, Env, FulfillmentReverser}
use extend_regional_payment.Service.Refund.{reverse_ags_refund}
use extend_regional_payment.Service.Keeps.{
  Keeper, keep-mark_refund_failed, keep-commit_refund, ResetKeeper, keep-claim_external_refunding,
  keep-claim_fulfilling, keep-commit_fulfilled, keep-mark_failed, keep-mark_canceled,
  keep-mark_expired,
}
use extend_regional_payment.Adapter.Types.{PaymentResult, PaymentStatus}
use extend_regional_payment.Service.Webhook.{
  handle_provider_refund, handle_success, handle_result, handle_webhook, WebhookRequest,
}
use extend_regional_payment.Service.Webhook.Gate.{handle_webhook_gate}

abbrev pub is_success : PaymentStatus → Bool
is_success PaymentStatus.success = true
is_success _ = false

module _ {P : Store → Type 0} (keep : Keeper P) (env : Env) where
  pub keep-reverse_ags_refund :
      (r : Option FulfillmentReverser) (tx : Transaction) (w : World)
      → P w.store
      → P (reverse_ags_refund env r tx w).1.store
  unfolding reverse_ags_refund
  keep-reverse_ags_refund none tx w h = keep-mark_refund_failed keep tx.id (env.clock w) w.store h _
  keep-reverse_ags_refund (some r) tx w h =
      grind (arith, keep-mark_refund_failed keep, keep-commit_refund keep)

  pub keep-handle_provider_refund :
      (result : PaymentResult) (w : World)
      → P w.store
      → P (handle_provider_refund env result w).1.store
  unfolding handle_provider_refund
  keep-handle_provider_refund result w h =
      grind (arith, keep-claim_external_refunding keep, keep-reverse_ags_refund)

  pub keep-handle_success :
      ResetKeeper P
      → (result : PaymentResult) (w : World) → P w.store
      → P (handle_success env result w).1.store
  unfolding handle_success
  keep-handle_success again result w h =
      grind (arith, keep-claim_fulfilling keep, keep-commit_fulfilled keep, again.reset)

  -- Every result but that of a success, which alone may reset a transaction.
  pub keep-handle_other :
      (result : PaymentResult) (status : PaymentStatus) (w : World)
      → is_success status ≡ false
      → P w.store
      → P (handle_result env result status w).1.store
  unfolding handle_result
  keep-handle_other result PaymentStatus.success w n h = cc
  keep-handle_other result PaymentStatus.refunded w n h = keep-handle_provider_refund result w h
  keep-handle_other result PaymentStatus.canceled w n h = grind (arith, keep-mark_canceled keep)
  keep-handle_other result PaymentStatus.expired w n h = grind (arith, keep-mark_expired keep)
  keep-handle_other result PaymentStatus.failed w n h = grind (arith, keep-mark_failed keep)
  keep-handle_other result _ w n h = h

  pub keep-handle_result :
      ResetKeeper P
      → (result : PaymentResult) (status : PaymentStatus) (w : World) → P w.store
      → P (handle_result env result status w).1.store
  unfolding handle_result
  keep-handle_result again result PaymentStatus.success w h = keep-handle_success again result w h
  keep-handle_result again result status w h = keep-handle_other result status w refl h

  pub keep-handle_webhook :
      ResetKeeper P
      → (req : WebhookRequest) (w : World) → P w.store
      → P (handle_webhook env req w).1.store
  keep-handle_webhook again req w h = elim (handle_webhook_gate env req w) [
    | inl (c, m, e) ↦ rw e h
    | inr (_, result, _, _, _, _, e) ↦ rw e (keep-handle_result again result result.status w h)
  ]
