-- ===== src/Tests/Deliveries.antt =====
-- Webhooks, jobs and syncs at concrete inputs.
use extend_regional_payment.Adapter.Effects.{fulfill_item, sync_status, notify, reverse_fulfillment}
use extend_regional_payment.Adapter.Types.{PaymentStatus}
use extend_regional_payment.Model.{RefundStatus, Status, Time, Transaction}
use extend_regional_payment.Prelude.{
  eq_iff, Bool, String, [], false, if◌then◌else◌, none, refl, some, true, ◌++◌, ◌<>◌, ◌∷◌, ◌≡◌, ◌≢◌,
  ◌≤◌, ◌⊎◌,
}
use extend_regional_payment.Prelude.Int.{leb_ℤ, pos, to_int32, ◌+ℤ◌}
use extend_regional_payment.Prelude.Table.{lookup}
use extend_regional_payment.Service.Grants.{grants}
use extend_regional_payment.Service.Reply.{fail, internal, is_response, reply}
use extend_regional_payment.Service.Scheduler.{recover_fulfilling}
use extend_regional_payment.Service.Scheduler.Retries.{recover_fulfilling-outcomes}
use extend_regional_payment.Service.Sync.{sync_transaction}
use extend_regional_payment.Adapter.Types.{ProviderSyncResult, SyncPaymentStatus, SyncRefundStatus}
use extend_regional_payment.Service.Sync.Paid.{
  reported_id, sync_transaction-paid, sync_transaction-not_pending,
}
use extend_regional_payment.Service.Webhook.{
  WebhookRequest, handle_provider_refund, handle_result, handle_success,
}
use extend_regional_payment.Service.Webhook.Gate.{Accepted, Refused, handle_webhook_gate}
use extend_regional_payment.Service.Webhook.Once.{deliver_all, grants-deliver_all}
use extend_regional_payment.Service.Webhook.Report.{
  handle_provider_refund-closed, handle_provider_refund-open, handle_result-failed,
  handle_result-terminal,
}
use extend_regional_payment.Service.Webhook.Success.{
  handle_success-not_pending, handle_success-pending,
}
use extend_regional_payment.Store.Laws.{field_at, map_option}
use extend_regional_payment.Tests.Fixture.{
  granting, xendit, env, failing, fulfilled_gem, pending_gem, report, stuck_gem, world_of,
  world_of-IsWellFormed, reverser,
}

abbrev request : WebhookRequest
request = record {
  provider_id = "xendit";
  headers = ("x-callback-token", "secret") ∷ [];
  raw_payload = 1 ∷ 2 ∷ [];
}

grants-deliver_all_example :
    grants "t1" (deliver_all env (request ∷ request ∷ []) (world_of pending_gem)).history ≤ 1
unfolding grants
grants-deliver_all_example =
    grants-deliver_all "t1" env (request ∷ request ∷ []) (world_of pending_gem)
      (world_of-IsWellFormed pending_gem) refl

handle_success-pending_example :
    let u = pending_gem in
    let w = world_of pending_gem in
    let (answer, w') = handle_success env report w in
    let ags = env.fulfiller w.history u.user_id u.item_id u.id u.quantity in
    let entry = fulfill_item u.user_id u.item_id u.id u.quantity in
    ((ags ≡ none)
      × (answer ≡ reply (record { message = "ok" }))
      × (field_at (λ t. t.status) "t1" w'.store ≡ some Status.fulfilled)
      × (field_at (λ t. t.provider_tx_id) "t1" w'.store ≡ some "x-9")
      × (field_at (λ t. t.provider_status) "t1" w'.store ≡ some "SUCCEEDED")
      × (w'.history
          ≡ (w.history ++ (entry true ∷ [])) ++ (notify u.user_id u.id "FULFILLED" u.item_id ∷ [])))
    ⊎ ((e : String) × (ags ≡ some e)
        × (answer ≡ fail internal ("fulfillment failed: " <> e))
        × (field_at (λ t. t.status) "t1" w'.store ≡ some Status.pending)
        × (field_at (λ t. t.provider_tx_id) "t1" w'.store ≡ some "x-9")
        × (w'.history ≡ w.history ++ (entry false ∷ [])))
unfolding lookup
handle_success-pending_example =
    handle_success-pending env report (world_of pending_gem) pending_gem refl refl refl

handle_success-not_pending_example :
    handle_success env report (world_of fulfilled_gem)
    ≡ (reply (record { message = "ok" }), world_of fulfilled_gem)
unfolding lookup
handle_success-not_pending_example =
    handle_success-not_pending env report (world_of fulfilled_gem) fulfilled_gem refl (λ e. cc)

handle_webhook_gate_example :
    Refused env request (world_of pending_gem) ⊎ Accepted env request (world_of pending_gem)
handle_webhook_gate_example = handle_webhook_gate env request (world_of pending_gem)

handle_result-failed_example :
    let u = fulfilled_gem in
    let w = world_of fulfilled_gem in
    let (answer, w') = handle_result env report PaymentStatus.failed w in
    (answer ≡ reply (record { message = "payment failed" }))
    × (field_at (λ t. t.status) "t1" w'.store ≡ some Status.failed)
    × (field_at (λ t. t.failure_reason) "t1" w'.store ≡ some "")
    × (lookup "t2" w'.store ≡ lookup "t2" w.store)
    × (w'.history ≡ w.history ++ (notify u.user_id u.id "FAILED" u.item_id ∷ []))
unfolding lookup
handle_result-failed_example =
    handle_result-failed env report (world_of fulfilled_gem) fulfilled_gem refl "t2"
      (λ e. cc ((eq_iff "t2" "t1").1 e))

handle_result-terminal_example :
    let u = pending_gem in
    let w = world_of pending_gem in
    let (_, w') = handle_result env report PaymentStatus.expired w in
    ((u.status ≡ Status.pending)
      × (field_at (λ t. t.status) "t1" w'.store ≡ some Status.expired)
      × (field_at (λ t. t.failure_reason) "t1" w'.store ≡ some ""))
    ⊎ ((u.status ≢ Status.pending) × (w'.store ≡ w.store))
unfolding lookup
handle_result-terminal_example =
    handle_result-terminal env report (world_of pending_gem) pending_gem refl true

handle_provider_refund-closed_example :
    handle_provider_refund env report (world_of pending_gem)
    ≡ (reply (record { message = "ok" }), world_of pending_gem)
unfolding lookup
handle_provider_refund-closed_example =
    handle_provider_refund-closed env report (world_of pending_gem) pending_gem refl refl refl

handle_provider_refund-open_example :
    let u = fulfilled_gem in
    let w = world_of fulfilled_gem in
    let (answer, w') = handle_provider_refund env report w in
    (done : Bool) × (w'.history ≡ w.history ++ (reverse_fulfillment u.id done ∷ []))
    × (field_at (λ t. map_option (λ f. f.status) t.refund) u.id w'.store
        ≡ some (some (if done then RefundStatus.refunded else RefundStatus.refund_failed)))
    × (field_at (λ t. map_option (λ f. f.provider_refunded) t.refund) u.id w'.store
        ≡ some (some true))
    × (field_at (λ t. t.status) u.id w'.store ≡ some Status.fulfilled)
    × (is_response answer ≡ done)
unfolding lookup
handle_provider_refund-open_example =
    handle_provider_refund-open env report (world_of fulfilled_gem) fulfilled_gem refl reverser refl
      refl refl

-- A transaction that waits for its payment at the provider.
abbrev waiting_gem : Transaction
waiting_gem = record pending_gem { provider_tx_id = "x-9" }

-- What the provider says of a transaction that it knows by this id.
abbrev paid_report : String → ProviderSyncResult
paid_report id = record {
  provider_tx_id = id;
  payment_status = SyncPaymentStatus.paid;
  refund_status = SyncRefundStatus.none;
  raw_payment_status = "SUCCEEDED";
  raw_refund_status = "";
  refund_amount = pos 0;
  refund_currency_code = "";
  message = "";
}

sync_transaction-paid_example :
    let u = waiting_gem in
    let w = world_of waiting_gem in
    let r = paid_report "x-9" in
    let w' = (sync_transaction env u w).1 in
    let h = w.history ++ (sync_status u.id ∷ []) in
    let ags = granting h u.user_id u.item_id u.id u.quantity in
    let entry = fulfill_item u.user_id u.item_id u.id u.quantity in
    (field_at (λ t. t.provider_tx_id) u.id w'.store ≡ some (reported_id u r))
    × (((ags ≡ none)
          × (w'.history ≡ h ++ (entry true ∷ []))
          × (field_at (λ t. t.status) u.id w'.store ≡ some Status.fulfilled))
        ⊎ ((e : String) × (ags ≡ some e)
            × (w'.history ≡ h ++ (entry false ∷ []))
            × (field_at (λ t. t.status) u.id w'.store ≡ some Status.pending)))
unfolding lookup
sync_transaction-paid_example =
    sync_transaction-paid env waiting_gem (world_of waiting_gem) xendit (paid_report "x-9") refl
      refl refl refl granting refl refl refl refl

sync_transaction-not_pending_example :
    let u = fulfilled_gem in
    let w = world_of fulfilled_gem in
    let r = paid_report "x-9" in
    let w' = (sync_transaction env u w).1 in
    (w'.history ≡ w.history ++ (sync_status u.id ∷ []))
    × ((t : Time) × (lookup u.id w'.store
          ≡ some (record u { provider_tx_id = reported_id u r; updated_at = t })))
    × (("t2" ≡ u.id) ⊎ (lookup "t2" w'.store ≡ lookup "t2" w.store))
unfolding lookup
sync_transaction-not_pending_example =
    sync_transaction-not_pending env fulfilled_gem (world_of fulfilled_gem) xendit
      (paid_report "x-9") refl refl refl refl "t2" (λ e. cc) (λ e. cc)

recover_fulfilling-outcomes_example :
    let u = stuck_gem in
    let w = world_of stuck_gem in
    let down = record env { fulfiller = failing } in
    let w' = (recover_fulfilling down u w).1 in
    let ags = down.fulfiller w.history u.user_id u.item_id u.id u.quantity in
    let entry = fulfill_item u.user_id u.item_id u.id u.quantity in
    ((ags ≡ none)
      × (field_at (λ t. t.status) "t1" w'.store ≡ some Status.fulfilled)
      × (w'.history
          ≡ (w.history ++ (entry true ∷ [])) ++ (notify u.user_id u.id "FULFILLED" u.item_id ∷ [])))
    ⊎ ((e : String) × (ags ≡ some e)
        × (((leb_ℤ (to_int32 down.cfg.max_retries) u.retries ≡ true)
              × (field_at (λ t. t.status) "t1" w'.store ≡ some Status.failed)
              × (field_at (λ t. t.failure_reason) "t1" w'.store
                  ≡ some ("max retries exceeded: " <> e))
              × (w'.history
                  ≡ (w.history ++ (entry false ∷ []))
                    ++ (notify u.user_id u.id "FAILED" u.item_id ∷ [])))
            ⊎ ((leb_ℤ (to_int32 down.cfg.max_retries) u.retries ≡ false)
                × (field_at (λ t. t.status) "t1" w'.store ≡ some u.status)
                × (field_at (λ t. t.retries) "t1" w'.store ≡ some (to_int32 (u.retries +ℤ pos 1)))
                × (w'.history ≡ w.history ++ (entry false ∷ [])))))
unfolding lookup
recover_fulfilling-outcomes_example =
    recover_fulfilling-outcomes (record env { fulfiller = failing }) (world_of stuck_gem) "t1"
      stuck_gem refl refl
