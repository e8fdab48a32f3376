-- ===== src/Service/Scheduler.antt =====
-- pkg/service/scheduler.go: the two recovery jobs.
pub mod Retries
use extend_regional_payment.Prelude.{◌-◌, ◌*◌, String, ◌<>◌, ◌==◌}
use extend_regional_payment.Prelude.{Option, none, some, List, [], ◌∷◌, if◌then◌else◌}
use extend_regional_payment.Prelude.Int.{pos, leb_ℤ, to_int32}
use extend_regional_payment.Model.{Status, Transaction, text}
use extend_regional_payment.Store.Types.{Result, ok, err}
use extend_regional_payment.Store.Memory.{
  atomic_claim_fulfilling, commit_fulfilled, mark_failed, increment_retries,
  mark_canceled_if_pending, mark_expired_if_pending,
}
use extend_regional_payment.Store.Listing.{
  find_stuck_fulfilling, find_stuck_pending, find_expired_pending,
}
use extend_regional_payment.Adapter.Types.{
  Answer, answer, error, PaymentStatus, ProviderPaymentStatus, payment_text,
}
use extend_regional_payment.Adapter.Effects.{fulfill_item, poll_payment, cancel_payment, notify}
use extend_regional_payment.Adapter.Provider.{PaymentProvider, get}
use extend_regional_payment.Service.World.{
  Env, M, pure, ◌>>=◌, ◌>>◌, on_store, read, call, emit, now, minute, add_days, succeeded,
}
use extend_regional_payment.Service.Sync.{provider_tx_id_for_claim}

abbrev Job : Type 0
Job = M (Unit {0})

notify_result : Transaction → Status → Job
notify_result tx status = emit (notify tx.user_id tx.id (text status) tx.item_id)

-- `for _, tx := range txns { run(tx) }`
unfoldable pub for_each : (Transaction → M (Unit {0})) → List Transaction → M (Unit {0})
for_each run [] = pure tt
for_each run (tx ∷ txs) = do run tx; for_each run txs

abbrev fulfill : Env → Transaction → M (Option String)
fulfill env tx =
    call (λ h. env.fulfiller h tx.user_id tx.item_id tx.id tx.quantity)
      (λ e. fulfill_item tx.user_id tx.item_id tx.id tx.quantity (succeeded e))

after_fulfill : Env → Transaction → Option String → Job
unfolding notify_result
after_fulfill env tx none = do
  t ← now env
  let delete_at = add_days t env.cfg.record_retention_days
  committed ← on_store (commit_fulfilled tx.id "FULFILLED_BY_SCHEDULER" delete_at t)
  elim committed [ err _ ↦ pure tt | ok _ ↦ notify_result tx Status.fulfilled ]
after_fulfill env tx (some e) =
    let give_up : Job = do
      t ← now env
      on_store (mark_failed tx.id ("max retries exceeded: " <> e) (add_days t (pos 7)) t)
      notify_result tx Status.failed
    in let count : Job = do t ← now env; on_store (increment_retries tx.id t); pure tt
      in if leb_ℤ (to_int32 env.cfg.max_retries) tx.retries then give_up else count

unfoldable pub recover_fulfilling : Env → Transaction → M (Unit {0})
unfolding after_fulfill
recover_fulfilling env tx = do e ← fulfill env tx; after_fulfill env tx e

unfoldable pub run_stuck_fulfillment_recovery : Env → M (Unit {0})
run_stuck_fulfillment_recovery env = do
  t ← now env
  txns ← read (find_stuck_fulfilling (t - 2 * minute))
  for_each (recover_fulfilling env) txns

claimed_pending : Env → Transaction → PaymentStatus → Result Transaction → Job
unfolding notify_result
claimed_pending env tx status (err _) = pure tt
claimed_pending env tx status (ok claimed) = do
  e ← fulfill env claimed
  elim e [
    | some _ ↦ pure tt
    | none ↦ do
      t ← now env
      let delete_at = add_days t env.cfg.record_retention_days
      on_store (commit_fulfilled tx.id (payment_text status) delete_at t)
      notify_result tx Status.fulfilled
  ]

-- The switch on the polled status.
unfoldable pub recover_polled :
    Env → Transaction → ProviderPaymentStatus → PaymentStatus → M (Unit {0})
unfolding claimed_pending
recover_polled env tx ps PaymentStatus.success = do
  t ← now env
  let claim_tx_id = provider_tx_id_for_claim tx.provider_tx_id ps.provider_tx_id
  claimed ← on_store (atomic_claim_fulfilling tx.id claim_tx_id t)
  claimed_pending env tx PaymentStatus.success claimed
recover_polled env tx ps PaymentStatus.failed = do
  t ← now env
  on_store (mark_failed tx.id "provider: payment rejected" (add_days t (pos 7)) t)
  notify_result tx Status.failed
recover_polled env tx ps PaymentStatus.canceled = do
  t ← now env
  let delete_at = add_days t env.cfg.record_retention_days
  on_store (
      mark_canceled_if_pending tx.id "provider: payment canceled"
        (payment_text PaymentStatus.canceled) delete_at t)
  notify_result tx Status.canceled
recover_polled env tx ps PaymentStatus.expired = do
  t ← now env
  let delete_at = add_days t env.cfg.record_retention_days
  on_store (
      mark_expired_if_pending tx.id "provider: payment expired" (payment_text PaymentStatus.expired)
        delete_at t)
  notify_result tx Status.expired
recover_polled env tx ps _ = pure tt

abbrev poll : PaymentProvider → Transaction → M (Answer ProviderPaymentStatus)
poll prov tx =
    call (λ h. prov.get_payment_status h tx.provider_tx_id) (λ _. poll_payment tx.provider_tx_id)

recover_answer : Env → Transaction → Answer ProviderPaymentStatus → Job
recover_answer env tx (error _) = pure tt
recover_answer env tx (answer ps) = recover_polled env tx ps ps.status

recover_with : Env → Transaction → Option PaymentProvider → Job
unfolding recover_answer
recover_with env tx none = pure tt
recover_with env tx (some prov) = do ps ← poll prov tx; recover_answer env tx ps

unfoldable pub recover_pending : Env → Transaction → M (Unit {0})
unfolding recover_with
recover_pending env tx =
    if tx.provider_tx_id == ""
    then pure tt
    else recover_with env tx (get tx.provider_id env.registry)

unfoldable pub mark_expired : Env → Transaction → M (Unit {0})
mark_expired env tx = do
  t ← now env
  let delete_at = add_days t env.cfg.record_retention_days
  on_store (mark_expired_if_pending tx.id "payment expired" "" delete_at t)
  pure tt

-- The switch of expirePending on the polled status.
expire_polled : Env → PaymentProvider → Transaction → PaymentStatus → Job
unfolding mark_expired
expire_polled env prov tx PaymentStatus.success = recover_pending env tx
expire_polled env prov tx PaymentStatus.canceled = do
  t ← now env
  let delete_at = add_days t env.cfg.record_retention_days
  on_store (
      mark_canceled_if_pending tx.id "provider: payment canceled"
        (payment_text PaymentStatus.canceled) delete_at t)
  pure tt
expire_polled env prov tx PaymentStatus.expired = mark_expired env tx
expire_polled env prov tx PaymentStatus.failed = mark_expired env tx
expire_polled env prov tx _ = do
  call (λ h. prov.cancel_payment h tx "payment expired")
      (λ _. cancel_payment tx.id "payment expired")
  mark_expired env tx

expire_answer : Env → PaymentProvider → Transaction → Answer ProviderPaymentStatus → Job
unfolding mark_expired expire_polled
expire_answer env prov tx (error _) = mark_expired env tx
expire_answer env prov tx (answer ps) = expire_polled env prov tx ps.status

expire_with : Env → Transaction → Option PaymentProvider → Job
unfolding mark_expired expire_answer
expire_with env tx none = mark_expired env tx
expire_with env tx (some prov) = do ps ← poll prov tx; expire_answer env prov tx ps

unfoldable pub expire_pending : Env → Transaction → M (Unit {0})
unfolding mark_expired expire_with
expire_pending env tx =
    if tx.provider_tx_id == ""
    then mark_expired env tx
    else expire_with env tx (get tx.provider_id env.registry)

unfoldable pub run_lost_webhook_recovery : Env → M (Unit {0})
run_lost_webhook_recovery env = do
  t ← now env
  lapsed ← read (find_expired_pending t)
  for_each (expire_pending env) lapsed
  u ← now env
  txns ← read (find_stuck_pending (u - 5 * minute) u)
  for_each (recover_pending env) txns

-- OnJobTriggered
unfoldable pub on_job_triggered : Env → String → M (Unit {0})
on_job_triggered env job_name =
    if job_name == "stuck-fulfillment-recovery"
    then run_stuck_fulfillment_recovery env
    else if job_name == "lost-webhook-recovery"
    then run_lost_webhook_recovery env
    else pure tt
