-- ===== src/Tests/Requests.antt =====
-- Requests of players and administrators at concrete inputs.
use extend_regional_payment.Adapter.Effects.{refund_payment, reverse_fulfillment, sync_status}
use extend_regional_payment.Adapter.Types.{failure}
use extend_regional_payment.Model.{RefundStatus}
use extend_regional_payment.Prelude.{
  eq_iff, Bool, [], false, if◌then◌else◌, refl, some, true, ◌++◌, ◌+◌, ◌<◌, ◌∷◌, ◌≡◌, ◌≤◌, ◌⊎◌,
}
use extend_regional_payment.Prelude.Table.{insert, lookup}
use extend_regional_payment.Prelude.Text.{trim_space}
use extend_regional_payment.Service.Admin.{RefundRequest, refund}
use extend_regional_payment.Service.Admin.Retry.{refund-again, refund-declined, refund-first}
use extend_regional_payment.Service.Cancel.{cancel_pending_transaction}
use extend_regional_payment.Service.Cancel.Outcomes.{cancel_my_transaction-cancel_pending}
use extend_regional_payment.Service.Handler.{Context, user_id_from_context}
use extend_regional_payment.Service.Public.{
  CancelTransactionRequest, cancel_my_transaction, claim_cooldown, cooldown_duration,
}
use extend_regional_payment.Service.Public.Cooldown.{claim_cooldown_again, claim_cooldown_other}
use extend_regional_payment.Service.Reply.{fail, internal, is_response, reply, resource_exhausted}
use extend_regional_payment.Service.Sync.{sync_transaction}
use extend_regional_payment.Service.World.{World}
use extend_regional_payment.Store.Laws.{field_at, map_option}
use extend_regional_payment.Tests.Fixture.{
  env, failed_refund, fulfilled_gem, half_refunded_gem, pending_gem, stingy, world_of, xendit,
  reverser,
}

abbrev refund_request : RefundRequest
refund_request = record { namespace = "game"; transaction_id = "t1"; reason = "wrong item" }

refund-again_example :
    let u = half_refunded_gem in
    let w = world_of half_refunded_gem in
    let (answer, w') = refund env refund_request w in
    (done : Bool) × (w'.history ≡ w.history ++ (reverse_fulfillment u.id done ∷ []))
    × (field_at (λ t. map_option (λ g. g.status) t.refund) u.id w'.store
        ≡ some (some (if done then RefundStatus.refunded else RefundStatus.refund_failed)))
    × (field_at (λ t. map_option (λ g. g.provider_refunded) t.refund) u.id w'.store
        ≡ some (some true))
    × (is_response answer ≡ done)
unfolding lookup
refund-again_example =
    refund-again env refund_request (world_of half_refunded_gem) half_refunded_gem xendit reverser
      refl refl refl refl refl refl failed_refund refl refl refl

refund-first_example :
    let u = fulfilled_gem in
    let w = world_of fulfilled_gem in
    let (answer, w') = refund env refund_request w in
    (done : Bool) × (w'.history
      ≡ (w.history ++ (refund_payment u.id u.provider_tx_id u.amount u.currency_code true ∷ []))
        ++ (reverse_fulfillment u.id done ∷ []))
    × (field_at (λ t. map_option (λ g. g.status) t.refund) u.id w'.store
        ≡ some (some (if done then RefundStatus.refunded else RefundStatus.refund_failed)))
    × (field_at (λ t. map_option (λ g. g.provider_refunded) t.refund) u.id w'.store
        ≡ some (some true))
    × (is_response answer ≡ done)
unfolding lookup
refund-first_example =
    refund-first env refund_request (world_of fulfilled_gem) fulfilled_gem xendit reverser refl refl
      refl refl refl refl refl refl

refund-declined_example :
    let u = fulfilled_gem in
    let w = world_of fulfilled_gem in
    let poor = record env { registry = ("xendit", stingy) ∷ [] } in
    let (answer, w') = refund poor refund_request w in
    (answer ≡ fail internal "provider refund failed: no funds")
    × (w'.history
        ≡ w.history ++ (refund_payment u.id u.provider_tx_id u.amount u.currency_code false ∷ []))
    × (field_at (λ t. map_option (λ g. g.status) t.refund) u.id w'.store
        ≡ some (some RefundStatus.refund_failed))
    × (field_at (λ t. map_option (λ g. g.provider_refunded) t.refund) u.id w'.store
        ≡ some (some false))
unfolding lookup
refund-declined_example =
    refund-declined (record env { registry = ("xendit", stingy) ∷ [] }) refund_request
      (world_of fulfilled_gem) fulfilled_gem stingy reverser refl refl refl refl refl refl
      (failure "no funds") refl refl

-- The world after a first sync, and six calls to the outside later.
abbrev later : World
later = record {
  store = (world_of pending_gem).store;
  history =
      sync_status "t1"
      ∷ sync_status "t1"
      ∷ sync_status "t1"
      ∷ sync_status "t1"
      ∷ sync_status "t1"
      ∷ sync_status "t1"
      ∷ [];
  last_seen = ("game|alice|xendit", 100) ∷ [];
}

claim_cooldown_again_example :
    let w = world_of pending_gem in
    ((env.clock w + 5 ≤ env.clock later)
      × ((claim_cooldown env "game" "alice" "xendit" later).0 ≡ reply tt))
    ⊎ ((env.clock later < env.clock w + 5)
        × (claim_cooldown env "game" "alice" "xendit" later
            ≡ (fail resource_exhausted "public sync cooldown is active", later)))
unfolding claim_cooldown cooldown_duration lookup insert
claim_cooldown_again_example =
    claim_cooldown_again env 5 refl "game" "alice" "xendit" (world_of pending_gem) later refl refl

-- At the same time, but after alice's sync.
abbrev just_after : World
just_after = record (world_of pending_gem) { last_seen = ("game|alice|xendit", 100) ∷ [] }

claim_cooldown_other_example :
    (claim_cooldown env "game" "bob" "xendit" just_after).0
    ≡ (claim_cooldown env "game" "bob" "xendit" (world_of pending_gem)).0
unfolding claim_cooldown cooldown_duration lookup insert
claim_cooldown_other_example =
    claim_cooldown_other env 5 refl "game" "alice" "xendit" (world_of pending_gem) just_after refl
      refl "bob" (λ e. cc ((eq_iff "bob" "alice").1 e)) refl

abbrev cancel_request : CancelTransactionRequest
cancel_request = record { namespace = "game"; transaction_id = "t1"; reason = "changed my mind" }

abbrev alice : Context
alice = some (("x-auth-user-id", "alice" ∷ []) ∷ [])

cancel_my_transaction-cancel_pending_example :
    cancel_my_transaction env alice cancel_request (world_of pending_gem)
    ≡ cancel_pending_transaction env pending_gem "changed my mind"
        (some (λ v. (tt, (sync_transaction env pending_gem v).1)))
        (world_of pending_gem)
unfolding lookup user_id_from_context trim_space
cancel_my_transaction-cancel_pending_example =
    cancel_my_transaction-cancel_pending env alice cancel_request (world_of pending_gem) pending_gem
      refl refl refl refl refl
