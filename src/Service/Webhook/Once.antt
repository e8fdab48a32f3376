-- ===== src/Service/Webhook/Once.antt =====
-- However often webhooks are delivered, an order's item is granted once.
use extend_regional_payment.Prelude.{
  ◌≤◌, String, ◌==◌, Bool, true, false, not, ◌&&◌, List, [], ◌∷◌, ◌++◌, ◌≡◌, ◌⊎◌, inl, inr, refl,
  sym, arith, Option, none, some,
}
use extend_regional_payment.Prelude.{Option-cases, Bool-cases, eq_iff, eq_refl}
use extend_regional_payment.Prelude.Table.{lookup}
use extend_regional_payment.Model.{pending_cases, Status, Transaction, same_status}
use extend_regional_payment.Store.Rows.{claim_fulfilling_row}
use extend_regional_payment.Store.Memory.{Store}
use extend_regional_payment.Store.Laws.{row_laws, lookup-on_row, on_row-missing}
use extend_regional_payment.Store.Ops.{RowOp, row_after, as_row, claim_fulfilling}
use extend_regional_payment.Store.Claims.{is_no_reset}
use extend_regional_payment.Adapter.Types.{PaymentResult, PaymentStatus}
use extend_regional_payment.Adapter.Effects.{fulfill_item, notify}
use extend_regional_payment.Service.World.{World, Env, FulfillmentReverser}
use extend_regional_payment.Service.Grants.{grants, grants-append}
use extend_regional_payment.Service.Refund.{reverse_ags_refund}
use extend_regional_payment.Service.Webhook.{
  WebhookRequest, handle_success, handle_provider_refund, handle_result, handle_webhook,
}
use extend_regional_payment.Service.Webhook.Success.{
  handle_success-pending, handle_success-not_pending,
}
use extend_regional_payment.Service.Keeps.{Keeper}
use extend_regional_payment.Service.Webhook.Gate.{handle_webhook_gate}
use extend_regional_payment.Store.Invariant.{IsWellFormed}
use extend_regional_payment.Service.Keeps.Formed.{IsWellFormed-keeper, IsWellFormed-reset_keeper}
use extend_regional_payment.Prelude.{◌∙◌}
use extend_regional_payment.Service.Keeps.Webhooks.{keep-handle_webhook}
use extend_regional_payment.Service.Keeps.Webhooks.{is_success, keep-handle_other}

-- The transaction under k, if there is one, is neither pending nor being fulfilled.
is_settled : Transaction → Bool
is_settled tx =
    not (same_status tx.status Status.pending) && not (same_status tx.status Status.fulfilling)

record IsSettled (k : String) (s : Store) : Type 0 where
  at : (tx : Transaction) → lookup k s ≡ some tx → is_settled tx ≡ true

settled_row :
    (o : RowOp) (now : _) (tx : Transaction)
    → is_no_reset o ≡ true
    → is_settled tx ≡ true
    → is_settled (row_after o now tx) ≡ true
unfolding row_after is_settled
settled_row (claim_fulfilling q) now tx a h = ground arith
settled_row _ now tx a h = ground arith

IsSettled-keeper : (k : String) → Keeper (IsSettled k)
IsSettled-keeper k = record {
  row = λ id o now s a h. record {
    at = λ tx e. elim (Option-cases (lookup id s)) [
      | inl n ↦ ground (arith, lookup-on_row (as_row o now) s k id, eq_iff id k, h.at tx)
      | inr (u, f) ↦ ground (
        arith,
        lookup-on_row (as_row o now) s k id,
        eq_iff id k,
        h.at tx,
        h.at u,
        settled_row o now u a,
      )
    ];
  };
}

-- A success webhook for an unknown transaction changes nothing.
handle_success-missing :
    (env : Env) (result : PaymentResult) (w : World)
    → lookup result.internal_order_id w.store ≡ none
    → (handle_success env result w).1 ≡ w
unfolding handle_success
handle_success-missing env result w n =
    let row = claim_fulfilling_row result.provider_transaction_id (env.clock w) in
    ground (arith, on_row-missing row w.store result.internal_order_id n)

handle_result-success :
    (env : Env) (result : PaymentResult) (w : World)
    → is_success result.status ≡ true
    → handle_result env result result.status w ≡ handle_success env result w
unfolding handle_result
handle_result-success env result w s = ground arith

module _ (k : String) (env : Env) where
  grants-reverse_ags_refund :
      (r : Option FulfillmentReverser) (tx : Transaction) (w : World)
      → grants k (reverse_ags_refund env r tx w).1.history ≡ grants k w.history
  unfolding reverse_ags_refund
  grants-reverse_ags_refund none tx w = ground arith
  grants-reverse_ags_refund (some r) tx w = grind (arith, grants-append)

  grants-handle_provider_refund :
      (result : PaymentResult) (w : World)
      → grants k (handle_provider_refund env result w).1.history ≡ grants k w.history
  unfolding handle_provider_refund
  grants-handle_provider_refund result w = grind (arith, grants-reverse_ags_refund)

  grants-handle_other :
      (result : PaymentResult) (status : PaymentStatus) (w : World)
      → is_success status ≡ false
      → grants k (handle_result env result status w).1.history ≡ grants k w.history
  unfolding handle_result
  grants-handle_other result PaymentStatus.success w n = cc
  grants-handle_other result PaymentStatus.refunded w n = grants-handle_provider_refund result w
  grants-handle_other result PaymentStatus.canceled w n = grind (arith, grants-append)
  grants-handle_other result PaymentStatus.expired w n = grind (arith, grants-append)
  grants-handle_other result PaymentStatus.failed w n = grind (arith, grants-append)
  grants-handle_other result _ w n = refl

  -- The item of k has not been granted, or once, and then the transaction is settled.
  record Once (w : World) : Type 0 where
    count : (grants k w.history ≡ 0) ⊎ ((grants k w.history ≡ 1) × IsSettled k w.store)

  module _ (result : PaymentResult) (w : World) (u : Transaction)
      (found : lookup result.internal_order_id w.store ≡ some u)
      (own : u.id ≡ result.internal_order_id) (p : u.status ≡ Status.pending) where
    -- Under another key nothing changes, in the store and in the count.
    elsewhere :
        (result.internal_order_id == k) ≡ false
        → (lookup k (handle_success env result w).1.store ≡ lookup k w.store)
          × (grants k (handle_success env result w).1.history ≡ grants k w.history)
    unfolding handle_success claim_fulfilling_row
    elsewhere ne = grind (row_laws, grants-append)

    -- A transaction that is pending has no grant so far.
    ungranted : result.internal_order_id ≡ k → Once w → grants k w.history ≡ 0
    unfolding is_settled
    ungranted same h = elim h.count [ inl z ↦ z | inr (_, settled) ↦ ground (arith, settled.at u) ]

    here : result.internal_order_id ≡ k → Once w → Once (handle_success env result w).1
    unfolding is_settled
    here same h = elim (handle_success-pending env result w u found own p) [
      | inl (_, _, b, _, _, e) ↦ record {
        count = inr (
          ground (
            arith,
            ungranted same h,
            e,
            eq_refl k,
            grants-append k w.history (fulfill_item u.user_id u.item_id u.id u.quantity true),
            grants-append k
                (w.history ++ (fulfill_item u.user_id u.item_id u.id u.quantity true ∷ []))
                (notify u.user_id u.id "FULFILLED" u.item_id),
          ),
          record { at = λ tx f. ground (arith, f, b) },
        );
      }
      | inr (_, _, _, _, _, e) ↦ record {
        count = inl (
            ground (
              arith,
              ungranted same h,
              e,
              grants-append k w.history (fulfill_item u.user_id u.item_id u.id u.quantity false),
            ));
      }
    ]

    pending-Once : Once w → Once (handle_success env result w).1
    pending-Once h = elim (Bool-cases (result.internal_order_id == k)) [
      | inl e ↦ here ((eq_iff result.internal_order_id k).0 e) h
      | inr ne ↦
          let (same_row, same_count) = elsewhere ne in
          record {
            count = elim h.count [
              | inl z ↦ inl (same_count ∙ z)
              | inr (one, settled) ↦
                  inr (same_count ∙ one, record { at = λ tx e. settled.at tx (sym same_row ∙ e) })
            ];
          }
    ]

  handle_success-Once :
      (result : PaymentResult) (w : World)
      → IsWellFormed w.store
      → Once w
      → Once (handle_success env result w).1
  handle_success-Once result w v h = elim (Option-cases (lookup result.internal_order_id w.store)) [
    | inl n ↦ rw (handle_success-missing env result w n) h
    | inr (u, f) ↦ elim (pending_cases u) [
      | inl p ↦ pending-Once result w u f (v.keyed result.internal_order_id u f) p h
      | inr ne ↦ rw (handle_success-not_pending env result w u f ne) h
    ]
  ]

  handle_other-Once :
      (result : PaymentResult) (w : World)
      → is_success result.status ≡ false
      → Once w
      → Once (handle_result env result result.status w).1
  handle_other-Once result w n h =
      let same = grants-handle_other result result.status w n in
      record {
        count = elim h.count [
          | inl z ↦ inl (same ∙ z)
          | inr (one, settled) ↦ inr (
            same ∙ one,
            keep-handle_other (IsSettled-keeper k) env result result.status w n settled,
          )
        ];
      }

  handle_webhook-Once :
      (req : WebhookRequest) (w : World)
      → IsWellFormed w.store
      → Once w
      → Once (handle_webhook env req w).1
  handle_webhook-Once req w v h = elim (handle_webhook_gate env req w) [
    | inl (_, _, e) ↦ rw e h
    | inr (_, result, _, _, _, _, e) ↦ elim (Bool-cases (is_success result.status)) [
      | inl s ↦ rw e (rw (handle_result-success env result w s) (handle_success-Once result w v h))
      | inr n ↦ rw e (handle_other-Once result w n h)
    ]
  ]

-- Delivers the webhooks one after the other.
unfoldable pub deliver_all : Env → List WebhookRequest → World → World
deliver_all env [] w = w
deliver_all env (req ∷ rest) w = deliver_all env rest (handle_webhook env req w).1

deliver_all-Once :
    (k : String) (env : Env) (reqs : List WebhookRequest) (w : World)
    → IsWellFormed w.store
    → Once k env w
    → Once k env (deliver_all env reqs w)
unfolding deliver_all
deliver_all-Once k env [] w v h = h
deliver_all-Once k env (req ∷ reqs) w v h =
    deliver_all-Once k env reqs (handle_webhook env req w).1
      (keep-handle_webhook IsWellFormed-keeper env IsWellFormed-reset_keeper req w v)
      (handle_webhook-Once k env req w v h)

-- If an order has no grant yet in a well-formed store, then after any sequence of webhooks, however
-- often a provider repeats them, whatever they say and whatever AGS answers, its item has been
-- granted at most once.
pub grants-deliver_all :
    (k : String) (env : Env) (reqs : List WebhookRequest) (w : World)
    → IsWellFormed w.store
    → grants k w.history ≡ 0
    → grants k (deliver_all env reqs w).history ≤ 1
grants-deliver_all k env reqs w v z =
    let h = deliver_all-Once k env reqs w v (record { count = inl z }) in
    elim h.count [ inl e ↦ ground arith | inr (e, _) ↦ ground arith ]
