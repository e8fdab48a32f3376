-- ===== src/Service/Payment/Create/Paid.antt =====
-- An order from its creation to the grant of the item.
use extend_regional_payment.Prelude.{
  String, ◌≡◌, ◌⊎◌, inl, inr, some, none, true, false, arith, [], ◌∷◌, ◌++◌, sym, ap, ◌∙◌, refl,
}
use extend_regional_payment.Prelude.Int.{ℤ}
use extend_regional_payment.Prelude.Table.{lookup, lookup-insert_self}
use extend_regional_payment.Model.{Status, Transaction}
use extend_regional_payment.Store.Memory.{by_client_order_id}
use extend_regional_payment.Store.Laws.{field_at}
use extend_regional_payment.Adapter.Types.{PaymentResult}
use extend_regional_payment.Adapter.Effects.{fulfill_item, notify}
use extend_regional_payment.Service.World.{World, Env}
use extend_regional_payment.Service.Reply.{is_response}
use extend_regional_payment.Service.Handler.{Context, user_id_from_context}
use extend_regional_payment.Service.Webhook.{handle_success}
use extend_regional_payment.Service.Webhook.Success.{handle_success-pending}
use extend_regional_payment.Service.Payment.Item.{Shop}
use extend_regional_payment.Service.Payment.Create.{
  CreatePaymentIntentRequest, create_payment_intent, new_transaction,
}
use extend_regional_payment.Service.Payment.Create.Gate.{requested}
use extend_regional_payment.Service.Payment.Create.Outcomes.{create_payment_intent-outcomes}

-- The item of a request is granted to the user by one call of AGS, or that call fails.
abbrev pub Settled :
    Env → CreatePaymentIntentRequest → (id user_id : String) → World → World → Type 0
Settled env req id user_id w w' =
    ((env.fulfiller w.history user_id req.item_id id req.quantity ≡ none)
      × (field_at (λ t. t.status) id w'.store ≡ some Status.fulfilled)
      × (w'.history
          ≡ (w.history ++ (fulfill_item user_id req.item_id id req.quantity true ∷ []))
            ++ (notify user_id id "FULFILLED" req.item_id ∷ [])))
    ⊎ ((e : String) × (env.fulfiller w.history user_id req.item_id id req.quantity ≡ some e)
        × (field_at (λ t. t.status) id w'.store ≡ some Status.pending)
        × (w'.history ≡ w.history ++ (fulfill_item user_id req.item_id id req.quantity false ∷ [])))

settled :
    (env : Env) (req : CreatePaymentIntentRequest) (payment : PaymentResult) (w : World)
    (tx : Transaction)
    → lookup payment.internal_order_id w.store ≡ some tx
    → tx.id ≡ payment.internal_order_id
    → tx.status ≡ Status.pending
    → tx.item_id ≡ req.item_id
    → tx.quantity ≡ req.quantity
    → Settled env req tx.id tx.user_id w (handle_success env payment w).1
settled env req payment w tx there own pending item quantity =
    elim (handle_success-pending env payment w tx there own pending) [
      | inl (ags, _, state, _, _, history) ↦
          rw (← item) (rw (← quantity) (inl (ags, rw own state, history)))
      | inr (e, ags, _, state, _, history) ↦
          rw (← item) (rw (← quantity) (inr (e, ags, rw own state, history)))
    ]

-- A new order is carried through: after CreatePaymentIntent has succeeded, the report of its payment
-- makes one call of AGS, for the user who asked and the item and quantity asked for; where AGS grants
-- the item the transaction becomes FULFILLED and the user is notified, and where AGS fails it is
-- PENDING again. The id that uuid.New gives is one that is not in use, and the report comes next.
pub create_payment_intent-granted :
    (decimal : ℤ → String) (env : Env) (shop : Shop) (ctx : Context)
    (req : CreatePaymentIntentRequest) (w : World) (payment : PaymentResult)
    → lookup (shop.new_uuid w) w.store ≡ none
    → by_client_order_id req.client_order_id w.store ≡ none
    → is_response (create_payment_intent decimal env shop ctx req w).0 ≡ true
    → payment.internal_order_id ≡ shop.new_uuid w
    → let w' = (create_payment_intent decimal env shop ctx req w).1 in
      (user_id : String) × (user_id_from_context env ctx ≡ some user_id)
      × Settled env req (shop.new_uuid w) user_id w' (handle_success env payment w').1
unfolding new_transaction
create_payment_intent-granted decimal env shop ctx req w payment new first made id =
    elim (create_payment_intent-outcomes decimal env shop ctx req w new) [
      | inl (failed, _) ↦ ground arith
      | inr (inl (u, replay, _, _)) ↦ ground arith
      | inr (inr (user_id, details, prov, intent, (user, _, _, _, store, _))) ↦
          let tx = requested decimal env shop req w user_id details prov in
          let w' = (create_payment_intent decimal env shop ctx req w).1 in
          let there : lookup payment.internal_order_id w'.store ≡ some tx =
            ap (λ i. lookup i w'.store) id
            ∙ ap (lookup tx.id) store
            ∙ lookup-insert_self tx.id tx w.store in
          (user_id, user, settled env req payment w' tx there (sym id) refl refl refl)
    ]
