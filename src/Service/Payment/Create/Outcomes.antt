-- ===== src/Service/Payment/Create/Outcomes.antt =====
-- What CreatePaymentIntent leaves behind, on every path.
use extend_regional_payment.Prelude.{
  String, ◌≡◌, ◌⊎◌, inl, inr, some, none, true, false, arith, Option-cases, [], ◌∷◌, ◌++◌, subst,
  sym, ap,
}
use extend_regional_payment.Prelude.Int.{ℤ}
use extend_regional_payment.Prelude.Table.{lookup, insert, erase-insert}
use extend_regional_payment.Model.{Transaction}
use extend_regional_payment.Store.Memory.{by_client_order_id, find_by_client_order_id}
use extend_regional_payment.Store.Laws.{create-fresh, create-duplicate}
use extend_regional_payment.Adapter.Types.{Answer-cases, PaymentIntent}
use extend_regional_payment.Adapter.Effects.{create_intent}
use extend_regional_payment.Adapter.Provider.{PaymentProvider}
use extend_regional_payment.Service.World.{World, Env}
use extend_regional_payment.Service.Reply.{Reply, is_response, reply, TransactionStatus}
use extend_regional_payment.Service.Handler.{Context, user_id_from_context}
use extend_regional_payment.Service.Payment.{
  CreatePaymentIntentResponse, init_request, payment_response,
}
use extend_regional_payment.Service.Payment.Item.{Shop, ItemDetails}
use extend_regional_payment.Service.Payment.Create.{
  CreatePaymentIntentRequest, create_payment_intent, submit, tx_to_create_response,
  lookup_item_details, found, new_transaction,
}
use extend_regional_payment.Service.Payment.Create.Gate.{create_payment_intent_gate, requested}

-- The call failed and the store is as it was; or the order has a transaction already, the reply is
-- about that one, and nothing has changed; or tx is new in the store, the provider was asked once and
-- made a payment, and the reply shows it.
abbrev pub Submitted : World → Transaction → Reply CreatePaymentIntentResponse × World → Type 0
Submitted w tx (result, w') =
    ((is_response result ≡ false) × (w'.store ≡ w.store))
    ⊎ ((((u : Transaction) × (by_client_order_id tx.client_order_id w.store ≡ some u)
          × (result ≡ reply (tx_to_create_response u))
          × (w' ≡ w)))
        ⊎ ((intent : PaymentIntent) × (by_client_order_id tx.client_order_id w.store ≡ none)
            × (result ≡ reply (payment_response tx intent TransactionStatus.pending))
            × (w'.store ≡ insert tx.id tx w.store)
            × (w'.history ≡ w.history ++ (create_intent tx.id true ∷ []))))

module _ (env : Env) (shop : Shop) (tx : Transaction) (prov : PaymentProvider)
    (description : String) (w : World) where
  again :
      (u : Transaction)
      → by_client_order_id tx.client_order_id w.store ≡ some u
      → submit env shop tx prov description w ≡ (reply (tx_to_create_response u), w)
  unfolding submit find_by_client_order_id
  again u e = ground (arith, create-duplicate tx u w.store e)

  anew :
      by_client_order_id tx.client_order_id w.store ≡ none
      → lookup tx.id w.store ≡ none
      → Submitted w tx (submit env shop tx prov description w)
  unfolding submit
  anew e new =
      let request = init_request env shop.return_url tx tx.provider_id description in
      elim (Option-cases (prov.validate_payment_init request)) [
        | inr (bad, v) ↦ inl (
          ground (arith, create-fresh tx w.store e),
          ground (arith, create-fresh tx w.store e, erase-insert tx.id tx w.store),
        )
        | inl v ↦ elim (Answer-cases (prov.create_payment_intent w.history request)) [
          | inr (bad, c) ↦ inl (
            ground (arith, create-fresh tx w.store e),
            ground (arith, create-fresh tx w.store e, erase-insert tx.id tx w.store),
          )
          | inl (intent, c) ↦ inr (
              inr (
                intent,
                e,
                ground (arith, create-fresh tx w.store e),
                ground (arith, create-fresh tx w.store e),
                ground (arith, create-fresh tx w.store e),
              ))
        ]
      ]

  pub submit-outcomes :
      lookup tx.id w.store ≡ none → Submitted w tx (submit env shop tx prov description w)
  submit-outcomes new = elim (Option-cases (by_client_order_id tx.client_order_id w.store)) [
    | inl e ↦ anew e new
    | inr (u, e) ↦ inr (inl (u, e, ap (λ x. x.0) (again u e), ap (λ x. x.1) (again u e)))
  ]

-- CreatePaymentIntent either fails, and the store is as it was, also if the provider refused or
-- failed after the row was inserted; or the order has a transaction already, the reply is about that
-- one and nothing changes, so that a repeated request neither pays nor stores twice; or there is one
-- new transaction, pending, of the user, for the item's price, and the provider was asked once. The
-- id that uuid.New gives is one that is not in use.
pub create_payment_intent-outcomes :
    (decimal : ℤ → String) (env : Env) (shop : Shop) (ctx : Context)
    (req : CreatePaymentIntentRequest) (w : World)
    → lookup (shop.new_uuid w) w.store ≡ none
    → let (result, w') = create_payment_intent decimal env shop ctx req w in
      ((is_response result ≡ false) × (w'.store ≡ w.store))
      ⊎ (((u : Transaction) × (by_client_order_id req.client_order_id w.store ≡ some u)
            × (result ≡ reply (tx_to_create_response u))
            × (w' ≡ w))
          ⊎ ((user_id : String) × (details : ItemDetails) × (prov : PaymentProvider)
              × (intent : PaymentIntent) × let tx =
                    requested decimal env shop req w user_id details prov in
                  (user_id_from_context env ctx ≡ some user_id)
                  × (lookup_item_details env shop req.item_id req.region_code w ≡ found details)
                  × (by_client_order_id req.client_order_id w.store ≡ none)
                  × (result ≡ reply (payment_response tx intent TransactionStatus.pending))
                  × (w'.store ≡ insert tx.id tx w.store)
                  × (w'.history ≡ w.history ++ (create_intent tx.id true ∷ []))))
unfolding new_transaction
create_payment_intent-outcomes decimal env shop ctx req w new =
    elim (create_payment_intent_gate decimal env shop req w ctx) [
      | inl (failed, same) ↦ inl (failed, ap (λ v. v.store) same)
      | inr (user_id, details, prov, user, price, _, e) ↦
          let tx = requested decimal env shop req w user_id details prov in
          let done : Submitted w tx (create_payment_intent decimal env shop ctx req w) =
            subst (Submitted w tx) (sym e)
              (submit-outcomes env shop tx prov req.description w new) in
          elim done [
            | inl refused ↦ inl refused
            | inr (inl replay) ↦ inr (inl replay)
            | inr (inr (intent, order, answer, store, history)) ↦
                inr (
                  inr
                    (user_id, details, prov, intent, (user, price, order, answer, store, history)))
          ]
    ]
