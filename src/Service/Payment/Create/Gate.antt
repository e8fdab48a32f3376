-- ===== src/Service/Payment/Create/Gate.antt =====
-- The tests of CreatePaymentIntent before it inserts a row.
use extend_regional_payment.Prelude.{
  String, ◌==◌, ◌≡◌, ◌⊎◌, inl, inr, some, false, arith, Option-cases, Bool-cases,
}
use extend_regional_payment.Prelude.Int.{ℤ, pos, ltb_ℤ, leb_ℤ}
use extend_regional_payment.Prelude.Text.{trim_space}
use extend_regional_payment.Model.{Transaction}
use extend_regional_payment.Store.Listing.{count_pending_by_user}
use extend_regional_payment.Adapter.Provider.{PaymentProvider, get}
use extend_regional_payment.Service.World.{World, Env}
use extend_regional_payment.Prelude.{sym, subst, ◌∙◌, ◌||◌}
use extend_regional_payment.Service.Payment.{CreatePaymentIntentResponse}
use extend_regional_payment.Service.Reply.{Reply, is_response}
use extend_regional_payment.Service.Handler.{Context, user_id_from_context}
use extend_regional_payment.Prelude.Found.{Found-cases, found}
use extend_regional_payment.Service.Payment.Item.{Shop, ItemDetails, lookup_item_details}
use extend_regional_payment.Service.Payment.Create.{
  CreatePaymentIntentRequest, create_payment_intent, order_at_provider, order_item, new_transaction,
  submit,
}

-- A call that is refused and changes nothing.
abbrev pub Refused : Reply CreatePaymentIntentResponse × World → World → Type 0
Refused (result, w') w = (is_response result ≡ false) × (w' ≡ w)

module _ (decimal : ℤ → String) (env : Env) (shop : Shop) (req : CreatePaymentIntentRequest)
    (w : World) where
  -- The transaction that the request makes for a user and an item.
  abbrev pub requested : String → ItemDetails → PaymentProvider → Transaction
  requested user_id details prov =
      new_transaction env user_id req details (shop.new_uuid w) (trim_space req.provider_id)
        prov.info.display_name (env.clock w)

  item_gate :
      (user_id : String) (prov : PaymentProvider)
      → Refused (order_item decimal env shop req user_id (trim_space req.provider_id) prov w) w
        ⊎ ((details : ItemDetails) × (lookup_item_details env shop req.item_id req.region_code w
              ≡ found details)
            × (order_item decimal env shop req user_id (trim_space req.provider_id) prov w
                ≡ submit env shop (requested user_id details prov) prov req.description w))
  unfolding order_item
  item_gate user_id prov =
      elim (Found-cases (lookup_item_details env shop req.item_id req.region_code w)) [
        | inr (e, n) ↦ inl (ground arith, ground arith)
        | inl (details, f) ↦
            elim (Bool-cases (
              leb_ℤ env.cfg.max_concurrent_intent_per_user
                (pos (count_pending_by_user env.cfg.ab_namespace user_id w.store)))) [
                  | inl e ↦ inl (ground arith, ground arith)
                  | inr e ↦ inr (details, f, ground arith)
                ]
      ]

  provider_gate :
      (user_id : String)
      → Refused (order_at_provider decimal env shop req user_id w) w
        ⊎ ((prov : PaymentProvider) × (get (trim_space req.provider_id) env.registry ≡ some prov)
            × (order_at_provider decimal env shop req user_id w
                ≡ order_item decimal env shop req user_id (trim_space req.provider_id) prov w))
  unfolding order_at_provider
  provider_gate user_id = elim (Option-cases (get (trim_space req.provider_id) env.registry)) [
    | inl n ↦ inl (ground arith, ground arith)
    | inr (prov, g) ↦
        elim (Bool-cases (
          req.item_id == ""
          || ltb_ℤ req.quantity (pos 1)
          || req.client_order_id == ""
          || trim_space req.provider_id == "")) [
            | inl b ↦ inl (ground arith, ground arith)
            | inr b ↦ inr (prov, g, ground arith)
          ]
  ]

  user_gate :
      (ctx : Context)
      → Refused (create_payment_intent decimal env shop ctx req w) w
        ⊎ ((user_id : String) × (user_id_from_context env ctx ≡ some user_id)
            × (create_payment_intent decimal env shop ctx req w
                ≡ order_at_provider decimal env shop req user_id w))
  unfolding create_payment_intent
  user_gate ctx = elim (Option-cases (user_id_from_context env ctx)) [
    | inl n ↦ inl (ground arith, ground arith)
    | inr (user_id, u) ↦ inr (user_id, u, ground arith)
  ]

  -- The user is known, the item has a price and the provider is registered, and the rest runs.
  abbrev pub Admitted : Context → Type 0
  Admitted ctx =
      (user_id : String) × (details : ItemDetails) × (prov : PaymentProvider)
      × (user_id_from_context env ctx ≡ some user_id)
      × (lookup_item_details env shop req.item_id req.region_code w ≡ found details)
      × (get (trim_space req.provider_id) env.registry ≡ some prov)
      × (create_payment_intent decimal env shop ctx req w
          ≡ submit env shop (requested user_id details prov) prov req.description w)

  -- Before CreatePaymentIntent changes anything, the user, the item's price and the provider are
  -- known, and the request passes its tests.
  pub create_payment_intent_gate :
      (ctx : Context) → Refused (create_payment_intent decimal env shop ctx req w) w ⊎ Admitted ctx
  create_payment_intent_gate ctx = elim (user_gate ctx) [
    | inl r ↦ inl r
    | inr (user_id, u, e) ↦ elim (provider_gate user_id) [
      | inl r ↦ inl (subst (λ x. Refused x w) (sym e) r)
      | inr (prov, g, f) ↦ elim (item_gate user_id prov) [
        | inl r ↦ inl (subst (λ x. Refused x w) (sym (e ∙ f)) r)
        | inr (details, l, h) ↦ inr (user_id, details, prov, u, l, g, e ∙ f ∙ h)
      ]
    ]
  ]
