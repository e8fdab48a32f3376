-- ===== src/Tests/Orders.antt =====
-- The creation of a payment and of its checkout session at concrete inputs.
use extend_regional_payment.Prelude.{
  String, true, false, [], ◌++◌, ◌∷◌, ℕ, ◌*◌, arith, refl, some, ◌≡◌, ◌≤◌, ◌⊎◌, none,
}
use extend_regional_payment.Prelude.Int.{ℤ, pos}
use extend_regional_payment.Prelude.Table.{lookup, insert}
use extend_regional_payment.Prelude.Found.{found}
use extend_regional_payment.Prelude.Text.{to_upper, trim_space}
use extend_regional_payment.Model.{Transaction}
use extend_regional_payment.Store.Memory.{by_client_order_id}
use extend_regional_payment.Adapter.Types.{PaymentIntent}
use extend_regional_payment.Adapter.Effects.{create_intent}
use extend_regional_payment.Adapter.Provider.{PaymentProvider}
use extend_regional_payment.Service.Reply.{is_response, reply, TransactionStatus}
use extend_regional_payment.Service.Handler.{Context, user_id_from_context}
use extend_regional_payment.Service.Payment.{payment_response}
use extend_regional_payment.Service.Payment.Item.{
  FullItemInfo, RegionDataItem, Shop, ItemDetails, normalize_region_code, normalize_ags_price,
  priced_item, item_in_region, item_details_from_full_item, lookup_item_details,
}
use extend_regional_payment.Service.Payment.Create.{
  CreatePaymentIntentRequest, create_payment_intent, tx_to_create_response, new_transaction,
}
use extend_regional_payment.Service.Payment.Create.Gate.{requested}
use extend_regional_payment.Service.Payment.Create.Amount.{UnitPrice, new_transaction-amount}
use extend_regional_payment.Service.Payment.Create.Outcomes.{create_payment_intent-outcomes}
use extend_regional_payment.Prelude.{ltb, if◌then◌else◌}
use extend_regional_payment.Tests.Fixture.{report}
use extend_regional_payment.Service.Webhook.{handle_success}
use extend_regional_payment.Service.Payment.Create.Paid.{Settled, create_payment_intent-granted}
use extend_regional_payment.Service.Payment.Create.{order_at_provider, order_item, submit}
use extend_regional_payment.Store.Memory.{create_transaction}
use extend_regional_payment.Store.Listing.{count_pending_by_user}
use extend_regional_payment.Service.Payment.{init_request}
use extend_regional_payment.Session.{
  Session, get, get_valid_for_selection, create, created, swept, after_all,
}
use extend_regional_payment.Session.Lifetime.{created-available}
use extend_regional_payment.Tests.Fixture.{env, world_of, pending_gem}

abbrev gem_price : RegionDataItem
gem_price = record { price = pos 1500050; currency_code = some "IDR"; currency_type = some "real " }

abbrev gem_info : FullItemInfo
gem_info = record { name = some "Gem"; region_data = ("ID", gem_price ∷ []) ∷ [] }

abbrev pub shop : Shop
shop = record {
  get_item = λ w namespace id. found (some gem_info);
  new_uuid = λ w. "t2";
  return_url = λ url id. url;
  quote = λ s. s;
  upper_rune = λ c. c;
}

abbrev pub gem_order : CreatePaymentIntentRequest
gem_order = record {
  item_id = "gem";
  quantity = pos 2;
  client_order_id = "order-2";
  provider_id = "xendit";
  region_code = "id";
  description = "Two gems";
}

abbrev gem_details : ItemDetails
gem_details = record {
  name = "Gem";
  unit_price = pos 15000;
  currency_code = "IDR";
  region_code = "ID";
}

new_transaction-amount_example :
    (p : ℕ) × (unit : ℕ) × (gem_price.price ≡ pos p)
    × (1 ≤ p)
    × UnitPrice shop gem_price.currency_type p unit
    × ((new_transaction env "alice" gem_order gem_details "t2" "xendit" "Xendit" 100).amount
        ≡ pos (unit * 2))
unfolding item_details_from_full_item normalize_region_code normalize_ags_price to_upper trim_space
    lookup priced_item item_in_region
new_transaction-amount_example =
    new_transaction-amount env shop "alice" "id" gem_order gem_info gem_details "t2" "xendit"
      "Xendit" 100 gem_price [] 2 refl refl (omega arith) refl (omega arith)

abbrev pub alice : Context
alice = some (("x-auth-user-id", "alice" ∷ []) ∷ [])

create_payment_intent-outcomes_example :
    let decimal : ℤ → String = λ z. "30000" in
    let ctx = alice in
    let w = world_of pending_gem in
    let (result, w') = create_payment_intent decimal env shop ctx gem_order w in
    ((is_response result ≡ false) × (w'.store ≡ w.store))
    ⊎ (((u : Transaction) × (by_client_order_id gem_order.client_order_id w.store ≡ some u)
          × (result ≡ reply (tx_to_create_response u))
          × (w' ≡ w))
        ⊎ ((user_id : String) × (details : ItemDetails) × (prov : PaymentProvider)
            × (intent : PaymentIntent) × let tx =
                  requested decimal env shop gem_order w user_id details prov in
                (user_id_from_context env ctx ≡ some user_id)
                × (lookup_item_details env shop gem_order.item_id gem_order.region_code w
                    ≡ found details)
                × (by_client_order_id gem_order.client_order_id w.store ≡ none)
                × (result ≡ reply (payment_response tx intent TransactionStatus.pending))
                × (w'.store ≡ insert tx.id tx w.store)
                × (w'.history ≡ w.history ++ (create_intent tx.id true ∷ []))))
unfolding lookup
create_payment_intent-outcomes_example =
    create_payment_intent-outcomes (λ z. "30000") env shop alice gem_order (world_of pending_gem)
      refl

abbrev gem_session : Session
gem_session = record {
  id = "";
  transaction_id = "t1";
  user_id = "alice";
  description = "";
  item_name = "Gem";
  item_id = "gem";
  quantity = pos 1;
  unit_price = pos 15000;
  total_price = pos 15000;
  currency_code = "IDR";
  region_code = "ID";
  expires_at = 5000;
}

created-available_example :
    let kept = record gem_session { id = "s1" } in
    let es = created "s2" gem_session ∷ swept 86400000000000 ∷ [] in
    let s' = after_all es (create "s1" gem_session []).1 in
    (get "s1" s' ≡ some kept)
    × (get_valid_for_selection 6000 "s1" s' ≡ (if ltb 5000 6000 then none else some kept))
created-available_example =
    created-available "s1" gem_session [] (created "s2" gem_session ∷ swept 86400000000000 ∷ [])
      6000 (refl, (omega arith, tt))

order_made :
    is_response
      (create_payment_intent (λ z. "30000") env shop alice gem_order (world_of pending_gem)).0
    ≡ true
unfolding create_payment_intent order_at_provider order_item submit lookup_item_details
    item_details_from_full_item normalize_region_code normalize_ags_price to_upper trim_space lookup
    create_transaction count_pending_by_user user_id_from_context new_transaction init_request
order_made = refl

create_payment_intent-granted_example :
    let w = world_of pending_gem in
    let payment = record report { internal_order_id = "t2" } in
    let w' = (create_payment_intent (λ z. "30000") env shop alice gem_order w).1 in
    (user_id : String) × (user_id_from_context env alice ≡ some user_id)
    × Settled env gem_order "t2" user_id w' (handle_success env payment w').1
unfolding lookup by_client_order_id
create_payment_intent-granted_example =
    create_payment_intent-granted (λ z. "30000") env shop alice gem_order (world_of pending_gem)
      (record report { internal_order_id = "t2" }) refl refl order_made refl
