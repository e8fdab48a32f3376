-- ===== src/Service/Calls/Terms.antt =====
-- What a player has agreed to pay for, and the record of a refund that was paid back.
use extend_regional_payment.Service.Payment.Item.{Shop}
use extend_regional_payment.Prelude.{
  ◌≢◌, String, ◌≡◌, some, true, false, refl, arith, Bool, Option, none, List, ◌∙◌, Option-cases,
  inl, inr,
}
use extend_regional_payment.Prelude.Int.{ℤ}
use extend_regional_payment.Prelude.Table.{lookup}
use extend_regional_payment.Model.{Time, Transaction, Refund}
use extend_regional_payment.Store.Ops.{RowOp, row_after, claim_fulfilling}
use extend_regional_payment.Store.Laws.{field_at}
use extend_regional_payment.Service.World.{World, Env}
use extend_regional_payment.Service.Calls.{Call, serve_all}
use extend_regional_payment.Service.Calls.Stands.{serve_all-Stands}

-- Who buys what, for how much, and until when.
pub record Terms : Type 0 where
  pub user_id : String
  pub namespace : String
  pub client_order_id : String
  pub item_id : String
  pub quantity : ℤ
  pub region_code : String
  pub amount : ℤ
  pub currency_code : String
  pub created_at : Time
  pub expires_at : Time

abbrev pub terms : Transaction → Terms
terms tx = record {
  user_id = tx.user_id;
  namespace = tx.namespace;
  client_order_id = tx.client_order_id;
  item_id = tx.item_id;
  quantity = tx.quantity;
  region_code = tx.region_code;
  amount = tx.amount;
  currency_code = tx.currency_code;
  created_at = tx.created_at;
  expires_at = tx.expires_at;
}

terms-row_after :
    (o : RowOp) (now : Time) (tx : Transaction) → terms (row_after o now tx) ≡ terms tx
unfolding row_after
terms-row_after (claim_fulfilling p) now tx = ground arith
terms-row_after _ now tx = ground arith

-- No sequence of webhooks, jobs and requests of players and administrators, those that create a
-- transaction or take it back included, removes a transaction or changes its terms, if uuid.New does
-- not give its id again: the user, the item and its quantity, the amount and the currency, the
-- namespace, region and order id, and when it was made and expires.
pub serve_all-terms :
    (k : String) (env : Env) (decimal : ℤ → String) (shop : Shop) (cs : List Call) (w : World)
    (tx : Transaction)
    → ((v : World) → shop.new_uuid v ≢ k)
    → lookup k w.store ≡ some tx
    → field_at terms k (serve_all env decimal shop cs w).store ≡ some (terms tx)
serve_all-terms k env decimal shop cs w tx new e =
    let (u, f, same) =
      serve_all-Stands (λ u. terms u ≡ terms tx) k (λ o now u h. terms-row_after o now u ∙ h) env
        decimal shop cs w new (tx, e, refl) in
    ground arith

abbrev pub flag_of_refund : Option Refund → Bool
flag_of_refund none = false
flag_of_refund (some r) = r.provider_refunded

abbrev pub is_provider_refunded : Transaction → Bool
is_provider_refunded tx = flag_of_refund tx.refund

is_provider_refunded-row_after :
    (o : RowOp) (now : Time) (tx : Transaction)
    → is_provider_refunded tx ≡ true
    → is_provider_refunded (row_after o now tx) ≡ true
unfolding row_after
is_provider_refunded-row_after (claim_fulfilling p) now tx h = ground arith
is_provider_refunded-row_after _ now tx h = ground arith

-- Once it is recorded that the provider has paid a transaction back, no sequence of webhooks, jobs
-- and requests of players and administrators, those that create a transaction or take it back
-- included, loses that record, if uuid.New does not give its id again.
pub serve_all-is_provider_refunded :
    (k : String) (env : Env) (decimal : ℤ → String) (shop : Shop) (cs : List Call) (w : World)
    → ((v : World) → shop.new_uuid v ≢ k)
    → field_at is_provider_refunded k w.store ≡ some true
    → field_at is_provider_refunded k (serve_all env decimal shop cs w).store ≡ some true
serve_all-is_provider_refunded k env decimal shop cs w new h =
    elim (Option-cases (lookup k w.store)) [
      | inl n ↦ ground arith
      | inr (tx, e) ↦
          let (u, f, q) =
            serve_all-Stands (λ u. is_provider_refunded u ≡ true) k is_provider_refunded-row_after
              env decimal shop cs w new (tx, e, ground arith) in
          ground arith
    ]
