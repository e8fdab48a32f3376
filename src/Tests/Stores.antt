-- ===== src/Tests/Stores.antt =====
-- The store, and runs of calls, at concrete inputs.
use extend_regional_payment.Tests.Orders.{shop, alice, gem_order}
use extend_regional_payment.Service.World.{World}
use extend_regional_payment.Prelude.{
  eq_iff, List, [], arith, false, none, refl, some, true, ◌∷◌, ◌≡◌, ◌≢◌,
}
use extend_regional_payment.Prelude.Int.{pos}
use extend_regional_payment.Prelude.Table.{lookup}
use extend_regional_payment.Prelude.Text.{trim_space}
use extend_regional_payment.Service.Calls.{
  Call, new_intent, new_checkout, admin_refund, lost_webhook_job, serve_all, stuck_job,
}
use extend_regional_payment.Service.Calls.Invariant.{serve_all-IsWellFormed}
use extend_regional_payment.Service.Calls.Terms.{
  is_provider_refunded, serve_all-is_provider_refunded, serve_all-terms, terms,
}
use extend_regional_payment.Store.Claims.{
  claim_fulfilling_exclusive, claim_refund, claim_refund_exclusive,
}
use extend_regional_payment.Store.Invariant.{IsWellFormed, run-IsWellFormed}
use extend_regional_payment.Store.Laws.{field_at}
use extend_regional_payment.Store.Listing.{insert_sorted, matches, select, sort_stable, values}
use extend_regional_payment.Store.Listing.Pages.{all_pages, all_pages-matching}
use extend_regional_payment.Store.Memory.{atomic_claim_fulfilling, on_row}
use extend_regional_payment.Store.Ops.{
  commit_fulfilled, commit_refund, delete, on, reset_to_pending, run,
}
use extend_regional_payment.Store.Rows.{claim_fulfilling_row, claim_refunding_row}
use extend_regional_payment.Store.Types.{ListQuery, ok}
use extend_regional_payment.Tests.Fixture.{
  env, fulfilled_gem, half_refunded_gem, pending_gem, stuck_gem, world_of, world_of-IsWellFormed,
}

claim_fulfilling_exclusive_example :
    (atomic_claim_fulfilling "t1" "x-9" 400 (
      run
        (on "t1" (commit_fulfilled "OK" 900) 300 ∷ [])
        (atomic_claim_fulfilling "t1" "x-9" 200 (world_of pending_gem).store).1)).0
    ≢ ok pending_gem
unfolding lookup claim_fulfilling_row on_row
claim_fulfilling_exclusive_example =
    claim_fulfilling_exclusive "t1" "x-9" "x-9" 200 400 (world_of pending_gem).store _ pending_gem
      (on "t1" (commit_fulfilled "OK" 900) 300 ∷ []) refl (refl, tt)

claim_refund_exclusive_example :
    (claim_refund true "t1" "provider refund webhook" 400 (
      run
        (on "t1" commit_refund 300 ∷ [])
        (claim_refund false "t1" "wrong item" 200 (world_of fulfilled_gem).store).1)).0
    ≢ ok fulfilled_gem
unfolding lookup claim_refunding_row on_row
claim_refund_exclusive_example =
    claim_refund_exclusive false true "t1" "wrong item" "provider refund webhook" 200 400
      (world_of fulfilled_gem).store _ fulfilled_gem (on "t1" commit_refund 300 ∷ []) refl
      (refl, tt)

run-IsWellFormed_example :
    IsWellFormed (run (on "t1" reset_to_pending 300 ∷ delete "t1" ∷ []) (world_of stuck_gem).store)
run-IsWellFormed_example =
    run-IsWellFormed (on "t1" reset_to_pending 300 ∷ delete "t1" ∷ []) (world_of stuck_gem).store
      (world_of-IsWellFormed stuck_gem)

-- Two orders of gems, and then the jobs and an administrator come by.
abbrev calls : List Call
calls =
    new_intent alice gem_order
    ∷ new_checkout alice (record gem_order { client_order_id = "order-3" })
    ∷ stuck_job
    ∷ lost_webhook_job
    ∷ admin_refund (record { namespace = "game"; transaction_id = "t1"; reason = "wrong item" })
    ∷ []

new_uuid-t1 : (v : World) → shop.new_uuid v ≢ "t1"
new_uuid-t1 v = λ e. cc ((eq_iff "t2" "t1").1 e)

serve_all-IsWellFormed_example :
    IsWellFormed (serve_all env (λ z. "30000") shop calls (world_of fulfilled_gem)).store
serve_all-IsWellFormed_example =
    serve_all-IsWellFormed env (λ z. "30000") shop calls (world_of fulfilled_gem)
      (world_of-IsWellFormed fulfilled_gem)

serve_all-terms_example :
    field_at terms "t1" (serve_all env (λ z. "30000") shop calls (world_of fulfilled_gem)).store
    ≡ some (terms fulfilled_gem)
unfolding lookup
serve_all-terms_example =
    serve_all-terms "t1" env (λ z. "30000") shop calls (world_of fulfilled_gem) fulfilled_gem
      new_uuid-t1 refl

serve_all-is_provider_refunded_example :
    field_at is_provider_refunded "t1"
      (serve_all env (λ z. "30000") shop calls (world_of half_refunded_gem)).store
    ≡ some true
unfolding lookup
serve_all-is_provider_refunded_example =
    serve_all-is_provider_refunded "t1" env (λ z. "30000") shop calls (world_of half_refunded_gem)
      new_uuid-t1 refl

abbrev query : ListQuery
query = record {
  namespace = "game";
  user_id = "";
  status_filter = none;
  status_filters = [];
  provider_id = "";
  search = "";
  page_size = pos 500;
  cursor = "";
}

all_pages-matching_example :
    all_pages 2 query (world_of pending_gem).store
    ≡ select (matches query) (sort_stable (values (world_of pending_gem).store))
unfolding sort_stable insert_sorted matches trim_space
all_pages-matching_example =
    all_pages-matching (world_of pending_gem).store (world_of-IsWellFormed pending_gem) (refl, tt) 2
      query refl (ground arith)
