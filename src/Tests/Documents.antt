-- ===== src/Tests/Documents.antt =====
-- The document store at concrete inputs.
use extend_regional_payment.Store.Memory.{on_row}
use extend_regional_payment.Store.Rows
use extend_regional_payment.Prelude.{arith}
use extend_regional_payment.Prelude.Table.{update}
use extend_regional_payment.DocDb.Refinement.{row_of}
use extend_regional_payment.DocDb.Documented.{date}
use extend_regional_payment.Tests.Collection.{driver, driver-Documented, get}
use extend_regional_payment.DocDb.Documented.{Stored, meets}
use extend_regional_payment.DocDb.Filters.{list_filter-matches}
use extend_regional_payment.DocDb.Listing.{list_filter}
use extend_regional_payment.DocDb.Refinement.{Call, replay, replay-refines, replay_memory}
use extend_regional_payment.DocDb.Writes.{fetch}
use extend_regional_payment.Model.{Status}
use extend_regional_payment.Prelude.{List, [], false, inr, refl, some, ◌∷◌, ◌≡◌}
use extend_regional_payment.Prelude.Int.{pos}
use extend_regional_payment.Prelude.Table.{lookup}
use extend_regional_payment.Store.Listing.{matches}
use extend_regional_payment.Store.Ops.{RowOp}
use extend_regional_payment.Store.Types.{ListQuery}
use extend_regional_payment.Tests.Collection.{driver, driver-Documented}
use extend_regional_payment.Tests.Fixture.{pending_gem, world_of}

-- A payment that is claimed, granted and refunded, and a call about one that is not there.
abbrev calls : List Call
calls =
    ("t1", RowOp.claim_fulfilling "x-9", 7000000)
    ∷ ("t1", RowOp.commit_fulfilled "PAID" 99000000, 8000000)
    ∷ ("t2", RowOp.mark_canceled "late" "" 99000000, 8500000)
    ∷ ("t1", RowOp.claim_refunding "wrong item", 9000000)
    ∷ ("t1", RowOp.commit_refund, 9500000)
    ∷ []

abbrev stored_gem : Stored
stored_gem = record { tx = pending_gem; has_provider_tx_id = false }

replay-refines_example :
    let m = (world_of pending_gem).store in
    ((replay driver calls (some stored_gem)).0 ≡ (replay_memory calls m).0)
    × (fetch get (replay driver calls (some stored_gem)).1 "t1"
        ≡ lookup "t1" (replay_memory calls m).1)
unfolding get lookup on_row update row_of date Rows.claim_fulfilling_row Rows.commit_fulfilled_row
    Rows.claim_refunding_row
replay-refines_example =
    replay-refines driver-Documented calls (some stored_gem) (world_of pending_gem).store "t1"
      (λ i. ground arith) (tt, (refl, (tt, (tt, ((_, refl), tt)))))

abbrev gem_query : ListQuery
gem_query = record {
  namespace = "game";
  user_id = "";
  status_filter = some Status.pending;
  status_filters = [];
  provider_id = "xendit";
  search = " gem ";
  page_size = pos 10;
  cursor = "";
}

list_filter-matches_example :
    meets (list_filter gem_query) stored_gem ≡ matches gem_query stored_gem.tx
list_filter-matches_example = list_filter-matches gem_query stored_gem refl (inr refl)
