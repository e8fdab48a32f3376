-- ===== src/Store/Ops.antt =====
-- The writing operations of the store as data, so that a sequence of calls is a list, whoever makes
-- them. A row operation addresses one document.
use extend_regional_payment.Prelude.{String, List, [], ◌∷◌}
use extend_regional_payment.Prelude.{◌≡◌, arith}
use extend_regional_payment.Model.{canceled, expired, Time, Transaction}
use extend_regional_payment.Store.Types.{ok}
use extend_regional_payment.Store.Rows.{
  Row, claim_fulfilling_row, commit_fulfilled_row, mark_failed_row, mark_terminal_if_pending_row,
  attach_provider_row, clear_provider_row, update_provider_tx_id_row, increment_retries_row,
  reset_to_pending_row, claim_refunding_row, claim_external_refunding_row,
  mark_refund_provider_succeeded_row, commit_refund_row, mark_refund_failed_row,
}
use extend_regional_payment.Store.Memory.{Store, on_row, create_transaction, delete_transaction}

pub data RowOp : Type 0 where
  claim_fulfilling : (provider_tx_id : String) → RowOp
  commit_fulfilled : (provider_status : String) → Time → RowOp
  mark_failed : (reason : String) → Time → RowOp
  mark_canceled mark_expired : (reason provider_status : String) → Time → RowOp
  attach_provider : (provider_id display_name provider_tx_id payment_url : String) → RowOp
  clear_provider update_provider_tx_id : (provider_tx_id : String) → RowOp
  increment_retries reset_to_pending : RowOp
  claim_refunding claim_external_refunding : (reason : String) → RowOp
  mark_refund_provider_succeeded commit_refund : RowOp
  mark_refund_failed : (reason : String) → RowOp

-- The document after the operation.
unfoldable pub row_after : RowOp → Time → Transaction → Transaction
unfolding claim_fulfilling_row commit_fulfilled_row mark_failed_row mark_terminal_if_pending_row
    attach_provider_row clear_provider_row update_provider_tx_id_row increment_retries_row
    reset_to_pending_row claim_refunding_row claim_external_refunding_row
    mark_refund_provider_succeeded_row commit_refund_row mark_refund_failed_row
row_after (claim_fulfilling p) now tx = (claim_fulfilling_row p now tx).1
row_after (commit_fulfilled p d) now tx = (commit_fulfilled_row p d now tx).1
row_after (mark_failed r d) now tx = (mark_failed_row r d now tx).1
row_after (mark_canceled r p d) now tx = (mark_terminal_if_pending_row canceled r p d now tx).1
row_after (mark_expired r p d) now tx = (mark_terminal_if_pending_row expired r p d now tx).1
row_after (attach_provider i n p u) now tx = (attach_provider_row i n p u now tx).1
row_after (clear_provider p) now tx = (clear_provider_row p now tx).1
row_after (update_provider_tx_id p) now tx = (update_provider_tx_id_row p now tx).1
row_after increment_retries now tx = (increment_retries_row now tx).1
row_after reset_to_pending now tx = (reset_to_pending_row now tx).1
row_after (claim_refunding r) now tx = (claim_refunding_row r now tx).1
row_after (claim_external_refunding r) now tx = (claim_external_refunding_row r now tx).1
row_after mark_refund_provider_succeeded now tx = (mark_refund_provider_succeeded_row now tx).1
row_after commit_refund now tx = (commit_refund_row now tx).1
row_after (mark_refund_failed r) now tx = (mark_refund_failed_row r now tx).1

pub data Op : Type 0 where
  create : Transaction → Op
  delete : (txn_id : String) → Op
  on : (txn_id : String) → RowOp → Time → Op

-- An operation as a row, with a result that says nothing.
abbrev pub as_row : RowOp → Time → Row (Unit {0})
as_row o now tx = (ok tt, row_after o now tx)

unfoldable pub step : Op → Store → Store
step (create tx) s = (create_transaction tx s).1
step (delete id) s = (delete_transaction id s).1
step (on id o now) s = (on_row id (as_row o now) s).1

unfoldable pub run : List Op → Store → Store
run [] s = s
run (o ∷ os) s = run os (step o s)

-- No operation changes the identity of a document.
pub id-row_after : (o : RowOp) (now : Time) (tx : Transaction) → (row_after o now tx).id ≡ tx.id
unfolding row_after
id-row_after (claim_fulfilling p) now tx = ground arith
id-row_after _ now tx = ground arith

pub client_order_id-row_after :
    (o : RowOp) (now : Time) (tx : Transaction)
    → (row_after o now tx).client_order_id ≡ tx.client_order_id
unfolding row_after
client_order_id-row_after (claim_fulfilling p) now tx = ground arith
client_order_id-row_after _ now tx = ground arith
