-- ===== src/Store/Rows.antt =====
-- internal/store/memory/memory.go: what each operation does to the document that it has looked up,
-- from the test of its status on. A row returns the operation's result and the document after it.
use extend_regional_payment.Prelude.{String, ◌==◌, Bool, true, false, not, ◌||◌}
use extend_regional_payment.Prelude.{Option, none, some, if◌then◌else◌}
use extend_regional_payment.Prelude.Int.{pos, ◌+ℤ◌, to_int32}
use extend_regional_payment.Model.{
  Status, pending, fulfilling, fulfilled, failed, refunding, refunded, refund_failed, same_status,
  same_refund_status, Time, Refund, Transaction,
}
use extend_regional_payment.Store.Types.{Result, ok, err, no_documents}

abbrev pub Row : Type 0 → Type 0
Row A = Transaction → Result A × Transaction

unfoldable pub claim_fulfilling_row : String → Time → Row Transaction
claim_fulfilling_row provider_tx_id now tx =
    let claimed : Transaction = record tx {
      status = fulfilling;
      provider_tx_id = provider_tx_id;
      updated_at = now;
    } in
    if not (same_status tx.status pending) then (err no_documents, tx) else (ok claimed, claimed)

unfoldable pub commit_fulfilled_row : String → Time → Time → Row (Unit {0})
commit_fulfilled_row provider_status delete_at now tx = (
  ok tt,
  record tx {
    status = fulfilled;
    provider_status = provider_status;
    delete_at = delete_at;
    updated_at = now;
  },
)

unfoldable pub mark_failed_row : String → Time → Time → Row (Unit {0})
mark_failed_row reason delete_at now tx = (
  ok tt,
  record tx { status = failed; failure_reason = reason; delete_at = delete_at; updated_at = now },
)

unfoldable pub mark_terminal_if_pending_row :
    Status → String → String → Time → Time → Row (Unit {0})
mark_terminal_if_pending_row terminal_status reason provider_status delete_at now tx =
    if not (same_status tx.status pending) then (err no_documents, tx) else (
      ok tt,
      record tx {
        status = terminal_status;
        failure_reason = reason;
        provider_status = provider_status;
        delete_at = delete_at;
        updated_at = now;
      },
    )

unfoldable pub attach_provider_row : String → String → String → String → Time → Row (Unit {0})
attach_provider_row provider_id display_name provider_tx_id payment_url now tx =
    if not (same_status tx.status pending) || not (tx.provider_tx_id == "")
    then (err no_documents, tx)
    else (
      ok tt,
      record tx {
        provider_id = provider_id;
        provider_display_name = display_name;
        provider_tx_id = provider_tx_id;
        payment_url = payment_url;
        updated_at = now;
      },
    )

unfoldable pub clear_provider_row : String → Time → Row (Unit {0})
clear_provider_row provider_tx_id now tx =
    if not (same_status tx.status pending)
      || tx.provider_tx_id == ""
      || not (tx.provider_tx_id == provider_tx_id)
    then (err no_documents, tx)
    else (
      ok tt,
      record tx {
        provider_id = "";
        provider_display_name = "";
        provider_tx_id = "";
        payment_url = "";
        provider_status = "";
        updated_at = now;
      },
    )

unfoldable pub update_provider_tx_id_row : String → Time → Row (Unit {0})
update_provider_tx_id_row provider_tx_id now tx =
    (ok tt, record tx { provider_tx_id = provider_tx_id; updated_at = now })

-- `tx.Retries++` on an int32
unfoldable pub increment_retries_row : Time → Row (Unit {0})
increment_retries_row now tx =
    (ok tt, record tx { retries = to_int32 (tx.retries +ℤ pos 1); updated_at = now })

unfoldable pub reset_to_pending_row : Time → Row (Unit {0})
reset_to_pending_row now tx = (ok tt, record tx { status = pending; updated_at = now })

-- Whether the refund of a fulfilled transaction can be claimed.
abbrev pub is_refund_claimable : Option Refund → Bool
is_refund_claimable none = true
is_refund_claimable (some r) = same_refund_status r.status refund_failed

-- The document's refund, or a new one.
abbrev pub refund_or_new : Option Refund → Time → Refund
refund_or_new none now = record {
  status = refunding;
  reason = "";
  failure_reason = "";
  provider_refunded = false;
  created_at = now;
  updated_at = now;
}
refund_or_new (some r) now = r

unfoldable pub claim_refunding_row : String → Time → Row Transaction
claim_refunding_row reason now tx =
    let claimed : Transaction = record tx {
      refund = some (record (refund_or_new tx.refund now) {
        status = refunding;
        reason = reason;
        failure_reason = "";
        updated_at = now;
      });
      updated_at = now;
    } in
    if not (same_status tx.status fulfilled)
    then (err no_documents, tx)
    else if not (is_refund_claimable tx.refund)
    then (err no_documents, tx)
    else (ok claimed, claimed)

unfoldable pub claim_external_refunding_row : String → Time → Row Transaction
claim_external_refunding_row reason now tx =
    let claimed : Transaction = record tx {
      refund = some (record (refund_or_new tx.refund now) {
        status = refunding;
        reason = reason;
        failure_reason = "";
        provider_refunded = true;
        updated_at = now;
      });
      updated_at = now;
    } in
    if not (same_status tx.status fulfilled)
    then (err no_documents, tx)
    else if not (is_refund_claimable tx.refund)
    then (err no_documents, tx)
    else (ok claimed, claimed)

abbrev provider_succeeded : Time → Option Refund → Option Refund
provider_succeeded now none = none
provider_succeeded now (some r) = some (record r { provider_refunded = true; updated_at = now })

unfoldable pub mark_refund_provider_succeeded_row : Time → Row (Unit {0})
mark_refund_provider_succeeded_row now tx =
    (ok tt, record tx { refund = provider_succeeded now tx.refund; updated_at = now })

abbrev committed : Time → Option Refund → Option Refund
committed now none = none
committed now (some r) =
    some (record r { status = refunded; provider_refunded = true; updated_at = now })

unfoldable pub commit_refund_row : Time → Row (Unit {0})
commit_refund_row now tx = (ok tt, record tx { refund = committed now tx.refund; updated_at = now })

abbrev refund_failed_with : String → Time → Option Refund → Option Refund
refund_failed_with reason now none = none
refund_failed_with reason now (some r) =
    some (record r { status = refund_failed; failure_reason = reason; updated_at = now })

unfoldable pub mark_refund_failed_row : String → Time → Row (Unit {0})
mark_refund_failed_row reason now tx =
    (ok tt, record tx { refund = refund_failed_with reason now tx.refund; updated_at = now })
