-- ===== src/DocDb.antt =====
-- internal/store/docdb/docdb.go: the operations of the store over a MongoDB collection. The driver is
-- a parameter; an operation is the calls of it that the code makes, in their order.
pub mod Query
pub mod Listing
pub mod Documented
pub mod Located
pub mod Writes
pub mod Rows
pub mod Refunds
pub mod Refinement
pub mod Filters
use Query.{Test, Filter, Update, Driver, Answer, Inserted, Change, Condition, test, any_of}
use extend_regional_payment.Prelude.{ℕ, zero, suc, ◌+◌, String, ◌==◌, Bool, true, false}
use extend_regional_payment.Prelude.{Option, none, some, List, [], ◌∷◌, ◌++◌, if◌then◌else◌}
use extend_regional_payment.Prelude.Found.{Found, found}
use extend_regional_payment.Prelude.Text.{trim_space}
use extend_regional_payment.Model.{Status, RefundStatus, Time, Transaction}
use extend_regional_payment.Store.Types.{
  StoreError, Result, ok, err, other, not_found, no_documents, duplicate_client_order_id, ListQuery,
}
use extend_regional_payment.Store.Listing.{page_size_of, cut_page}

abbrev pub with_id : String → Filter → Filter
with_id txn_id filter = test (Test.id_is txn_id) ∷ filter

abbrev pub status_is : Status → Filter
status_is s = test (Test.status_is s) ∷ []

abbrev pub claimable : Filter
claimable =
    test (Test.status_is Status.fulfilled)
    ∷ any_of (Test.refund_is_missing ∷ Test.refund_status_is RefundStatus.refund_failed ∷ [])
    ∷ []

-- The fields that a claim of a refund sets; `fresh` tells that there is no refund yet.
abbrev pub refund_changes : Bool → String → Time → Update
refund_changes fresh reason now =
    Change.set_refund_status RefundStatus.refunding
    ∷ Change.set_refund_reason reason
    ∷ Change.set_refund_failure_reason ""
    ∷ Change.set_refund_updated_at now
    ∷ Change.set_updated_at now
    ∷ (if fresh
        then Change.set_refund_created_at now ∷ Change.set_refund_provider_refunded_false ∷ []
        else [])

abbrev pub external_refund_changes : Bool → String → Time → Update
external_refund_changes fresh reason now =
    Change.set_refund_status RefundStatus.refunding
    ∷ Change.set_refund_reason reason
    ∷ Change.set_refund_failure_reason ""
    ∷ Change.set_refund_provider_refunded_true
    ∷ Change.set_refund_updated_at now
    ∷ Change.set_updated_at now
    ∷ (if fresh then Change.set_refund_created_at now ∷ [] else [])

-- The error of a write whose filter matched nothing, from a second read.
unmatched_error : Answer → StoreError
unmatched_error Answer.no_document = not_found
unmatched_error (Answer.document _) = no_documents
unmatched_error (Answer.failure _) = no_documents

-- The error of a read, and of a claim that makes the second read.
unfoldable pub or_error : Answer → StoreError → Result Transaction
or_error (Answer.document tx) e = ok tx
or_error Answer.no_document e = err e
or_error (Answer.failure message) e = err (other message)

-- A write whose result is not looked at.
written : Found ℕ → Result (Unit {0})
written (Found.found _) = ok tt
written (Found.failed message) = err (other message)

-- A write that must match.
unfoldable pub matched : Found ℕ → StoreError → Result (Unit {0})
matched (Found.failed message) e = err (other message)
matched (Found.found zero) e = err e
matched (Found.found (suc _)) e = ok tt

create_result : Inserted → Result (Unit {0})
create_result Inserted.inserted = ok tt
create_result Inserted.duplicate_key = err duplicate_client_order_id
create_result (Inserted.insert_failure message) = err (other message)

module _ {S : Type 0} (d : Driver S) where
  unfoldable pub create_transaction : Transaction → S → Result (Unit {0}) × S
  unfolding create_result
  create_transaction tx st = let (r, st') = d.insert_one tx st in (create_result r, st')

  unfoldable pub find_by_id : String → S → Result Transaction
  unfolding or_error
  find_by_id id st = or_error (d.find_one (with_id id []) st) not_found

  unfoldable pub find_by_client_order_id : String → S → Result Transaction
  unfolding or_error
  find_by_client_order_id order st =
      or_error (d.find_one (test (Test.client_order_id_is order) ∷ []) st) not_found

  -- The second read, and the three kinds of write.
  unfoldable pub why_unmatched : String → S → StoreError
  unfolding unmatched_error
  why_unmatched txn_id st = unmatched_error (d.find_one (with_id txn_id []) st)

  unfoldable pub claim : String → Filter → Update → S → Result Transaction × S
  unfolding or_error
  claim txn_id filter update st =
      let (answer, st') = d.find_one_and_update (with_id txn_id filter) update st in
      (or_error answer (why_unmatched txn_id st'), st')

  unfoldable pub write : String → Filter → Update → S → Result (Unit {0}) × S
  unfolding written
  write txn_id filter update st =
      let (r, st') = d.update_one (with_id txn_id filter) update st in (written r, st')

  unfoldable pub write_matched : String → Filter → Update → S → Result (Unit {0}) × S
  unfolding matched
  write_matched txn_id filter update st =
      let (r, st') = d.update_one (with_id txn_id filter) update st in
      (matched r (why_unmatched txn_id st'), st')

  module _ (txn_id : String) where
    unfoldable pub atomic_claim_fulfilling : String → Time → S → Result Transaction × S
    atomic_claim_fulfilling provider_tx_id now = claim txn_id (status_is Status.pending) (
        Change.set_status Status.fulfilling
        ∷ Change.set_provider_tx_id provider_tx_id
        ∷ Change.set_updated_at now
        ∷ [])

    unfoldable pub commit_fulfilled : String → Time → Time → S → Result (Unit {0}) × S
    commit_fulfilled provider_status delete_at now = write txn_id (status_is Status.fulfilling) (
        Change.set_status Status.fulfilled
        ∷ Change.set_provider_status provider_status
        ∷ Change.set_delete_at delete_at
        ∷ Change.set_updated_at now
        ∷ [])

    unfoldable pub mark_failed : String → Time → Time → S → Result (Unit {0}) × S
    mark_failed reason delete_at now = write txn_id [] (
        Change.set_status Status.failed
        ∷ Change.set_failure_reason reason
        ∷ Change.set_delete_at delete_at
        ∷ Change.set_updated_at now
        ∷ [])

    unfoldable pub mark_terminal_if_pending :
        Status → String → String → Time → Time → S → Result (Unit {0}) × S
    mark_terminal_if_pending terminal_status reason provider_status delete_at now =
        write_matched txn_id (status_is Status.pending) (
          Change.set_status terminal_status
          ∷ Change.set_failure_reason reason
          ∷ Change.set_provider_status provider_status
          ∷ Change.set_delete_at delete_at
          ∷ Change.set_updated_at now
          ∷ [])

    abbrev pub mark_canceled_if_pending : String → String → Time → Time → S → Result (Unit {0}) × S
    mark_canceled_if_pending = mark_terminal_if_pending Status.canceled

    abbrev pub mark_expired_if_pending : String → String → Time → Time → S → Result (Unit {0}) × S
    mark_expired_if_pending = mark_terminal_if_pending Status.expired

    unfoldable pub attach_provider_transaction :
        String → String → String → String → Time → S → Result (Unit {0}) × S
    attach_provider_transaction provider_id display_name provider_tx_id payment_url now =
        write_matched txn_id
          (test (Test.status_is Status.pending)
            ∷ any_of (Test.provider_tx_id_is_missing ∷ Test.provider_tx_id_is "" ∷ [])
            ∷ [])
          (Change.set_provider_id provider_id
            ∷ Change.set_provider_display_name display_name
            ∷ Change.set_provider_tx_id provider_tx_id
            ∷ Change.set_payment_url payment_url
            ∷ Change.set_updated_at now
            ∷ [])

    unfoldable pub clear_provider_transaction_if_pending : String → Time → S → Result (Unit {0}) × S
    clear_provider_transaction_if_pending provider_tx_id now =
        write_matched txn_id
          (test (Test.status_is Status.pending) ∷ test (Test.provider_tx_id_is provider_tx_id) ∷ [])
          (Change.set_provider_id ""
            ∷ Change.set_provider_display_name ""
            ∷ Change.set_updated_at now
            ∷ Change.unset_provider_tx_id
            ∷ Change.unset_payment_url
            ∷ Change.unset_provider_status
            ∷ [])

    -- No second read: what matched nothing is not found.
    unfoldable pub update_provider_transaction_id : String → Time → S → Result (Unit {0}) × S
    unfolding matched
    update_provider_transaction_id provider_tx_id now st =
        let (r, st') =
          d.update_one (with_id txn_id [])
            (Change.set_provider_tx_id provider_tx_id ∷ Change.set_updated_at now ∷ []) st in
        (matched r not_found, st')

    unfoldable pub delete_transaction : S → Result (Unit {0}) × S
    unfolding written
    delete_transaction st = let (r, st') = d.delete_one (with_id txn_id []) st in (written r, st')

    unfoldable pub increment_retries : Time → S → Result (Unit {0}) × S
    increment_retries now = write txn_id [] (Change.inc_retries 1 ∷ Change.set_updated_at now ∷ [])

    unfoldable pub reset_to_pending : Time → S → Result (Unit {0}) × S
    reset_to_pending now =
        write txn_id [] (Change.set_status Status.pending ∷ Change.set_updated_at now ∷ [])

    -- Only a first read that says that there is no refund makes a new one.
    unfoldable pub has_no_refund : S → Bool
    has_no_refund st = elim (d.find_one (with_id txn_id (test Test.refund_exists ∷ [])) st) [
      | Answer.no_document ↦ true
      | _ ↦ false
    ]

    -- The error of AtomicClaimRefunding is ErrNoDocuments also where there is no transaction.
    unfoldable pub atomic_claim_refunding : String → Time → S → Result Transaction × S
    unfolding or_error
    atomic_claim_refunding reason now st =
        let (answer, st') =
          d.find_one_and_update (with_id txn_id claimable)
            (refund_changes (has_no_refund st) reason now) st in
        (or_error answer no_documents, st')

    unfoldable pub atomic_claim_external_refunding : String → Time → S → Result Transaction × S
    atomic_claim_external_refunding reason now st =
        claim txn_id claimable (external_refund_changes (has_no_refund st) reason now) st

    unfoldable pub mark_refund_provider_succeeded : Time → S → Result (Unit {0}) × S
    mark_refund_provider_succeeded now = write txn_id [] (
        Change.set_refund_provider_refunded_true
        ∷ Change.set_refund_updated_at now
        ∷ Change.set_updated_at now
        ∷ [])

    unfoldable pub commit_refund : Time → S → Result (Unit {0}) × S
    commit_refund now = write txn_id [] (
        Change.set_refund_status RefundStatus.refunded
        ∷ Change.set_refund_provider_refunded_true
        ∷ Change.set_refund_updated_at now
        ∷ Change.set_updated_at now
        ∷ [])

    unfoldable pub mark_refund_failed : String → Time → S → Result (Unit {0}) × S
    mark_refund_failed reason now = write txn_id [] (
        Change.set_refund_status RefundStatus.refund_failed
        ∷ Change.set_refund_failure_reason reason
        ∷ Change.set_refund_updated_at now
        ∷ Change.set_updated_at now
        ∷ [])
