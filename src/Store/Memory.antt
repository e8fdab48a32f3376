-- ===== src/Store/Memory.antt =====
-- internal/store/memory/memory.go: the operations over the map of transactions. The lock is held
-- through each operation, so each is one step on the state. `now` is what time.Now returns in it.
use extend_regional_payment.Prelude.{String, ◌==◌}
use extend_regional_payment.Prelude.{Option, none, some, [], ◌∷◌, if◌then◌else◌}
use extend_regional_payment.Prelude.Table.{Table, lookup, insert, update, erase}
use extend_regional_payment.Model.{canceled, expired, Time, Transaction}
use extend_regional_payment.Store.Types.{Result, ok, err, not_found, duplicate_client_order_id}
use extend_regional_payment.Store.Rows.{
  Row, claim_fulfilling_row, commit_fulfilled_row, mark_failed_row, mark_terminal_if_pending_row,
  attach_provider_row, clear_provider_row, update_provider_tx_id_row, increment_retries_row,
  reset_to_pending_row, claim_refunding_row, claim_external_refunding_row,
  mark_refund_provider_succeeded_row, commit_refund_row, mark_refund_failed_row,
}

abbrev pub Store : Type 0
Store = Table Transaction

abbrev pub empty : Store
empty = []

-- What all operations on one document share: look it up, fail if it is not there, and write through
-- the pointer.
abbrev pub after_lookup :
    {A : Type 0} → Option Transaction → String → Row A → Store → Result A × Store
after_lookup none txn_id row s = (err not_found, s)
after_lookup (some tx) txn_id row s = let (result, tx') = row tx in (result, update txn_id tx' s)

unfoldable pub on_row : {A : Type 0} → String → Row A → Store → Result A × Store
on_row txn_id row s = after_lookup (lookup txn_id s) txn_id row s

-- The loop of FindByClientOrderID and of the duplicate test of CreateTransaction.
unfoldable pub by_client_order_id : String → Store → Option Transaction
by_client_order_id order [] = none
by_client_order_id order ((_, tx) ∷ s) =
    if tx.client_order_id == order then some tx else by_client_order_id order s

unfoldable pub create_transaction : Transaction → Store → Result (Unit {0}) × Store
unfolding by_client_order_id
create_transaction tx s = elim (by_client_order_id tx.client_order_id s) [
  | some existing ↦ (err duplicate_client_order_id, s)
  | none ↦ (ok tt, insert tx.id tx s)
]

abbrev pub or_not_found : Option Transaction → Result Transaction
or_not_found none = err not_found
or_not_found (some tx) = ok tx

abbrev pub find_by_id : String → Store → Result Transaction
find_by_id id s = or_not_found (lookup id s)

unfoldable pub find_by_client_order_id : String → Store → Result Transaction
unfolding by_client_order_id
find_by_client_order_id order s = or_not_found (by_client_order_id order s)

module _ (txn_id : String) where
  abbrev pub atomic_claim_fulfilling : String → Time → Store → Result Transaction × Store
  atomic_claim_fulfilling provider_tx_id now =
      on_row txn_id (claim_fulfilling_row provider_tx_id now)

  abbrev pub commit_fulfilled : String → Time → Time → Store → Result (Unit {0}) × Store
  commit_fulfilled provider_status delete_at now =
      on_row txn_id (commit_fulfilled_row provider_status delete_at now)

  abbrev pub mark_failed : String → Time → Time → Store → Result (Unit {0}) × Store
  mark_failed reason delete_at now = on_row txn_id (mark_failed_row reason delete_at now)

  abbrev pub mark_canceled_if_pending :
      String → String → Time → Time → Store → Result (Unit {0}) × Store
  mark_canceled_if_pending reason provider_status delete_at now =
      on_row txn_id (mark_terminal_if_pending_row canceled reason provider_status delete_at now)

  abbrev pub mark_expired_if_pending :
      String → String → Time → Time → Store → Result (Unit {0}) × Store
  mark_expired_if_pending reason provider_status delete_at now =
      on_row txn_id (mark_terminal_if_pending_row expired reason provider_status delete_at now)

  abbrev pub attach_provider_transaction :
      String → String → String → String → Time → Store → Result (Unit {0}) × Store
  attach_provider_transaction provider_id display_name provider_tx_id payment_url now =
      on_row txn_id (attach_provider_row provider_id display_name provider_tx_id payment_url now)

  abbrev pub clear_provider_transaction_if_pending :
      String → Time → Store → Result (Unit {0}) × Store
  clear_provider_transaction_if_pending provider_tx_id now =
      on_row txn_id (clear_provider_row provider_tx_id now)

  abbrev pub update_provider_transaction_id : String → Time → Store → Result (Unit {0}) × Store
  update_provider_transaction_id provider_tx_id now =
      on_row txn_id (update_provider_tx_id_row provider_tx_id now)

  abbrev pub increment_retries : Time → Store → Result (Unit {0}) × Store
  increment_retries now = on_row txn_id (increment_retries_row now)

  abbrev pub reset_to_pending : Time → Store → Result (Unit {0}) × Store
  reset_to_pending now = on_row txn_id (reset_to_pending_row now)

  abbrev pub atomic_claim_refunding : String → Time → Store → Result Transaction × Store
  atomic_claim_refunding reason now = on_row txn_id (claim_refunding_row reason now)

  abbrev pub atomic_claim_external_refunding : String → Time → Store → Result Transaction × Store
  atomic_claim_external_refunding reason now =
      on_row txn_id (claim_external_refunding_row reason now)

  abbrev pub mark_refund_provider_succeeded : Time → Store → Result (Unit {0}) × Store
  mark_refund_provider_succeeded now = on_row txn_id (mark_refund_provider_succeeded_row now)

  abbrev pub commit_refund : Time → Store → Result (Unit {0}) × Store
  commit_refund now = on_row txn_id (commit_refund_row now)

  abbrev pub mark_refund_failed : String → Time → Store → Result (Unit {0}) × Store
  mark_refund_failed reason now = on_row txn_id (mark_refund_failed_row reason now)

abbrev pub delete_transaction : String → Store → Result (Unit {0}) × Store
delete_transaction id s = (ok tt, erase id s)
