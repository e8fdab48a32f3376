-- ===== src/Service/Keeps.antt =====
-- What the row operations of the store keep, the services keep: rules for any property of the store
-- that every row operation but ResetToPending keeps, and those for ResetToPending apart.
pub mod Formed
pub mod Webhooks
pub mod Jobs
pub mod Requests
pub mod Payments
pub mod Orders
use extend_regional_payment.Prelude.{String, true, ◌≡◌, refl, subst, arith, inl, inr}
use extend_regional_payment.Prelude.{Option-cases}
use extend_regional_payment.Prelude.Table.{lookup}
use extend_regional_payment.Model.{canceled, expired, Time, Transaction}
use extend_regional_payment.Store.Rows.{
  Row, claim_fulfilling_row, commit_fulfilled_row, mark_failed_row, mark_terminal_if_pending_row,
  attach_provider_row, clear_provider_row, update_provider_tx_id_row, increment_retries_row,
  reset_to_pending_row, claim_refunding_row, claim_external_refunding_row,
  mark_refund_provider_succeeded_row, commit_refund_row, mark_refund_failed_row,
}
use extend_regional_payment.Store.Memory.{Store, on_row}
use extend_regional_payment.Store.Laws.{on_row-missing, on_row-found}
use extend_regional_payment.Store.Ops.{
  RowOp, claim_fulfilling, commit_fulfilled, mark_failed, mark_canceled, mark_expired,
  attach_provider, clear_provider, update_provider_tx_id, increment_retries, claim_refunding,
  claim_external_refunding, mark_refund_provider_succeeded, commit_refund, mark_refund_failed,
  row_after, as_row,
}
use extend_regional_payment.Store.Claims.{is_no_reset}

pub record Keeper (P : Store → Type 0) : Type 0 where
  pub row :
      (id : String) (o : RowOp) (now : Time) (s : Store)
      → is_no_reset o ≡ true
      → P s
      → P (on_row id (as_row o now) s).1

pub record ResetKeeper (P : Store → Type 0) : Type 0 where
  pub reset :
      (id : String) (now : Time) (s : Store) → P s → P (on_row id (reset_to_pending_row now) s).1

-- The store after a row operation depends on the documents that it writes, not on its result.
pub on_row-effect :
    {A B : Type 0} (row : Row A) (row' : Row B) (k : String) (s : Store)
    → ((tx : Transaction) → (row tx).1 ≡ (row' tx).1)
    → (on_row k row s).1 ≡ (on_row k row' s).1
on_row-effect row row' k s same = elim (Option-cases (lookup k s)) [
  | inl n ↦ ground (arith, on_row-missing row s k n, on_row-missing row' s k n)
  | inr (tx, f) ↦ ground (arith, on_row-found row s k tx f, on_row-found row' s k tx f, same tx)
]

module _ {P : Store → Type 0} (keep : Keeper P) (id : String) (now : Time) (s : Store)
    (h : P s) where
  by_row :
      {A : Type 0} (o : RowOp) (row : Row A)
      → is_no_reset o ≡ true
      → ((tx : Transaction) → row_after o now tx ≡ (row tx).1)
      → P (on_row id row s).1
  by_row o row a same =
      subst P (on_row-effect (as_row o now) row id s same) (keep.row id o now s a h)

  pub keep-claim_fulfilling : (p : String) → P (on_row id (claim_fulfilling_row p now) s).1
  unfolding row_after
  keep-claim_fulfilling p = by_row (claim_fulfilling p) _ refl (λ _. refl)

  pub keep-commit_fulfilled :
      (p : String) (d : Time) → P (on_row id (commit_fulfilled_row p d now) s).1
  unfolding row_after
  keep-commit_fulfilled p d = by_row (commit_fulfilled p d) _ refl (λ _. refl)

  pub keep-mark_failed : (r : String) (d : Time) → P (on_row id (mark_failed_row r d now) s).1
  unfolding row_after
  keep-mark_failed r d = by_row (mark_failed r d) _ refl (λ _. refl)

  pub keep-mark_canceled :
      (r p : String) (d : Time)
      → P (on_row id (mark_terminal_if_pending_row canceled r p d now) s).1
  unfolding row_after
  keep-mark_canceled r p d = by_row (mark_canceled r p d) _ refl (λ _. refl)

  pub keep-mark_expired :
      (r p : String) (d : Time) → P (on_row id (mark_terminal_if_pending_row expired r p d now) s).1
  unfolding row_after
  keep-mark_expired r p d = by_row (mark_expired r p d) _ refl (λ _. refl)

  pub keep-attach_provider :
      (i n p u : String) → P (on_row id (attach_provider_row i n p u now) s).1
  unfolding row_after
  keep-attach_provider i n p u = by_row (attach_provider i n p u) _ refl (λ _. refl)

  pub keep-clear_provider : (p : String) → P (on_row id (clear_provider_row p now) s).1
  unfolding row_after
  keep-clear_provider p = by_row (clear_provider p) _ refl (λ _. refl)

  pub keep-update_provider_tx_id :
      (p : String) → P (on_row id (update_provider_tx_id_row p now) s).1
  unfolding row_after
  keep-update_provider_tx_id p = by_row (update_provider_tx_id p) _ refl (λ _. refl)

  pub keep-increment_retries : P (on_row id (increment_retries_row now) s).1
  unfolding row_after
  keep-increment_retries = by_row increment_retries _ refl (λ _. refl)

  pub keep-claim_refunding : (r : String) → P (on_row id (claim_refunding_row r now) s).1
  unfolding row_after
  keep-claim_refunding r = by_row (claim_refunding r) _ refl (λ _. refl)

  pub keep-claim_external_refunding :
      (r : String) → P (on_row id (claim_external_refunding_row r now) s).1
  unfolding row_after
  keep-claim_external_refunding r = by_row (claim_external_refunding r) _ refl (λ _. refl)

  pub keep-mark_refund_provider_succeeded :
      P (on_row id (mark_refund_provider_succeeded_row now) s).1
  unfolding row_after
  keep-mark_refund_provider_succeeded = by_row mark_refund_provider_succeeded _ refl (λ _. refl)

  pub keep-commit_refund : P (on_row id (commit_refund_row now) s).1
  unfolding row_after
  keep-commit_refund = by_row commit_refund _ refl (λ _. refl)

  pub keep-mark_refund_failed : (r : String) → P (on_row id (mark_refund_failed_row r now) s).1
  unfolding row_after
  keep-mark_refund_failed r = by_row (mark_refund_failed r) _ refl (λ _. refl)
