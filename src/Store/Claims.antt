-- ===== src/Store/Claims.antt =====
-- The atomic claims as locks: who has claimed a transaction is the only one, until the claim is
-- given back.
use extend_regional_payment.Prelude.{String, Bool, true, false, not, List}
use extend_regional_payment.Prelude.{◌≡◌, ◌≢◌, inl, inr, arith, All}
use extend_regional_payment.Prelude.{eq_refl, Option-cases}
use extend_regional_payment.Prelude.Table.{lookup}
use extend_regional_payment.Model.{Status, Transaction, Time, same_status}
use extend_regional_payment.Store.Types.{ok, Result}
use extend_regional_payment.Store.Rows.{
  claim_fulfilling_row, is_refund_claimable, Row, claim_refunding_row, claim_external_refunding_row,
}
use extend_regional_payment.Store.Memory.{Store, atomic_claim_fulfilling, on_row}
use extend_regional_payment.Store.Laws.{lookup-on_row, result-on_row}
use extend_regional_payment.Store.Ops.{
  RowOp, claim_fulfilling, reset_to_pending, row_after, Op, run, mark_refund_failed,
}
use extend_regional_payment.Store.Stable.{Holds, touches, run-Holds}

is_not_pending : Transaction → Bool
is_not_pending tx = not (same_status tx.status Status.pending)

-- Every row operation but ResetToPending.
abbrev pub is_no_reset : RowOp → Bool
is_no_reset reset_to_pending = false
is_no_reset _ = true

row_after-is_not_pending :
    (o : RowOp) (now : Time) (tx : Transaction)
    → is_no_reset o ≡ true
    → is_not_pending tx ≡ true
    → is_not_pending (row_after o now tx) ≡ true
unfolding row_after is_not_pending
row_after-is_not_pending (claim_fulfilling q) now tx a h = ground arith
row_after-is_not_pending _ now tx a h = ground arith

module _ (k q : String) (now : Time) (s : Store) where
  claimed-is_not_pending :
      (tx : Transaction)
      → (atomic_claim_fulfilling k q now s).0 ≡ ok tx
      → Holds is_not_pending k (atomic_claim_fulfilling k q now s).1
  unfolding is_not_pending claim_fulfilling_row
  claimed-is_not_pending tx c u e = ground (
    arith,
    result-on_row (claim_fulfilling_row q now) s k,
    lookup-on_row (claim_fulfilling_row q now) s k k,
    eq_refl k,
  )

  not_claimed :
      Holds is_not_pending k s → (tx : Transaction) → (atomic_claim_fulfilling k q now s).0 ≢ ok tx
  unfolding is_not_pending claim_fulfilling_row
  not_claimed h tx = elim (Option-cases (lookup k s)) [
    | inl n ↦ λ c. ground (arith, result-on_row (claim_fulfilling_row q now) s k)
    | inr (u, f) ↦ λ c. ground (arith, result-on_row (claim_fulfilling_row q now) s k, h u f)
  ]

-- After one successful AtomicClaimFulfilling of a transaction, every later one fails, whatever
-- operations are made in between by whomever, as long as none of them resets that transaction to
-- pending or creates another under its id.
pub claim_fulfilling_exclusive :
    (k q q' : String) (now later : Time) (s : Store) (tx tx' : Transaction) (os : List Op)
    → (atomic_claim_fulfilling k q now s).0 ≡ ok tx
    → All (λ o. touches is_no_reset k o ≡ false) os
    → (atomic_claim_fulfilling k q' later (run os (atomic_claim_fulfilling k q now s).1)).0 ≢ ok tx'
claim_fulfilling_exclusive k q q' now later s tx tx' os c all =
    not_claimed k q' later _
      (run-Holds is_not_pending is_no_reset row_after-is_not_pending k os _ all
        (claimed-is_not_pending k q now s tx c))
      tx'

-- There is a refund that has not failed.
refund_is_taken : Transaction → Bool
refund_is_taken tx = not (is_refund_claimable tx.refund)

-- Every row operation but MarkRefundFailed.
abbrev pub is_no_refund_failure : RowOp → Bool
is_no_refund_failure (mark_refund_failed _) = false
is_no_refund_failure _ = true

row_after-refund_is_taken :
    (o : RowOp) (now : Time) (tx : Transaction)
    → is_no_refund_failure o ≡ true
    → refund_is_taken tx ≡ true
    → refund_is_taken (row_after o now tx) ≡ true
unfolding row_after refund_is_taken
row_after-refund_is_taken (claim_fulfilling q) now tx a h = ground arith
row_after-refund_is_taken _ now tx a h = ground arith

-- AtomicClaimExternalRefunding or AtomicClaimRefunding.
abbrev pub refund_claim_row : Bool → String → Time → Row Transaction
refund_claim_row true = claim_external_refunding_row
refund_claim_row false = claim_refunding_row

abbrev pub claim_refund : Bool → String → String → Time → Store → Result Transaction × Store
claim_refund external k reason now = on_row k (refund_claim_row external reason now)

module _ (external : Bool) (k reason : String) (now : Time) where
  refund_claim_row_ok :
      (u tx : Transaction)
      → (refund_claim_row external reason now u).0 ≡ ok tx
      → refund_is_taken (refund_claim_row external reason now u).1 ≡ true
  unfolding refund_is_taken claim_refunding_row claim_external_refunding_row
  refund_claim_row_ok u tx c = ground arith

  refund_claim_row_taken :
      (u tx : Transaction)
      → refund_is_taken u ≡ true
      → (refund_claim_row external reason now u).0 ≢ ok tx
  unfolding refund_is_taken claim_refunding_row claim_external_refunding_row
  refund_claim_row_taken u tx h = λ c. ground arith

  refund_claimed-Holds :
      (s : Store) (tx : Transaction)
      → (claim_refund external k reason now s).0 ≡ ok tx
      → Holds refund_is_taken k (claim_refund external k reason now s).1
  refund_claimed-Holds s tx c v e = elim (Option-cases (lookup k s)) [
    | inl n ↦ ground (arith, result-on_row (refund_claim_row external reason now) s k)
    | inr (u, f) ↦ ground (
      arith,
      result-on_row (refund_claim_row external reason now) s k,
      lookup-on_row (refund_claim_row external reason now) s k k,
      eq_refl k,
      refund_claim_row_ok u tx,
    )
  ]

  refund_not_claimed :
      (s : Store)
      → Holds refund_is_taken k s
      → (tx : Transaction) → (claim_refund external k reason now s).0 ≢ ok tx
  refund_not_claimed s h tx = elim (Option-cases (lookup k s)) [
    | inl n ↦ λ c. ground (arith, result-on_row (refund_claim_row external reason now) s k)
    | inr (u, f) ↦ λ c.
        refund_claim_row_taken u tx (h u f)
          (ground (arith, result-on_row (refund_claim_row external reason now) s k))
  ]

-- After one successful claim of a refund, by an administrator or from a provider's report, every
-- later claim of either kind fails, whatever operations are made in between by whomever, as long as
-- none of them marks that refund as failed or creates another transaction under its id.
pub claim_refund_exclusive :
    (external external' : Bool) (k reason reason' : String) (now later : Time) (s : Store)
    (tx tx' : Transaction) (os : List Op)
    → (claim_refund external k reason now s).0 ≡ ok tx
    → All (λ o. touches is_no_refund_failure k o ≡ false) os
    → (claim_refund external' k reason' later (run os (claim_refund external k reason now s).1)).0
      ≢ ok tx'
claim_refund_exclusive external external' k reason reason' now later s tx tx' os c all =
    refund_not_claimed external' k reason' later _
      (run-Holds refund_is_taken is_no_refund_failure row_after-refund_is_taken k os _ all
        (refund_claimed-Holds external k reason now s tx c))
      tx'
