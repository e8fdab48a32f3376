-- ===== src/DocDb/Rows.antt =====
-- Each write of the document store is the row of the in-memory store, with dates of milliseconds.
use extend_regional_payment.Prelude.{
  true_ne_false, ℕ, ◌+◌, ◌<◌, String, ◌==◌, ◌≡◌, true, false, not, Option, some,
}
use extend_regional_payment.Prelude.{
  eq_iff, Bool, ◌&&◌, ◌||◌, inl, inr, refl, arith, if◌then◌else◌, ap, ◌∙◌, sym, Bool-cases,
}
use extend_regional_payment.Prelude.Int.{add_pos, to_int32_of_small, pos, ◌+ℤ◌, to_int32, leb_ℤ}
use extend_regional_payment.Model.{Status, Time, same_status}
use extend_regional_payment.Store.Types.{not_found}
use extend_regional_payment.Store.Rows.{
  claim_fulfilling_row, commit_fulfilled_row, mark_failed_row, mark_terminal_if_pending_row,
  attach_provider_row, clear_provider_row, update_provider_tx_id_row, increment_retries_row,
  reset_to_pending_row,
}
use extend_regional_payment.DocDb.Query.{Driver}
use extend_regional_payment.DocDb.Documented.{date, Stored, meets, change_all, Documented}
use extend_regional_payment.DocDb.Writes.{
  Agrees, claim-met, claim-unmet, write-met, matched-met, write_matched-met, write_matched-unmet,
}
use extend_regional_payment.DocDb.{
  atomic_claim_fulfilling, commit_fulfilled, mark_failed, mark_terminal_if_pending,
  attach_provider_transaction, clear_provider_transaction_if_pending,
  update_provider_transaction_id, increment_retries, reset_to_pending,
}

or_itself : (b : Bool) → ((not b || (b && true || false)) && true) ≡ true
or_itself b = ground arith

and_false : (b : Bool) → (b && false && true) ≡ false
and_false b = ground arith

or_if : {A : Type 0} (b : Bool) (x y : A) → (if b || true then x else y) ≡ x
or_if b x y = ground arith

module _ {S : Type 0} {d : Driver S} {get : S → String → Option Stored} (laws : Documented d get)
    (st : S) (k : String) (s : Stored) (h : get st k ≡ some s) (now : Time) (j : String) where
  -- Only an empty id is left out.
  has_id : (s.tx.provider_tx_id == "") ≡ false → s.has_provider_tx_id ≡ true
  has_id e = elim (Bool-cases s.has_provider_tx_id) [
    | inl there ↦ there
    | inr missing ↦ absurd (
        true_ne_false (sym ((eq_iff s.tx.provider_tx_id "").1 (laws.omitted st k s h missing)) ∙ e))
  ]

  pub claim_fulfilling-Agrees :
      (q : String)
      → Agrees laws st k
          (claim_fulfilling_row q (date now))
          s.tx
          j
          (atomic_claim_fulfilling d k q now st)
  unfolding atomic_claim_fulfilling claim_fulfilling_row meets change_all
  claim_fulfilling-Agrees q = elim (Bool-cases (same_status s.tx.status Status.pending)) [
    | inl e ↦
        claim-met laws st k _ _ s h _ (rw e refl) refl j (claim_fulfilling_row q (date now))
          (rw e refl)
    | inr e ↦
        claim-unmet laws st k _ _ s h (rw e refl) j (claim_fulfilling_row q (date now)) (rw e refl)
  ]

  pub mark_failed-Agrees :
      (reason : String) (delete_at : Time)
      → Agrees laws st k
          (mark_failed_row reason (date delete_at) (date now))
          s.tx
          j
          (mark_failed d k reason delete_at now st)
  unfolding mark_failed mark_failed_row meets change_all
  mark_failed-Agrees reason delete_at =
      write-met laws st k _ _ s h _ refl refl j (mark_failed_row reason (date delete_at) (date now))
        refl

  -- The status is the condition, as is that of the row.
  pub commit_fulfilled-Agrees :
      (provider_status : String) (delete_at : Time)
      → same_status s.tx.status Status.fulfilling ≡ true
      → Agrees laws st k
          (commit_fulfilled_row provider_status (date delete_at) (date now))
          s.tx
          j
          (commit_fulfilled d k provider_status delete_at now st)
  unfolding commit_fulfilled commit_fulfilled_row meets change_all
  commit_fulfilled-Agrees provider_status delete_at e =
      write-met laws st k _ _ s h _ (rw e refl) refl j
        (commit_fulfilled_row provider_status (date delete_at) (date now)) refl

  pub mark_terminal-Agrees :
      (terminal : Status) (reason provider_status : String) (delete_at : Time)
      → Agrees laws st k
          (mark_terminal_if_pending_row terminal reason provider_status (date delete_at) (date now))
          s.tx
          j
          (mark_terminal_if_pending d k terminal reason provider_status delete_at now st)
  unfolding mark_terminal_if_pending mark_terminal_if_pending_row meets change_all
  mark_terminal-Agrees terminal reason provider_status delete_at =
      let row =
        mark_terminal_if_pending_row terminal reason provider_status (date delete_at) (date now) in
      elim (Bool-cases (same_status s.tx.status Status.pending)) [
        | inl e ↦ write_matched-met laws st k _ _ s h _ (rw e refl) refl j row (rw e refl)
        | inr e ↦ write_matched-unmet laws st k _ _ s h (rw e refl) j row (rw e refl)
      ]

  pub attach_provider-Agrees :
      (provider_id name q url : String)
      → Agrees laws st k
          (attach_provider_row provider_id name q url (date now))
          s.tx
          j
          (attach_provider_transaction d k provider_id name q url now st)
  unfolding attach_provider_transaction attach_provider_row meets change_all
  attach_provider-Agrees provider_id name q url =
      let row = attach_provider_row provider_id name q url (date now) in
      elim (Bool-cases (same_status s.tx.status Status.pending)) [
        | inr e ↦ write_matched-unmet laws st k _ _ s h (rw e refl) j row (rw e refl)
        | inl e ↦ elim (Bool-cases (s.tx.provider_tx_id == "")) [
          | inl free ↦
              write_matched-met laws st k _ _ s h _
                (rw e (rw free (or_itself s.has_provider_tx_id))) refl j row (rw e (rw free refl))
          | inr taken ↦
              let there : s.has_provider_tx_id ≡ true = has_id taken in
              write_matched-unmet laws st k _ _ s h (rw e (rw taken (rw there refl))) j row
                (rw e (rw taken refl))
        ]
      ]

  pub clear_provider-Agrees :
      (q : String)
      → (q == "") ≡ false
      → Agrees laws st k
          (clear_provider_row q (date now))
          s.tx
          j
          (clear_provider_transaction_if_pending d k q now st)
  unfolding clear_provider_transaction_if_pending clear_provider_row meets change_all
  clear_provider-Agrees q named =
      let row = clear_provider_row q (date now) in
      elim (Bool-cases (same_status s.tx.status Status.pending)) [
        | inr e ↦ write_matched-unmet laws st k _ _ s h (rw e refl) j row (rw e refl)
        | inl e ↦ elim (Bool-cases (s.tx.provider_tx_id == q)) [
          | inl here ↦
              let taken : (s.tx.provider_tx_id == "") ≡ false =
                ap (λ i. i == "") ((eq_iff s.tx.provider_tx_id q).0 here) ∙ named in
              write_matched-met laws st k _ _ s h _ (rw e (rw here (rw (has_id taken) refl))) refl j
                row (rw e (rw taken (rw here refl)))
          | inr other ↦
              write_matched-unmet laws st k _ _ s h
                (rw e (rw other (and_false s.has_provider_tx_id))) j row
                (rw e (rw other (or_if (s.tx.provider_tx_id == "") _ _)))
        ]
      ]

  pub update_provider_tx_id-Agrees :
      (q : String)
      → Agrees laws st k
          (update_provider_tx_id_row q (date now))
          s.tx
          j
          (update_provider_transaction_id d k q now st)
  unfolding update_provider_transaction_id update_provider_tx_id_row meets change_all
  update_provider_tx_id-Agrees q =
      matched-met laws st k _ _ s h _ refl refl j (update_provider_tx_id_row q (date now)) refl
        not_found

  pub increment_retries-Agrees :
      (n : ℕ)
      → s.tx.retries ≡ pos n
      → n < 2147483647
      → Agrees laws st k (increment_retries_row (date now)) s.tx j (increment_retries d k now st)
  unfolding increment_retries increment_retries_row meets change_all
  increment_retries-Agrees n e small =
      let same : to_int32 (s.tx.retries +ℤ pos 1) ≡ s.tx.retries +ℤ pos 1 =
        rw e (rw (add_pos n 1) (to_int32_of_small (n + 1) (omega arith))) in
      let fits : leb_ℤ (s.tx.retries +ℤ pos 1) (pos 2147483647) ≡ true =
        rw e (rw (add_pos n 1) (ground arith)) in
      write-met laws st k _ _ s h
        (record s { tx = record s.tx { retries = s.tx.retries +ℤ pos 1; updated_at = date now } })
        refl (rw (fits, change_all) refl) j (increment_retries_row (date now)) (rw same refl)

  pub reset_to_pending-Agrees :
      Agrees laws st k (reset_to_pending_row (date now)) s.tx j (reset_to_pending d k now st)
  unfolding reset_to_pending reset_to_pending_row meets change_all
  reset_to_pending-Agrees =
      write-met laws st k _ _ s h _ refl refl j (reset_to_pending_row (date now)) refl
