-- ===== src/DocDb/Refunds.antt =====
-- Each write of the refund by the document store is the row of the in-memory store, with dates of
-- milliseconds.
use extend_regional_payment.Prelude.{
  and_true, String, ◌≡◌, true, false, not, Option, some, [], ◌∷◌, ◌⊎◌,
}
use extend_regional_payment.Prelude.{
  Option-cases, Bool, ◌&&◌, inl, inr, refl, arith, if◌then◌else◌, ◌∙◌, Bool-cases,
}
use extend_regional_payment.Model.{Refund, Status, Time, same_status}
use extend_regional_payment.Store.Types.{ok, err, no_documents}
use extend_regional_payment.Store.Rows.{
  claim_refunding_row, claim_external_refunding_row, mark_refund_provider_succeeded_row,
  commit_refund_row, mark_refund_failed_row,
}
use extend_regional_payment.DocDb.Query.{Driver}
use extend_regional_payment.DocDb.Documented.{date, Stored, meets, change_all, Documented}
use extend_regional_payment.DocDb.Writes.{
  Agrees, claim-met, claim-unmet, write-met, answered-met, answered-unmet,
}
use extend_regional_payment.DocDb.Query.{Test, test}
use extend_regional_payment.DocDb.Located.{find_one-met, find_one-unmet}
use extend_regional_payment.DocDb.Documented.{has_refund}
use extend_regional_payment.Store.Rows.{is_refund_claimable}
use extend_regional_payment.DocDb.{
  atomic_claim_refunding, atomic_claim_external_refunding, mark_refund_provider_succeeded,
  commit_refund, mark_refund_failed, has_no_refund, claimable, with_id, refund_changes,
  external_refund_changes,
}

and_false_cases : (a b : Bool) → (a && b) ≡ false → (a ≡ false) ⊎ (b ≡ false)
and_false_cases a b h = ground arith

if_same : {A : Type 0} (b : Bool) (x : A) → (if b then x else x) ≡ x
if_same b x = ground arith

module _ {S : Type 0} {d : Driver S} {get : S → String → Option Stored} (laws : Documented d get)
    (st : S) (k : String) (s : Stored) (h : get st k ≡ some s) (now : Time) (j : String) where
  has_no_refund-there : has_no_refund d k st ≡ not (has_refund s.tx.refund)
  unfolding has_no_refund meets
  has_no_refund-there = elim (Bool-cases (has_refund s.tx.refund)) [
    | inl e ↦
        rw
          (
            has_no_refund,
            find_one-met laws st k (test Test.refund_exists ∷ []) s h (rw e refl) _
                (laws.find_one_lem (with_id k (test Test.refund_exists ∷ [])) st),
          )
          (rw e refl)
    | inr e ↦
        rw
          (
            has_no_refund,
            find_one-unmet laws st k (test Test.refund_exists ∷ []) s h (rw e refl) _
                (laws.find_one_lem (with_id k (test Test.refund_exists ∷ [])) st),
          )
          (rw e refl)
  ]

  -- The filter of both claims of a refund.
  claimable_is : Bool
  claimable_is = same_status s.tx.status Status.fulfilled && is_refund_claimable s.tx.refund

  meets-claimable : meets claimable s ≡ claimable_is
  unfolding meets claimable_is
  meets-claimable = ground arith

  module _ (reason : String) (guard : claimable_is ≡ true) where
    external_changed :
        change_all (external_refund_changes (has_no_refund d k st) reason now) s
        ≡ some (record s { tx = (claim_external_refunding_row reason (date now) s.tx).1 })
    unfolding change_all claim_external_refunding_row claimable_is
    external_changed =
        let (a, b) =
          and_true (same_status s.tx.status Status.fulfilled) (is_refund_claimable s.tx.refund)
            guard in
        rw has_no_refund-there (
          rw a
            (rw b (elim (Option-cases s.tx.refund) [ inl e ↦ rw e refl | inr (r, e) ↦ rw e refl ])))

    external_row : claim_external_refunding_row reason (date now) s.tx ≡ (
      ok (claim_external_refunding_row reason (date now) s.tx).1,
      (claim_external_refunding_row reason (date now) s.tx).1,
    )
    unfolding claim_external_refunding_row claimable_is
    external_row =
        let (a, b) =
          and_true (same_status s.tx.status Status.fulfilled) (is_refund_claimable s.tx.refund)
            guard in
        rw a (rw b refl)

  refused_external :
      (reason : String)
      → claimable_is ≡ false
      → claim_external_refunding_row reason (date now) s.tx ≡ (err no_documents, s.tx)
  unfolding claim_external_refunding_row claimable_is
  refused_external reason e =
      elim (and_false_cases (same_status s.tx.status Status.fulfilled)
        (is_refund_claimable s.tx.refund) e) [
          | inl a ↦ rw a refl
          | inr b ↦ rw b (if_same (not (same_status s.tx.status Status.fulfilled)) _)
        ]

  refused_own :
      (reason : String)
      → claimable_is ≡ false
      → claim_refunding_row reason (date now) s.tx ≡ (err no_documents, s.tx)
  unfolding claim_refunding_row claimable_is
  refused_own reason e =
      elim (and_false_cases (same_status s.tx.status Status.fulfilled)
        (is_refund_claimable s.tx.refund) e) [
          | inl a ↦ rw a refl
          | inr b ↦ rw b (if_same (not (same_status s.tx.status Status.fulfilled)) _)
        ]

  module _ (reason : String) (guard : claimable_is ≡ true) where
    own_changed :
        change_all (refund_changes (has_no_refund d k st) reason now) s
        ≡ some (record s { tx = (claim_refunding_row reason (date now) s.tx).1 })
    unfolding change_all claim_refunding_row claimable_is
    own_changed =
        let (a, b) =
          and_true (same_status s.tx.status Status.fulfilled) (is_refund_claimable s.tx.refund)
            guard in
        rw has_no_refund-there (
          rw a
            (rw b (elim (Option-cases s.tx.refund) [ inl e ↦ rw e refl | inr (r, e) ↦ rw e refl ])))

    own_row : claim_refunding_row reason (date now) s.tx ≡ (
      ok (claim_refunding_row reason (date now) s.tx).1,
      (claim_refunding_row reason (date now) s.tx).1,
    )
    unfolding claim_refunding_row claimable_is
    own_row =
        let (a, b) =
          and_true (same_status s.tx.status Status.fulfilled) (is_refund_claimable s.tx.refund)
            guard in
        rw a (rw b refl)

  pub claim_refunding-Agrees :
      (reason : String)
      → Agrees laws st k
          (claim_refunding_row reason (date now))
          s.tx
          j
          (atomic_claim_refunding d k reason now st)
  unfolding atomic_claim_refunding
  claim_refunding-Agrees reason =
      let row = claim_refunding_row reason (date now) in
      elim (Bool-cases claimable_is) [
        | inl e ↦
            answered-met laws st k _ _ s h (record s { tx = (row s.tx).1 }) (meets-claimable ∙ e)
              (own_changed reason e) j row (own_row reason e) no_documents
        | inr e ↦
            answered-unmet laws st k _ _ s h (meets-claimable ∙ e) j row (refused_own reason e)
      ]

  pub claim_external_refunding-Agrees :
      (reason : String)
      → Agrees laws st k
          (claim_external_refunding_row reason (date now))
          s.tx
          j
          (atomic_claim_external_refunding d k reason now st)
  unfolding atomic_claim_external_refunding
  claim_external_refunding-Agrees reason =
      let row = claim_external_refunding_row reason (date now) in
      elim (Bool-cases claimable_is) [
        | inl e ↦
            claim-met laws st k _ _ s h (record s { tx = (row s.tx).1 }) (meets-claimable ∙ e)
              (external_changed reason e) j row (external_row reason e)
        | inr e ↦
            claim-unmet laws st k _ _ s h (meets-claimable ∙ e) j row (refused_external reason e)
      ]

  -- There is a refund.
  module _ (r : Refund) (e : s.tx.refund ≡ some r) where
    pub mark_refund_provider_succeeded-Agrees :
        Agrees laws st k
          (mark_refund_provider_succeeded_row (date now))
          s.tx
          j
          (mark_refund_provider_succeeded d k now st)
    unfolding mark_refund_provider_succeeded mark_refund_provider_succeeded_row meets change_all
    mark_refund_provider_succeeded-Agrees =
        let row = mark_refund_provider_succeeded_row (date now) in
        write-met laws st k _ _ s h (record s { tx = (row s.tx).1 }) refl (rw (e, change_all) refl)
          j row refl

    pub commit_refund-Agrees :
        Agrees laws st k (commit_refund_row (date now)) s.tx j (commit_refund d k now st)
    unfolding commit_refund commit_refund_row meets change_all
    commit_refund-Agrees =
        let row = commit_refund_row (date now) in
        write-met laws st k _ _ s h (record s { tx = (row s.tx).1 }) refl (rw (e, change_all) refl)
          j row refl

    pub mark_refund_failed-Agrees :
        (reason : String)
        → Agrees laws st k
            (mark_refund_failed_row reason (date now))
            s.tx
            j
            (mark_refund_failed d k reason now st)
    unfolding mark_refund_failed mark_refund_failed_row meets change_all
    mark_refund_failed-Agrees reason =
        let row = mark_refund_failed_row reason (date now) in
        write-met laws st k _ _ s h (record s { tx = (row s.tx).1 }) refl (rw (e, change_all) refl)
          j row refl
