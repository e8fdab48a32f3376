-- ===== src/DocDb/Writes.antt =====
-- The three kinds of write of the store over the driver: what they answer and leave for a document
-- that is there.
use extend_regional_payment.Prelude.{String, ◌==◌, ◌≡◌, true, false, Option, some, []}
use extend_regional_payment.Prelude.{
  Bool, Bool-cases, eq_iff, inl, inr, refl, if◌then◌else◌, ap, ◌∙◌, sym,
}
use extend_regional_payment.Model.{Transaction}
use extend_regional_payment.Store.Types.{StoreError, Result, ok, err, no_documents}
use extend_regional_payment.Store.Rows.{Row}
use extend_regional_payment.Store.Laws.{map_option}
use extend_regional_payment.DocDb.Query.{Filter, Driver, Update}
use extend_regional_payment.DocDb.Documented.{Stored, meets, change_all, Documented}
use extend_regional_payment.DocDb.Located.{
  updates-met, updates-unmet, find_one-met, find_one-absent, updates-absent,
}
use extend_regional_payment.DocDb.{
  or_error, matched, with_id, claim, write, write_matched, why_unmatched, not_found, none,
}

pub map_if :
    {A B : Type 0} (f : A → B) (b : Bool) (x y : Option A)
    → map_option f (if b then x else y) ≡ (if b then map_option f x else map_option f y)
map_if f true x y = refl
map_if f false x y = refl

-- The transaction with an id.
abbrev pub fetch : {S : Type 0} → (S → String → Option Stored) → S → String → Option Transaction
fetch get st k = map_option (λ s. s.tx) (get st k)

module _ {S : Type 0} {d : Driver S} {get : S → String → Option Stored} (laws : Documented d get)
    (st : S) (k : String) where
  -- What an operation answers and what is at `j` after it is as a row says of the transaction.
  abbrev pub Agrees : {A : Type 0} → Row A → Transaction → String → Result A × S → Type 0
  Agrees row u j out =
      (out.0 ≡ (row u).0)
      × (fetch get out.1 j ≡ (if k == j then some (row u).1 else fetch get st j))

  -- A document that is there.
  module _ (f : Filter) (u : Update) (s : Stored) (h : get st k ≡ some s) where
    why_unmatched-there :
        (st' : S) → ((j : String) → get st' j ≡ get st j) → why_unmatched d k st' ≡ no_documents
    unfolding why_unmatched meets
    why_unmatched-there st' same =
        rw (find_one-met laws st' k [] s (same k ∙ h) refl _ (laws.find_one_lem (with_id k []) st'))
          refl

    module _ {A : Type 0} (row : Row A) (j : String) where
      Agrees-met :
          (s' : Stored) (out : Result A × S)
          → out.0 ≡ (row s.tx).0
          → get out.1 j ≡ (if k == j then some s' else get st j)
          → s'.tx ≡ (row s.tx).1
          → Agrees row s.tx j out
      Agrees-met s' out a b c = (
        a,
        ap (map_option (λ s. s.tx)) b
            ∙ map_if (λ s. s.tx) (k == j) (some s') (get st j)
            ∙ ap (λ t. if k == j then some t else fetch get st j) c,
      )

      Agrees-unmet :
          (out : Result A × S)
          → out.0 ≡ (row s.tx).0
          → get out.1 j ≡ get st j
          → (row s.tx).1 ≡ s.tx
          → Agrees row s.tx j out
      Agrees-unmet out a b c = (
        a,
        ap (map_option (λ s. s.tx)) b ∙ elim (Bool-cases (k == j)) [
          | inl here ↦ rw here (
              ap (fetch get st) (sym ((eq_iff k j).0 here))
              ∙ ap (map_option (λ s. s.tx)) h
              ∙ ap some (sym c))
          | inr other ↦ rw other refl
        ],
      )

    module _ (s' : Stored) (met : meets f s ≡ true) (changed : change_all u s ≡ some s')
        (j : String) where
      -- Whatever the error of a claim that matches nothing would be.
      pub answered-met :
          (row : Row Transaction)
          → row s.tx ≡ (ok s'.tx, s'.tx)
          → (e : StoreError)
          → Agrees row s.tx j (
            or_error (d.find_one_and_update (with_id k f) u st).0 e,
            (d.find_one_and_update (with_id k f) u st).1,
          )
      unfolding or_error
      answered-met row e error =
          let (a, b) =
            updates-met laws st k f u _ _ _ (laws.find_one_and_update_lem (with_id k f) u st) s s' h
              met changed in
          Agrees-met row j s' _ (rw a (ap (λ p. p.0) (sym e))) (b j) (ap (λ p. p.1) (sym e))

      pub claim-met :
          (row : Row Transaction)
          → row s.tx ≡ (ok s'.tx, s'.tx)
          → Agrees row s.tx j (claim d k f u st)
      unfolding claim
      claim-met row e = answered-met row e _

      pub write-met :
          (row : Row (Unit {0})) → row s.tx ≡ (ok tt, s'.tx) → Agrees row s.tx j (write d k f u st)
      unfolding write
      write-met row e =
          let (a, b) =
            updates-met laws st k f u _ _ _ (laws.update_one_lem (with_id k f) u st) s s' h met
              changed in
          Agrees-met row j s' _ (rw a (ap (λ p. p.0) (sym e))) (b j) (ap (λ p. p.1) (sym e))

      -- Whatever the error of a write that matches nothing would be.
      pub matched-met :
          (row : Row (Unit {0}))
          → row s.tx ≡ (ok tt, s'.tx)
          → (e : StoreError)
          → Agrees row s.tx j
              (matched (d.update_one (with_id k f) u st).0 e, (d.update_one (with_id k f) u st).1)
      unfolding matched
      matched-met row e error =
          let (a, b) =
            updates-met laws st k f u _ _ _ (laws.update_one_lem (with_id k f) u st) s s' h met
              changed in
          Agrees-met row j s' _ (rw a (ap (λ p. p.0) (sym e))) (b j) (ap (λ p. p.1) (sym e))

      pub write_matched-met :
          (row : Row (Unit {0}))
          → row s.tx ≡ (ok tt, s'.tx)
          → Agrees row s.tx j (write_matched d k f u st)
      unfolding write_matched
      write_matched-met row e = matched-met row e _

    module _ (unmet : meets f s ≡ false) (j : String) where
      pub answered-unmet :
          (row : Row Transaction)
          → row s.tx ≡ (err no_documents, s.tx)
          → Agrees row s.tx j (
            or_error (d.find_one_and_update (with_id k f) u st).0 no_documents,
            (d.find_one_and_update (with_id k f) u st).1,
          )
      unfolding or_error
      answered-unmet row e =
          let (a, b) =
            updates-unmet laws st k f u _ _ _ (laws.find_one_and_update_lem (with_id k f) u st) s h
              unmet in
          Agrees-unmet row j _ (rw a (ap (λ p. p.0) (sym e))) (b j) (ap (λ p. p.1) e)

      pub claim-unmet :
          (row : Row Transaction)
          → row s.tx ≡ (err no_documents, s.tx)
          → Agrees row s.tx j (claim d k f u st)
      unfolding claim
      claim-unmet row e =
          let (a, b) =
            updates-unmet laws st k f u _ _ _ (laws.find_one_and_update_lem (with_id k f) u st) s h
              unmet in
          Agrees-unmet row j _ (rw a (rw (why_unmatched-there _ b) (ap (λ p. p.0) (sym e)))) (b j)
            (ap (λ p. p.1) e)

      pub write_matched-unmet :
          (row : Row (Unit {0}))
          → row s.tx ≡ (err no_documents, s.tx)
          → Agrees row s.tx j (write_matched d k f u st)
      unfolding write_matched
      write_matched-unmet row e =
          let (a, b) =
            updates-unmet laws st k f u _ _ _ (laws.update_one_lem (with_id k f) u st) s h unmet in
          Agrees-unmet row j _ (rw a (rw (why_unmatched-there _ b) (ap (λ p. p.0) (sym e)))) (b j)
            (ap (λ p. p.1) e)

  -- There is no document.
  module _ (f : Filter) (u : Update) (none_there : get st k ≡ none) where
    why_unmatched-absent :
        (st' : S) → ((j : String) → get st' j ≡ get st j) → why_unmatched d k st' ≡ not_found
    unfolding why_unmatched
    why_unmatched-absent st' same =
        rw
          (find_one-absent laws st' k [] (same k ∙ none_there) _
            (laws.find_one_lem (with_id k []) st'))
          refl

    -- An operation that finds nothing and leaves everything.
    abbrev pub Missing : {A : Type 0} → String → Result A × S → Type 0
    Missing j out = (out.0 ≡ err not_found) × (get out.1 j ≡ get st j)

    pub claim-absent : (j : String) → Missing j (claim d k f u st)
    unfolding claim or_error
    claim-absent j =
        let (a, b) =
          updates-absent laws st k f u _ _ _ (laws.find_one_and_update_lem (with_id k f) u st)
            none_there in
        (rw a (rw (why_unmatched-absent _ b) refl), b j)

    pub matched-absent :
        (j : String)
        → Missing j (
          matched (d.update_one (with_id k f) u st).0 not_found,
          (d.update_one (with_id k f) u st).1,
        )
    unfolding matched
    matched-absent j =
        let (a, b) =
          updates-absent laws st k f u _ _ _ (laws.update_one_lem (with_id k f) u st) none_there in
        (rw a refl, b j)

    pub write_matched-absent : (j : String) → Missing j (write_matched d k f u st)
    unfolding write_matched matched
    write_matched-absent j =
        let (a, b) =
          updates-absent laws st k f u _ _ _ (laws.update_one_lem (with_id k f) u st) none_there in
        (rw a (rw (why_unmatched-absent _ b) refl), b j)
