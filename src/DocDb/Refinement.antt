-- ===== src/DocDb/Refinement.antt =====
-- The document store implements the in-memory store: operations on documents, one after another.
use extend_regional_payment.Prelude.{
  ℕ, String, ◌==◌, ◌≡◌, true, false, Option, none, some, List, [], ◌∷◌, ◌<◌,
}
use extend_regional_payment.Prelude.{
  subst, inl, inr, refl, if◌then◌else◌, ap, ◌∙◌, sym, Option-cases,
}
use extend_regional_payment.Prelude.Int.{pos}
use extend_regional_payment.Prelude.Table.{lookup}
use extend_regional_payment.Model.{Refund, Status, Transaction, Time, same_status}
use extend_regional_payment.Store.Types.{not_found, Result, ok, err}
use extend_regional_payment.Store.Memory.{Store, on_row}
use extend_regional_payment.Store.Laws.{
  row_result, row_effect, result-on_row, lookup-on_row, on_row-missing, map_option,
}
use extend_regional_payment.Store.Ops.{RowOp}
use extend_regional_payment.Store.Rows
use extend_regional_payment.Store.Rows.{Row}
use extend_regional_payment.DocDb
use extend_regional_payment.DocDb.Query.{Driver}
use extend_regional_payment.DocDb.Documented.{date, Stored, Documented}
use extend_regional_payment.DocDb.Writes.{
  Agrees, fetch, claim-absent, matched-absent, write_matched-absent,
}
use extend_regional_payment.DocDb.Rows.{
  claim_fulfilling-Agrees, commit_fulfilled-Agrees, mark_failed-Agrees, mark_terminal-Agrees,
  attach_provider-Agrees, clear_provider-Agrees, update_provider_tx_id-Agrees,
  increment_retries-Agrees, reset_to_pending-Agrees,
}
use extend_regional_payment.DocDb.Refunds.{
  claim_refunding-Agrees, claim_external_refunding-Agrees, mark_refund_provider_succeeded-Agrees,
  commit_refund-Agrees, mark_refund_failed-Agrees,
}

-- The answer of any operation: a claim has a transaction.
abbrev pub Reply : Type 0
Reply = Result (Option Transaction)

abbrev claimed : Result Transaction → Reply
claimed (ok tx) = ok (some tx)
claimed (err e) = err e

abbrev done : Result (Unit {0}) → Reply
done (ok _) = ok none
done (err e) = err e

-- An operation, and an operation's row, with the answer of that form.
abbrev via : {A S : Type 0} → (Result A → Reply) → Result A × S → Reply × S
via f out = (f out.0, out.1)

abbrev row_via : {A : Type 0} → (Result A → Reply) → Row A → Row (Option Transaction)
row_via f row tx = (f (row tx).0, (row tx).1)

-- The operation on a document of the in-memory store.
unfoldable pub row_of : RowOp → Time → Row (Option Transaction)
row_of (RowOp.claim_fulfilling q) now = row_via claimed (Rows.claim_fulfilling_row q now)
row_of (RowOp.commit_fulfilled p t) now = row_via done (Rows.commit_fulfilled_row p t now)
row_of (RowOp.mark_failed r t) now = row_via done (Rows.mark_failed_row r t now)
row_of (RowOp.mark_canceled r p t) now =
    row_via done (Rows.mark_terminal_if_pending_row Status.canceled r p t now)
row_of (RowOp.mark_expired r p t) now =
    row_via done (Rows.mark_terminal_if_pending_row Status.expired r p t now)
row_of (RowOp.attach_provider p n q u) now = row_via done (Rows.attach_provider_row p n q u now)
row_of (RowOp.clear_provider q) now = row_via done (Rows.clear_provider_row q now)
row_of (RowOp.update_provider_tx_id q) now = row_via done (Rows.update_provider_tx_id_row q now)
row_of RowOp.increment_retries now = row_via done (Rows.increment_retries_row now)
row_of RowOp.reset_to_pending now = row_via done (Rows.reset_to_pending_row now)
row_of (RowOp.claim_refunding r) now = row_via claimed (Rows.claim_refunding_row r now)
row_of (RowOp.claim_external_refunding r) now =
    row_via claimed (Rows.claim_external_refunding_row r now)
row_of RowOp.mark_refund_provider_succeeded now =
    row_via done (Rows.mark_refund_provider_succeeded_row now)
row_of RowOp.commit_refund now = row_via done (Rows.commit_refund_row now)
row_of (RowOp.mark_refund_failed r) now = row_via done (Rows.mark_refund_failed_row r now)

-- The same operation with the dates of milliseconds.
abbrev pub dated_op : RowOp → RowOp
dated_op (RowOp.commit_fulfilled p t) = RowOp.commit_fulfilled p (date t)
dated_op (RowOp.mark_failed r t) = RowOp.mark_failed r (date t)
dated_op (RowOp.mark_canceled r p t) = RowOp.mark_canceled r p (date t)
dated_op (RowOp.mark_expired r p t) = RowOp.mark_expired r p (date t)
dated_op o = o

-- Where the two stores do the same. For a transaction that is there: CommitFulfilled of one that is
-- being fulfilled, a provider's id that is not empty, retries within an int32, and a refund for what
-- is written to one. For one that is not there: the operations that look why nothing matched.
abbrev pub Supported : RowOp → Option Transaction → Type 0
Supported (RowOp.commit_fulfilled _ _) (some u) = same_status u.status Status.fulfilling ≡ true
Supported (RowOp.clear_provider q) (some u) = (q == "") ≡ false
Supported RowOp.increment_retries (some u) = (n : ℕ) × (u.retries ≡ pos n) × (n < 2147483647)
Supported RowOp.mark_refund_provider_succeeded (some u) = (r : Refund) × (u.refund ≡ some r)
Supported RowOp.commit_refund (some u) = (r : Refund) × (u.refund ≡ some r)
Supported (RowOp.mark_refund_failed _) (some u) = (r : Refund) × (u.refund ≡ some r)
Supported _ (some u) = Unit
Supported (RowOp.claim_fulfilling _) none = Unit
Supported (RowOp.mark_canceled _ _ _) none = Unit
Supported (RowOp.mark_expired _ _ _) none = Unit
Supported (RowOp.attach_provider _ _ _ _) none = Unit
Supported (RowOp.clear_provider _) none = Unit
Supported (RowOp.update_provider_tx_id _) none = Unit
Supported (RowOp.claim_external_refunding _) none = Unit
Supported _ none = ⊥

module _ {S : Type 0} (d : Driver S) where
  -- The operation over the driver.
  unfoldable pub perform : RowOp → String → Time → S → Reply × S
  perform (RowOp.claim_fulfilling q) k now st =
      via claimed (DocDb.atomic_claim_fulfilling d k q now st)
  perform (RowOp.commit_fulfilled p t) k now st = via done (DocDb.commit_fulfilled d k p t now st)
  perform (RowOp.mark_failed r t) k now st = via done (DocDb.mark_failed d k r t now st)
  perform (RowOp.mark_canceled r p t) k now st =
      via done (DocDb.mark_canceled_if_pending d k r p t now st)
  perform (RowOp.mark_expired r p t) k now st =
      via done (DocDb.mark_expired_if_pending d k r p t now st)
  perform (RowOp.attach_provider p n q u) k now st =
      via done (DocDb.attach_provider_transaction d k p n q u now st)
  perform (RowOp.clear_provider q) k now st =
      via done (DocDb.clear_provider_transaction_if_pending d k q now st)
  perform (RowOp.update_provider_tx_id q) k now st =
      via done (DocDb.update_provider_transaction_id d k q now st)
  perform RowOp.increment_retries k now st = via done (DocDb.increment_retries d k now st)
  perform RowOp.reset_to_pending k now st = via done (DocDb.reset_to_pending d k now st)
  perform (RowOp.claim_refunding r) k now st =
      via claimed (DocDb.atomic_claim_refunding d k r now st)
  perform (RowOp.claim_external_refunding r) k now st =
      via claimed (DocDb.atomic_claim_external_refunding d k r now st)
  perform RowOp.mark_refund_provider_succeeded k now st =
      via done (DocDb.mark_refund_provider_succeeded d k now st)
  perform RowOp.commit_refund k now st = via done (DocDb.commit_refund d k now st)
  perform (RowOp.mark_refund_failed r) k now st = via done (DocDb.mark_refund_failed d k r now st)

lift : {A B : Type 0} {P : Type 0} (f : A → B) {x y : A} → (x ≡ y) × P → (f x ≡ f y) × P
lift f (a, b) = (ap f a, b)

module _ {S : Type 0} {d : Driver S} {get : S → String → Option Stored} (laws : Documented d get)
    (st : S) (k : String) (now : Time) (j : String) where
  module _ (s : Stored) (h : get st k ≡ some s) where
    there :
        (o : RowOp)
        → Supported o (some s.tx)
        → Agrees laws st k (row_of (dated_op o) (date now)) s.tx j (perform d o k now st)
    unfolding row_of perform
    there (RowOp.claim_fulfilling q) given =
        lift claimed (claim_fulfilling-Agrees laws st k s h now j q)
    there (RowOp.commit_fulfilled p t) given =
        lift done (commit_fulfilled-Agrees laws st k s h now j p t given)
    there (RowOp.mark_failed r t) given = lift done (mark_failed-Agrees laws st k s h now j r t)
    there (RowOp.mark_canceled r p t) given =
        lift done (mark_terminal-Agrees laws st k s h now j Status.canceled r p t)
    there (RowOp.mark_expired r p t) given =
        lift done (mark_terminal-Agrees laws st k s h now j Status.expired r p t)
    there (RowOp.attach_provider p n q u) given =
        lift done (attach_provider-Agrees laws st k s h now j p n q u)
    there (RowOp.clear_provider q) given =
        lift done (clear_provider-Agrees laws st k s h now j q given)
    there (RowOp.update_provider_tx_id q) given =
        lift done (update_provider_tx_id-Agrees laws st k s h now j q)
    there (RowOp.increment_retries) given =
        lift done (increment_retries-Agrees laws st k s h now j given.0 given.1 given.2)
    there (RowOp.reset_to_pending) given = lift done (reset_to_pending-Agrees laws st k s h now j)
    there (RowOp.claim_refunding r) given =
        lift claimed (claim_refunding-Agrees laws st k s h now j r)
    there (RowOp.claim_external_refunding r) given =
        lift claimed (claim_external_refunding-Agrees laws st k s h now j r)
    there (RowOp.mark_refund_provider_succeeded) given =
        lift done (mark_refund_provider_succeeded-Agrees laws st k s h now j given.0 given.1)
    there (RowOp.commit_refund) given =
        lift done (commit_refund-Agrees laws st k s h now j given.0 given.1)
    there (RowOp.mark_refund_failed r) given =
        lift done (mark_refund_failed-Agrees laws st k s h now j given.0 given.1 r)

  absent :
      (o : RowOp)
      → Supported o none
      → get st k ≡ none
      → ((perform d o k now st).0 ≡ err not_found) × (get (perform d o k now st).1 j ≡ get st j)
  unfolding perform DocDb.atomic_claim_fulfilling DocDb.mark_terminal_if_pending
      DocDb.attach_provider_transaction DocDb.clear_provider_transaction_if_pending
      DocDb.update_provider_transaction_id DocDb.atomic_claim_external_refunding
  absent (RowOp.claim_fulfilling q) given e = lift claimed (claim-absent laws st k _ _ e j)
  absent (RowOp.mark_canceled r p t) given e = lift done (write_matched-absent laws st k _ _ e j)
  absent (RowOp.mark_expired r p t) given e = lift done (write_matched-absent laws st k _ _ e j)
  absent (RowOp.attach_provider p n q u) given e =
      lift done (write_matched-absent laws st k _ _ e j)
  absent (RowOp.clear_provider q) given e = lift done (write_matched-absent laws st k _ _ e j)
  absent (RowOp.update_provider_tx_id q) given e = lift done (matched-absent laws st k _ _ e j)
  absent (RowOp.claim_external_refunding r) given e = lift claimed (claim-absent laws st k _ _ e j)
  absent (RowOp.commit_fulfilled _ _) given e = absurd given
  absent (RowOp.mark_failed _ _) given e = absurd given
  absent (RowOp.increment_retries) given e = absurd given
  absent (RowOp.reset_to_pending) given e = absurd given
  absent (RowOp.claim_refunding _) given e = absurd given
  absent (RowOp.mark_refund_provider_succeeded) given e = absurd given
  absent (RowOp.commit_refund) given e = absurd given
  absent (RowOp.mark_refund_failed _) given e = absurd given

  -- One operation on the collection and on a map of the same documents.
  pub perform_lem :
      (o : RowOp) (m : Store)
      → ((i : String) → fetch get st i ≡ lookup i m)
      → Supported o (lookup k m)
      → ((perform d o k now st).0 ≡ (on_row k (row_of (dated_op o) (date now)) m).0)
        × (fetch get (perform d o k now st).1 j
            ≡ lookup j (on_row k (row_of (dated_op o) (date now)) m).1)
  perform_lem o m same given =
      let row = row_of (dated_op o) (date now) in
      elim (Option-cases (get st k)) [
        | inl e ↦
            let gone : lookup k m ≡ none = sym (same k) ∙ ap (map_option (λ x. x.tx)) e in
            let (a, b) = absent o (subst (Supported o) gone given) e in
            (
              a ∙ ap (row_result row) (sym gone) ∙ sym (result-on_row row m k),
              ap (map_option (λ x. x.tx)) b
                  ∙ same j
                  ∙ ap (λ p. lookup j p.1) (sym (on_row-missing row m k gone)),
            )
        | inr (s, e) ↦
            let here : lookup k m ≡ some s.tx = sym (same k) ∙ ap (map_option (λ x. x.tx)) e in
            let (a, b) = there s e o (subst (Supported o) here given) in
            (
              a ∙ ap (row_result row) (sym here) ∙ sym (result-on_row row m k),
              b
                  ∙ ap (λ t. if k == j then some (row s.tx).1 else t) (same j)
                  ∙ ap (λ t. if k == j then row_effect row t else lookup j m) (sym here)
                  ∙ sym (lookup-on_row row m j k),
            )
      ]

-- The document that is named, the operation on it, and the time.
abbrev pub Call : Type 0
Call = String × RowOp × Time

-- A sequence of calls over the driver, with the answers.
unfoldable pub replay : {S : Type 0} → Driver S → List Call → S → List Reply × S
replay d [] st = ([], st)
replay d ((k, o, now) ∷ calls) st =
    let (r, st') = perform d o k now st in let (rs, last) = replay d calls st' in (r ∷ rs, last)

-- The same calls on the in-memory store, with the dates of milliseconds.
abbrev pub on_memory : Call → Store → Reply × Store
on_memory (k, o, now) m = on_row k (row_of (dated_op o) (date now)) m

unfoldable pub replay_memory : List Call → Store → List Reply × Store
replay_memory [] m = ([], m)
replay_memory (c ∷ calls) m =
    let (r, m') = on_memory c m in let (rs, last) = replay_memory calls m' in (r ∷ rs, last)

-- Each call of a sequence is one where the two stores do the same.
abbrev pub AllSupported : List Call → Store → Type 0
AllSupported [] m = Unit
AllSupported ((k, o, now) ∷ calls) m =
    Supported o (lookup k m) × AllSupported calls (on_memory (k, o, now) m).1

-- A sequence of operations on the document store gives the answers of the in-memory store, and leaves
-- the same transaction, or none, under every id: where both have the same documents at the start, the
-- driver does as the manual says, and every call is one of those that the two stores have in common.
-- The in-memory store is given the times as BSON stores them, cut to milliseconds.
pub replay-refines :
    {S : Type 0} {d : Driver S} {get : S → String → Option Stored}
    → Documented d get
    → (calls : List Call) (st : S) (m : Store) (j : String)
    → ((i : String) → fetch get st i ≡ lookup i m)
    → AllSupported calls m
    → ((replay d calls st).0 ≡ (replay_memory calls m).0)
      × (fetch get (replay d calls st).1 j ≡ lookup j (replay_memory calls m).1)
unfolding replay replay_memory
replay-refines laws [] st m j same given = (refl, same j)
replay-refines {d} laws ((k, o, now) ∷ calls) st m j same (given, rest) =
    let (a, b) =
      replay-refines laws calls (perform d o k now st).1 (on_memory (k, o, now) m).1 j
        (λ i. (perform_lem laws st k now i o m same given).1) rest in
    (rw (perform_lem laws st k now j o m same given).0 (rw a refl), b)
