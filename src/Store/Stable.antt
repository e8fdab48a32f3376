-- ===== src/Store/Stable.antt =====
-- What holds of one transaction through every operation that does not end it.
use extend_regional_payment.Prelude.{String, ◌==◌, Bool, true, false, not, some, List, [], ◌∷◌}
use extend_regional_payment.Prelude.{◌≡◌, sym, subst, inl, inr, arith, All}
use extend_regional_payment.Prelude.{if◌then◌else◌, eq_iff, Option-cases, Bool-cases}
use extend_regional_payment.Prelude.Table.{lookup, lookup-insert, lookup-erase}
use extend_regional_payment.Model.{Transaction, Time}
use extend_regional_payment.Store.Memory.{Store, by_client_order_id}
use extend_regional_payment.Store.Laws.{lookup-on_row, create-fresh, create-duplicate}
use extend_regional_payment.Store.Ops.{RowOp, row_after, as_row, Op, create, delete, on, step, run}

-- P holds of the transaction under k, if there is one.
abbrev pub Holds : (Transaction → Bool) → String → Store → Type 0
Holds p k s = (tx : Transaction) → lookup k s ≡ some tx → p tx ≡ true

-- Whether an operation may end p of the transaction under k: a row operation that p does not allow
-- there, or a new transaction under the same id.
abbrev pub touches : (RowOp → Bool) → String → Op → Bool
touches allowed k (create tx) = tx.id == k
touches allowed k (delete id) = false
touches allowed k (on id o now) = if id == k then not (allowed o) else false

module _ (p : Transaction → Bool) (allowed : RowOp → Bool)
    (keeps : (o : RowOp) (now : Time) (tx : Transaction)
      → allowed o ≡ true
      → p tx ≡ true
      → p (row_after o now tx) ≡ true)
    (k : String) where
  create-Holds :
      (t : Transaction) (s : Store)
      → (t.id == k) ≡ false
      → Holds p k s
      → Holds p k (step (create t) s)
  unfolding step
  create-Holds t s ne h = elim (Option-cases (by_client_order_id t.client_order_id s)) [
    | inr (u, e) ↦ subst (λ r. Holds p k r.1) (sym (create-duplicate t u s e)) h
    | inl e ↦
        subst (λ r. Holds p k r.1) (sym (create-fresh t s e))
          λ tx f. ground (arith, lookup-insert k t.id t s, h tx)
  ]

  on-Holds :
      (id : String) (o : RowOp) (now : Time) (s : Store)
      → touches allowed k (on id o now) ≡ false
      → Holds p k s
      → Holds p k (step (on id o now) s)
  unfolding step
  on-Holds id o now s a h tx e = elim (Bool-cases (id == k)) [
    | inr ne ↦ h tx (rw ne at (rw (lookup-on_row (as_row o now) s k id) at e))
    | inl eq ↦ elim (Option-cases (lookup k s)) [
      | inl n ↦ ground (arith, lookup-on_row (as_row o now) s k id, eq_iff id k)
      | inr (u, f) ↦
          ground (arith, lookup-on_row (as_row o now) s k id, eq_iff id k, keeps o now u, h u)
    ]
  ]

  step-Holds :
      (o : Op) (s : Store) → touches allowed k o ≡ false → Holds p k s → Holds p k (step o s)
  step-Holds (create t) s ne h = create-Holds t s ne h
  step-Holds (delete id) s ne h = unfold step in λ tx e. h tx (ground (arith, lookup-erase k id s))
  step-Holds (on id o now) s a h = on-Holds id o now s a h

  pub run-Holds :
      (os : List Op) (s : Store)
      → All (λ o. touches allowed k o ≡ false) os
      → Holds p k s
      → Holds p k (run os s)
  unfolding run
  run-Holds [] s _ h = h
  run-Holds (o ∷ os) s (a, all) h = run-Holds os (step o s) all (step-Holds o s a h)
