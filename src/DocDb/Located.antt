-- ===== src/DocDb/Located.antt =====
-- Calls of the driver with a filter that names the document.
use extend_regional_payment.Prelude.{
  some_inj, some_ne_none, true_ne_false, and_true, String, ◌==◌, ◌≡◌, true, false, Option, none,
  some,
}
use extend_regional_payment.Prelude.{
  sym, ap, ◌∙◌, ◌&&◌, inl, inr, if◌then◌else◌, eq_iff, Bool-cases,
}
use extend_regional_payment.DocDb.Query.{Filter, Driver, Update, Answer}
use extend_regional_payment.DocDb.Documented.{
  Applied, Stored, meets, change_all, Updates, Finds, Documented,
}
use extend_regional_payment.DocDb.{with_id}

same_result : (o : Option Stored) (t s : Stored) → Applied o t → o ≡ some s → t ≡ s
same_result none t s a e = absurd (some_ne_none (sym e))
same_result (some u) t s a e = a ∙ some_inj e

module _ {S : Type 0} {d : Driver S} {get : S → String → Option Stored} (laws : Documented d get)
    (st : S) (k : String) where
  -- There is one document with an id.
  same_document :
      (s s' : Stored) → get st k ≡ some s → get st s'.tx.id ≡ some s' → s'.tx.id ≡ k → s' ≡ s
  same_document s s' h there e = some_inj (sym there ∙ ap (get st) e ∙ h)

  module _ (f : Filter) where
    -- A document that meets a filter that names one has this id, and meets the rest.
    named : (s : Stored) → meets (with_id k f) s ≡ true → (s.tx.id ≡ k) × (meets f s ≡ true)
    unfolding meets
    named s h = let (a, b) = and_true _ _ h in ((eq_iff s.tx.id k).0 a, b)

    -- And the other way round.
    meets-named : (s : Stored) → get st k ≡ some s → meets f s ≡ true → meets (with_id k f) s ≡ true
    unfolding meets
    meets-named s h e = ap (λ b. b && meets f s) ((eq_iff s.tx.id k).1 (laws.id_lem st k s h)) ∙ e

    module _ {R : Type 0} (u : Update) (miss : R) (hit : Stored → R) (out : R × S)
        (updates : Updates get (with_id k f) st u miss hit out) where
      -- There is no document with the id, or it does not meet the rest of the filter.
      pub updates-absent :
          get st k ≡ none → (out.0 ≡ miss) × ((j : String) → get out.1 j ≡ get st j)
      updates-absent h = elim updates [
        | inl (_, e, same) ↦ (e, same)
        | inr (s, s', there, _, _, _, _) ↦
            absurd (some_ne_none (sym there.0 ∙ ap (get st) (named s there.1).0 ∙ h))
      ]

      pub updates-unmet :
          (s : Stored)
          → get st k ≡ some s
          → meets f s ≡ false
          → (out.0 ≡ miss) × ((j : String) → get out.1 j ≡ get st j)
      updates-unmet s h e = elim updates [
        | inl (_, e, same) ↦ (e, same)
        | inr (t, s', there, _, _, _, _) ↦
            let (id, met) = named t there.1 in
            let same : t ≡ s = same_document s t h there.0 id in
            absurd (true_ne_false (sym met ∙ ap (meets f) same ∙ e))
      ]

      pub updates-met :
          (s s' : Stored)
          → get st k ≡ some s
          → meets f s ≡ true
          → change_all u s ≡ some s'
          → (out.0 ≡ hit s') × ((j : String) → get out.1 j ≡ (if k == j then some s' else get st j))
      updates-met s s' h e c = elim updates [
        | inl (unmet, _, _) ↦ absurd (true_ne_false (sym (meets-named s h e) ∙ unmet k s h))
        | inr (t, t', there, answered, now, applied, elsewhere) ↦
            let (id, _) = named t there.1 in
            let same : t ≡ s = same_document s t h there.0 id in
            let result : t' ≡ s' =
              same_result (change_all u t) t' s' applied (ap (change_all u) same ∙ c) in
            (
              answered ∙ ap hit result,
              λ j. elim (Bool-cases (k == j)) [
                | inl here ↦
                    rw here
                      (ap (get out.1) (sym ((eq_iff k j).0 here) ∙ sym id) ∙ now ∙ ap some result)
                | inr other ↦ rw other (elsewhere j (ap (λ i. i == j) id ∙ other))
              ],
            )
      ]

    pub find_one-absent :
        get st k ≡ none
        → (answer : Answer) → Finds get (with_id k f) st answer
        → answer ≡ Answer.no_document
    find_one-absent h answer finds = elim finds [
      | inl (_, e) ↦ e
      | inr (s, there, _) ↦
          absurd (some_ne_none (sym there.0 ∙ ap (get st) (named s there.1).0 ∙ h))
    ]

    pub find_one-met :
        (s : Stored)
        → get st k ≡ some s
        → meets f s ≡ true
        → (answer : Answer) → Finds get (with_id k f) st answer
        → answer ≡ Answer.document s.tx
    find_one-met s h e answer finds = elim finds [
      | inl (unmet, _) ↦ absurd (true_ne_false (sym (meets-named s h e) ∙ unmet k s h))
      | inr (t, there, answered) ↦
          answered
          ∙ ap (λ x. Answer.document x.tx) (same_document s t h there.0 (named t there.1).0)
    ]

    pub find_one-unmet :
        (s : Stored)
        → get st k ≡ some s
        → meets f s ≡ false
        → (answer : Answer) → Finds get (with_id k f) st answer
        → answer ≡ Answer.no_document
    find_one-unmet s h e answer finds = elim finds [
      | inl (_, r) ↦ r
      | inr (t, there, _) ↦
          let (id, met) = named t there.1 in
          absurd (true_ne_false (sym met ∙ ap (meets f) (same_document s t h there.0 id) ∙ e))
    ]
