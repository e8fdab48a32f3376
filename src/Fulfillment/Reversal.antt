-- ===== src/Fulfillment/Reversal.antt =====
-- The calls that a reversal makes: each due debit in order, and then the revocation.
use extend_regional_payment.Prelude.Text.{trim_space}
use extend_regional_payment.Prelude.{
  ◌<>◌, zero, suc, if◌then◌else◌, String, ◌==◌, ◌≡◌, ◌⊎◌, inl, inr, refl, none, some, List, [], ◌∷◌,
  ◌++◌, Option, Bool-cases, sym, ◌∙◌, ap, Option-cases, append_nil, subst, arith,
}
use extend_regional_payment.Prelude.Int.{pos, negsuc, ℤ}
use extend_regional_payment.Prelude.Found.{Found, found, failed}
use extend_regional_payment.Model.{Transaction}
use extend_regional_payment.Fulfillment.{
  debit_wallet, EntitlementSummary, AgsCall, currency_error, debit_error, revoke_error,
  revoke_entitlements, CreditSummary, FulfillmentHistoryInfo, Services, Log, debit_all,
  debit_request, debit_due, due, entitlement_ids, join, revoke_ids, reverse_history, then_revoke,
}
use mathlib.Core.List.{append_assoc}

-- A debit, where the code finds one due, before the calls of a plan.
abbrev with_due : Transaction → Option (ℤ × String) → Log → Log
with_due tx none plan = plan
with_due tx (some (amount, currency)) plan = debit_request tx amount currency ∷ plan

due_debits : Transaction → List (Option CreditSummary) → Log
due_debits tx [] = []
due_debits tx (c ∷ credits) = with_due tx (due c) (due_debits tx credits)

revocation : Transaction → List String → Log
revocation tx [] = []
revocation tx (id ∷ ids) = revoke_entitlements tx.user_id (join (id ∷ ids)) ∷ []

-- The plan of a reversal, apart from the code: an amount that is not zero is debited from the wallet
-- of its currency, and each entitlement with an id that is not blank is revoked.
debit_of : Transaction → String → ℤ → Log
debit_of tx currency (pos zero) = []
debit_of tx currency (pos (suc n)) =
    debit_wallet tx.user_id currency (pos (suc n)) ("payment refund " <> tx.id) tx.item_id ∷ []
debit_of tx currency (negsuc n) =
    debit_wallet tx.user_id currency (negsuc n) ("payment refund " <> tx.id) tx.item_id ∷ []

debit_of_amount : Transaction → String → Option ℤ → Log
debit_of_amount tx currency none = []
debit_of_amount tx currency (some a) = debit_of tx currency a

debit_of_credit : Transaction → Option CreditSummary → Log
debit_of_credit tx none = []
debit_of_credit tx (some c) = debit_of_amount tx (trim_space c.currency_code) c.amount

debits : Transaction → List (Option CreditSummary) → Log
debits tx [] = []
debits tx (c ∷ credits) = debit_of_credit tx c ++ debits tx credits

named : Option String → List String
named none = []
named (some id) = if trim_space id == "" then [] else trim_space id ∷ []

named_entitlement : Option EntitlementSummary → List String
named_entitlement none = []
named_entitlement (some e) = named e.id

revocable : List (Option EntitlementSummary) → List String
revocable [] = []
revocable (e ∷ es) = named_entitlement e ++ revocable es

-- All calls that a history calls for.
pub reversal_calls : Transaction → FulfillmentHistoryInfo → Log
reversal_calls tx h =
    debits tx h.credit_summaries ++ revocation tx (revocable h.entitlement_summaries)

due-debit_of_credit :
    (tx : Transaction) (c : Option CreditSummary) (plan : Log)
    → with_due tx (due c) plan ≡ debit_of_credit tx c ++ plan
unfolding debit_of_credit debit_of_amount debit_of
due-debit_of_credit tx none plan = refl
due-debit_of_credit tx (some c) plan = elim (Option-cases c.amount) [
  | inl missing ↦ rw missing refl
  | inr (pos zero, given) ↦ rw given refl
  | inr (pos (suc n), given) ↦ rw given refl
  | inr (negsuc n, given) ↦ rw given refl
]

due_debits-debits :
    (tx : Transaction) (credits : List (Option CreditSummary))
    → due_debits tx credits ≡ debits tx credits
unfolding due_debits debits
due_debits-debits tx [] = refl
due_debits-debits tx (c ∷ credits) =
    due-debit_of_credit tx c (due_debits tx credits)
    ∙ ap (λ l. debit_of_credit tx c ++ l) (due_debits-debits tx credits)

entitlement_ids-revocable :
    (es : List (Option EntitlementSummary)) → entitlement_ids es ≡ revocable es
unfolding entitlement_ids revocable named_entitlement named
entitlement_ids-revocable [] = refl
entitlement_ids-revocable (none ∷ es) = entitlement_ids-revocable es
entitlement_ids-revocable (some e ∷ es) = elim (Option-cases e.id) [
  | inl missing ↦ rw missing (entitlement_ids-revocable es)
  | inr (id, given) ↦ rw given (ground (arith, entitlement_ids-revocable es))
]

-- All of the planned calls were made and the result is success, or the first of them were made and it
-- is an error.
abbrev pub Progress : (plan log : Log) → Found (Unit {0}) × Log → Type 0
Progress plan log out =
    (out ≡ (found tt, log ++ plan))
    ⊎ ((e : String) × (made : Log) × (rest : Log) × (out ≡ (failed e, log ++ made))
        × (made ++ rest ≡ plan))

module _ (s : Services) (tx : Transaction) where
  after_plan :
      (first plan log : Log) (out : Found (Unit {0}) × Log)
      → Progress plan (log ++ first) out
      → Progress (first ++ plan) log out
  after_plan first plan log out (inl e) = inl (rw (← append_assoc log first plan) e)
  after_plan first plan log out (inr (e, made, rest, h, split)) = inr (
    e,
    first ++ made,
    rest,
    rw (← append_assoc log first made) h,
    append_assoc first made rest ∙ ap (λ l. first ++ l) split,
  )

  after_call :
      (call : AgsCall) (plan log : Log) (out : Found (Unit {0}) × Log)
      → Progress plan (log ++ (call ∷ [])) out
      → Progress (call ∷ plan) log out
  after_call call plan log out h = after_plan (call ∷ []) plan log out h

  debit_due-Progress :
      (d : Option (ℤ × String)) (plan log : Log) (next : Log → Found (Unit {0}) × Log)
      → ((l : Log) → Progress plan l (next l))
      → Progress (with_due tx d plan) log (debit_due s tx d log next)
  unfolding debit_due
  debit_due-Progress none plan log next h = h log
  debit_due-Progress (some (amount, currency)) plan log next h =
      let call = debit_request tx amount currency in
      elim (Bool-cases (currency == "")) [
        | inl bad ↦
            inr (currency_error tx, [], call ∷ plan, rw bad (rw (append_nil log) refl), refl)
        | inr good ↦ elim (Option-cases (s.debit log call)) [
          | inl paid ↦ rw good (
              rw paid
                (after_call call plan log (next (log ++ (call ∷ []))) (h (log ++ (call ∷ [])))))
          | inr (e, unpaid) ↦
              inr (debit_error s amount currency e, call ∷ [], plan, rw good (rw unpaid refl), refl)
        ]
      ]

  debit_all-Progress :
      (credits : List (Option CreditSummary)) (log : Log)
      → Progress (due_debits tx credits) log (debit_all s tx credits log)
  unfolding debit_all due_debits
  debit_all-Progress [] log = inl (rw (append_nil log) refl)
  debit_all-Progress (c ∷ credits) log =
      debit_due-Progress (due c) (due_debits tx credits) log (debit_all s tx credits)
        (debit_all-Progress credits)

  revoke_ids-Progress :
      (ids : List String) (log : Log) → Progress (revocation tx ids) log (revoke_ids s tx ids log)
  unfolding revocation revoke_ids
  revoke_ids-Progress [] log = inl (rw (append_nil log) refl)
  revoke_ids-Progress (id ∷ ids) log =
      let call = revoke_entitlements tx.user_id (join (id ∷ ids)) in
      elim (Option-cases (s.revoke log call)) [
        | inl done ↦ inl (rw done refl)
        | inr (e, bad) ↦ inr (revoke_error (join (id ∷ ids)) e, call ∷ [], [], rw bad refl, refl)
      ]

  then_revoke-Progress :
      (plan : Log) (ids : List String) (log : Log) (out : Found (Unit {0}) × Log)
      → Progress plan log out
      → Progress (plan ++ revocation tx ids) log (then_revoke s tx ids out)
  then_revoke-Progress plan ids log out (inl e) =
      subst (λ o. Progress (plan ++ revocation tx ids) log (then_revoke s tx ids o)) (sym e)
        (after_plan plan (revocation tx ids) log _ (revoke_ids-Progress ids (log ++ plan)))
  then_revoke-Progress plan ids log out (inr (e, made, rest, h, split)) = inr (
    e,
    made,
    rest ++ revocation tx ids,
    rw h refl,
    sym (append_assoc made rest (revocation tx ids)) ∙ ap (λ l. l ++ revocation tx ids) split,
  )

-- A reversal makes the debits of the credits that are not zero, in the order of the history, and then
-- the one revocation of the entitlements that have an id that is not blank. Where it succeeds it made all these calls;
-- where it fails it made the first of them and none other, so that nothing is revoked before every
-- debit was made.
pub reverse_history-calls :
    (s : Services) (tx : Transaction) (h : FulfillmentHistoryInfo) (log : Log)
    → Progress (reversal_calls tx h) log (reverse_history s tx h log)
unfolding reversal_calls reverse_history
reverse_history-calls s tx h log =
    let ids = entitlement_ids h.entitlement_summaries in
    subst (λ plan. Progress plan log (reverse_history s tx h log))
      (ap (λ l. l ++ revocation tx ids) (due_debits-debits tx h.credit_summaries)
        ∙ ap (λ l. debits tx h.credit_summaries ++ revocation tx l)
            (entitlement_ids-revocable h.entitlement_summaries))
      (then_revoke-Progress s tx (due_debits tx h.credit_summaries) ids log
        (debit_all s tx h.credit_summaries log) (debit_all-Progress s tx h.credit_summaries log))
