-- ===== src/Tests/Collection.antt =====
-- A driver over a collection of at most one document, which does as the manual says.
use extend_regional_payment.Prelude.{
  some_inj, some_ne_none, and_true, ◌⊎◌, String, ◌==◌, ◌≡◌, Bool, true, false, ◌||◌, Option, none,
  some, [], ◌∷◌,
}
use extend_regional_payment.Prelude.{
  ◌&&◌, subst, inl, inr, refl, ap, ◌∙◌, sym, Bool-cases, Option-cases, arith, eq_iff, eq_refl,
  if◌then◌else◌,
}
use extend_regional_payment.Prelude.Found.{found}
use extend_regional_payment.Model.{Transaction}
use extend_regional_payment.DocDb.Query.{Driver, Change, Update, Filter, Answer, Inserted}
use extend_regional_payment.DocDb.Documented.{
  Inserts, Applied, Stored, meets, change, change_all, Documented, as_inserted, Updates, Finds,
}

-- Only an empty provider_tx_id is left out.
is_kept : Stored → Bool
is_kept s = s.has_provider_tx_id || s.tx.provider_tx_id == ""

pub Collection : Type 0
Collection = Option Stored

get_kept : Stored → String → Option Stored
get_kept s k = if is_kept s then (if s.tx.id == k then some s else none) else none

unfoldable pub get : Option Stored → String → Option Stored
unfolding get_kept is_kept
get none k = none
get (some s) k = get_kept s k

change-keeps :
    (c : Change) (s s' : Stored)
    → change c s ≡ some s'
    → is_kept s ≡ true
    → (s'.tx.id ≡ s.tx.id) × (is_kept s' ≡ true)
unfolding change is_kept
change-keeps c s s' e k = ground (arith, eq_iff s'.tx.provider_tx_id "")

change_all-keeps :
    (u : Update) (s s' : Stored)
    → change_all u s ≡ some s'
    → is_kept s ≡ true
    → (s'.tx.id ≡ s.tx.id) × (is_kept s' ≡ true)
unfolding change_all
change_all-keeps [] s s' e k = (cc, subst (λ x. is_kept x ≡ true) (some_inj e) k)
change_all-keeps (c ∷ u) s s' e k = elim (Option-cases (change c s)) [
  | inl n ↦ ground arith
  | inr (t, h) ↦
      let (id, kept) = change-keeps c s t h k in
      let (id', kept') = change_all-keeps u t s' (ground arith) kept in (id' ∙ id, kept')
]

-- The document after an update.
changed : Update → Stored → Stored
changed u s = elim (change_all u s) [ none ↦ s | some s' ↦ s' ]

find : Filter → Stored → Answer
find f s = if is_kept s && meets f s then Answer.document s.tx else Answer.no_document

-- An update in the form of the driver's two calls.
updated : {R : Type 0} → R → (Stored → R) → Filter → Update → Option Stored → R × Option Stored
unfolding changed
updated miss hit f u none = (miss, none)
updated miss hit f u (some s) =
    if is_kept s && meets f s then (hit (changed u s), some (changed u s)) else (miss, some s)

-- A second document has no place.
inserted_into : Transaction → Option Stored → Inserted × Option Stored
inserted_into tx none = (Inserted.inserted, some (as_inserted tx))
inserted_into tx (some s) =
    if is_kept s && (s.tx.id == tx.id || s.tx.client_order_id == tx.client_order_id)
    then (Inserted.duplicate_key, some s)
    else (Inserted.insert_failure "full", some s)

pub driver : Driver (Option Stored)
unfolding find updated inserted_into
driver = record {
  insert_one = inserted_into;
  find_one = λ f st. elim st [ none ↦ Answer.no_document | some s ↦ find f s ];
  find_one_and_update = updated Answer.no_document (λ s. Answer.document s.tx);
  update_one = updated (found 0) (λ _. found 1);
  delete_one = λ f st. (found 0, st);
  count_documents = λ f st. found 0;
  find = λ f st. elim st [
    | none ↦ found []
    | some s ↦ if is_kept s && meets f s then found (s.tx ∷ []) else found []
  ];
  find_newest_first = λ f n st. found [];
}

get-some :
    (s t : Stored) (k : String)
    → get (some s) k ≡ some t
    → (t ≡ s) × (is_kept s ≡ true) × (s.tx.id ≡ k)
unfolding get
get-some s t k e = ground (arith, eq_iff s.tx.id k)

get_self : (s : Stored) → is_kept s ≡ true → get (some s) s.tx.id ≡ some s
unfolding get
get_self s e = rw e (rw (eq_refl s.tx.id) refl)

changed-keeps :
    (u : Update) (s : Stored)
    → is_kept s ≡ true
    → ((changed u s).tx.id ≡ s.tx.id)
      × (is_kept (changed u s) ≡ true)
      × Applied (change_all u s) (changed u s)
unfolding changed
changed-keeps u s k = elim (Option-cases (change_all u s)) [
  | inl e ↦ rw (e, changed) (refl, k, tt)
  | inr (t, e) ↦ let (a, b) = change_all-keeps u s t e k in rw (e, changed) (a, b, refl)
]

and_false : (a b : Bool) → (a && b) ≡ false → a ≡ true → b ≡ false
and_false a b h e = ground arith

unmet :
    (f : Filter) (s : Stored)
    → (is_kept s && meets f s) ≡ false
    → (k : String) (t : Stored) → get (some s) k ≡ some t
    → meets f t ≡ false
unmet f s e k t h =
    let (same, kept, _) = get-some s t k h in
    ap (meets f) same ∙ and_false (is_kept s) (meets f s) e kept

get-other : (s : Stored) (j : String) → (s.tx.id == j) ≡ false → get (some s) j ≡ none
unfolding get
get-other s j e = elim (Bool-cases (is_kept s)) [
  | inl kept ↦ rw kept (rw e refl)
  | inr other ↦ rw other refl
]

updated_lem :
    {R : Type 0} (miss : R) (hit : Stored → R) (f : Filter) (u : Update) (st : Option Stored)
    → Updates get f st u miss hit (updated miss hit f u st)
unfolding get updated
updated_lem miss hit f u none = inl (λ k s e. absurd (some_ne_none (sym e)), refl, λ j. refl)
updated_lem miss hit f u (some s) = elim (Bool-cases (is_kept s && meets f s)) [
  | inr e ↦ inl (λ k t h. unmet f s e k t h, rw e refl, λ j. rw e refl)
  | inl e ↦
      let (kept, met) = and_true _ _ e in
      let (id, kept', applied) = changed-keeps u s kept in
      inr (
        s,
        changed u s,
        (get_self s kept, met),
        rw e refl,
        rw e (ap (get (some (changed u s))) (sym id) ∙ get_self (changed u s) kept'),
        applied,
        λ j other.
            rw e
              (get-other (changed u s) j (ap (λ i. i == j) id ∙ other) ∙ sym (get-other s j other)),
      )
]

find_lem : (f : Filter) (st : Option Stored) → Finds get f st (driver.find_one f st)
unfolding driver find get
find_lem f none = inl (λ k s e. absurd (some_ne_none (sym e)), refl)
find_lem f (some s) = elim (Bool-cases (is_kept s && meets f s)) [
  | inr e ↦ inl (λ k t h. unmet f s e k t h, rw e refl)
  | inl e ↦ let (kept, met) = and_true _ _ e in inr (s, (get_self s kept, met), rw e refl)
]

named :
    (st : Option Stored) (k : String) (t : Stored)
    → get st k ≡ some t
    → (t.tx.id ≡ k) × (is_kept t ≡ true)
unfolding get
named none k t e = absurd (some_ne_none (sym e))
named (some s) k t e =
    let (same, kept, id) = get-some s t k e in (ap (λ x. x.tx.id) same ∙ id, ap is_kept same ∙ kept)

kept_id : (t : Stored) → is_kept t ≡ true → t.has_provider_tx_id ≡ false → t.tx.provider_tx_id ≡ ""
unfolding is_kept
kept_id t k e = (eq_iff t.tx.provider_tx_id "").0 (ground arith)

same_key :
    (s : Stored) (tx : Transaction)
    → (s.tx.id == tx.id || s.tx.client_order_id == tx.client_order_id) ≡ true
    → (s.tx.id ≡ tx.id) ⊎ (s.tx.client_order_id ≡ tx.client_order_id)
same_key s tx e = elim (Bool-cases (s.tx.id == tx.id)) [
  | inl a ↦ inl ((eq_iff s.tx.id tx.id).0 a)
  | inr b ↦ inr ((eq_iff s.tx.client_order_id tx.client_order_id).0 (rw b at e))
]

get-as_inserted :
    (tx : Transaction) (j : String)
    → get (some (as_inserted tx)) j ≡ (if tx.id == j then some (as_inserted tx) else none)
unfolding get is_kept
get-as_inserted tx j = elim (Bool-cases (tx.provider_tx_id == "")) [
  | inl e ↦ rw e refl
  | inr e ↦ rw e refl
]

inserted_into_lem :
    (tx : Transaction) (st : Option Stored) → Inserts get st tx (inserted_into tx st)
unfolding inserted_into get
inserted_into_lem tx none =
    inr (inr (refl, λ k s e. absurd (some_ne_none (sym e)), refl, λ j. get-as_inserted tx j))
inserted_into_lem tx (some s) =
    elim (Bool-cases
      (is_kept s && (s.tx.id == tx.id || s.tx.client_order_id == tx.client_order_id))) [
        | inr e ↦ inr (inl ("full", rw e refl, λ j. rw e refl))
        | inl e ↦
            let (kept, same) = and_true _ _ e in
            inl (s, get_self s kept, same_key s tx same, rw e refl, λ j. rw e refl)
      ]

pub driver-Documented : Documented driver get
unfolding driver
driver-Documented = record {
  id_lem = λ st k s e. (named st k s e).0;
  omitted = λ st k s e h. kept_id s (named st k s e).1 h;
  insert_one_lem = λ tx st. inserted_into_lem tx st;
  find_one_lem = find_lem;
  find_one_and_update_lem = λ f u st. updated_lem _ _ f u st;
  update_one_lem = λ f u st. updated_lem _ _ f u st;
}
