-- ===== src/DocDb/Filters.antt =====
-- The filter of ListTransactions against the tests of the in-memory store.
use extend_regional_payment.Prelude.{
  String, ◌==◌, ◌≡◌, Bool, true, false, ◌&&◌, ◌||◌, Option, none, some, List, [], ◌∷◌, ◌++◌,
}
use extend_regional_payment.Prelude.{◌⊎◌, inl, inr, refl, ◌∙◌, Bool-cases, arith, eq_iff}
use extend_regional_payment.Prelude.Text.{trim_space}
use extend_regional_payment.Model.{Status}
use extend_regional_payment.Store.Types.{ListQuery}
use extend_regional_payment.Store.Listing.{matches, is_status, in_statuses}
use extend_regional_payment.DocDb.Query.{Test, Filter, test, any_of}
use extend_regional_payment.DocDb.Documented.{Stored, meets, holds}
use extend_regional_payment.DocDb.Listing.{for_text, for_status, for_statuses, list_filter}

and_of : {a b c x y : Bool} → c ≡ (a && b) → a ≡ x → b ≡ y → c ≡ (x && y)
and_of e p q = cc

module _ (s : Stored) where
  meets-append : (f g : Filter) → meets (f ++ g) s ≡ (meets f s && meets g s)
  unfolding meets
  meets-append [] g = refl
  meets-append (test t ∷ f) g = rw (meets-append f g) (ground arith)
  meets-append (any_of ts ∷ f) g = rw (meets-append f g) (ground arith)

  meets-both :
      (f g : Filter) {x y : Bool} → meets f s ≡ x → meets g s ≡ y → meets (f ++ g) s ≡ (x && y)
  meets-both f g a b = and_of (meets-append f g) a b

  -- An entry that is left out for an empty text, before the others.
  meets-for_text :
      (t : String) (x : Test) → meets (for_text t (test x)) s ≡ ((t == "" || holds x s))
  unfolding meets
  meets-for_text t x = elim (Bool-cases (t == "")) [
    | inl e ↦ rw e refl
    | inr e ↦ rw e (ground arith)
  ]

  meets-for_status : (o : Option Status) → meets (for_status o) s ≡ (is_status o s.tx.status)
  unfolding meets
  meets-for_status none = refl
  meets-for_status (some v) = ground arith

  meets-for_statuses : (vs : List Status) → meets (for_statuses vs) s ≡ (in_statuses s.tx.status vs)
  unfolding meets
  meets-for_statuses [] = refl
  meets-for_statuses (v ∷ vs) = ground arith

  meets-search :
      (t : String)
      → ((s.has_provider_tx_id ≡ true) ⊎ (s.tx.provider_tx_id ≡ ""))
      → meets
          (for_text t (any_of (Test.id_is t ∷ Test.provider_tx_id_is t ∷ Test.item_id_is t ∷ [])))
          s
        ≡ ((t == "" || s.tx.id == t || s.tx.provider_tx_id == t || s.tx.item_id == t))
  unfolding meets
  meets-search t h = elim (Bool-cases (t == "")) [
    | inl e ↦ rw e refl
    | inr e ↦ elim h [
      | inl there ↦ rw e (rw there (ground arith))
      | inr gone ↦
          let other : (s.tx.provider_tx_id == t) ≡ false =
            rw gone (ground (arith, eq_iff t "", eq_iff "" t)) in
          rw e (rw other (ground arith))
    ]
  ]

  no_cursor :
      (q : ListQuery)
      → q.cursor ≡ ""
      → meets (for_text q.cursor (test (Test.id_before q.cursor))) s ≡ true
  unfolding meets
  no_cursor q e = rw e refl

and_itself : (b : Bool) → (b && true) ≡ b
and_itself b = ground arith

-- A document meets the filter that the document store makes of a query without a cursor exactly if
-- its transaction passes the tests of the in-memory store. A document without the key provider_tx_id
-- is a transaction with an empty one.
pub list_filter-matches :
    (q : ListQuery) (s : Stored)
    → q.cursor ≡ ""
    → ((s.has_provider_tx_id ≡ true) ⊎ (s.tx.provider_tx_id ≡ ""))
    → meets (list_filter q) s ≡ matches q s.tx
unfolding list_filter matches holds
list_filter-matches q s first h =
    meets-both s _ (for_text q.cursor (test (Test.id_before q.cursor)))
      (meets-both s _ _
        (meets-both s _ _
          (meets-both s _ _
            (meets-both s _ _
              (meets-both s _ _ (meets-for_text s q.namespace (Test.namespace_is q.namespace))
                (meets-for_text s q.user_id (Test.user_id_is q.user_id)))
              (meets-for_status s q.status_filter))
            (meets-for_statuses s q.status_filters))
          (meets-for_text s q.provider_id (Test.provider_id_is q.provider_id)))
        (meets-search s (trim_space q.search) h))
      (no_cursor s q first)
    ∙ and_itself _
