-- ===== src/Store/Listing/Pages.antt =====
-- ListTransactions page by page: the pages that a client gets by following the cursors.
use extend_regional_payment.Prelude.{
  ℕ, zero, suc, ◌-◌, ◌≤◌, ◌<◌, String, ◌==◌, ◌≡◌, true, false, List, [], ◌++◌, length, take, drop,
  append_nil, take-drop, length-take, length-drop, arith, refl, if◌then◌else◌, ltb, Bool-cases, inl,
  inr, eq_iff, sym, subst, ◌∙◌,
}
use extend_regional_payment.Model.{Transaction}
use extend_regional_payment.Store.Types.{ListQuery}
use extend_regional_payment.Store.Memory.{Store}
use extend_regional_payment.Store.Invariant.{IsWellFormed}
use extend_regional_payment.Store.Listing.{
  values, select, sort_stable, matches, scan, page_size_of, last_id, cut_page, list_transactions,
}
use extend_regional_payment.Store.Listing.Order.{sort_stable-All, Without, stored-DistinctIds}
use extend_regional_payment.Store.Listing.Resume.{
  at_cursor, scan-select, Without-last_id, scan-All, scan-Resumes,
}

pub page_size_of-bounds : (n : _) → (1 ≤ page_size_of n) × (page_size_of n ≤ 100)
unfolding page_size_of
page_size_of-bounds n = ground arith

-- No page has more than a hundred transactions, whatever size is asked for.
pub list_transactions-length :
    (q : ListQuery) (s : Store)
    → (length (list_transactions q s).0 ≤ page_size_of q.page_size)
      × (page_size_of q.page_size ≤ 100)
unfolding list_transactions cut_page
list_transactions-length q s = (
  elim (Bool-cases (ltb size (length found))) [
    | inl e ↦ rw e (omega (arith, length-take size found))
    | inr e ↦ rw e (ground arith)
  ],
  (page_size_of-bounds q.page_size).1,
)
  where
    size : ℕ
    size = page_size_of q.page_size

    found : List Transaction
    found = scan q (q.cursor == "") (sort_stable (values s))

-- The transactions of all pages from a query on: each page is asked for with the cursor that came
-- with the one before it, until there is none.
unfoldable pub all_pages : ℕ → ListQuery → Store → List Transaction
all_pages zero q s = []
all_pages (suc fuel) q s =
    let (page, next) = list_transactions q s in
    let rest = all_pages fuel (at_cursor q next) s in page ++ (if next == "" then [] else rest)

module _ (s : Store) (v : IsWellFormed s) (named : Without "" (values s)) where
  -- What a query lists from its cursor on.
  abbrev listed : ListQuery → List Transaction
  listed q = scan q (q.cursor == "") (sort_stable (values s))

  page-last :
      (q : ListQuery)
      → ltb (page_size_of q.page_size) (length (listed q)) ≡ false
      → list_transactions q s ≡ (listed q, "")
  unfolding list_transactions cut_page
  page-last q e = rw e refl

  page-more :
      (q : ListQuery) (n : ℕ)
      → page_size_of q.page_size ≡ suc n
      → ltb (page_size_of q.page_size) (length (listed q)) ≡ true
      → list_transactions q s ≡ (take (suc n) (listed q), last_id (take (suc n) (listed q)))
  unfolding list_transactions cut_page
  page-more q n size e = rw (e, size) refl

  all_pages-step :
      (fuel : ℕ) (q : ListQuery) (page : List Transaction) (next : String)
      → list_transactions q s ≡ (page, next)
      → all_pages (suc fuel) q s
        ≡ page ++ (if next == "" then [] else all_pages fuel (at_cursor q next) s)
  unfolding all_pages
  all_pages-step fuel q page next e = rw e refl

  listed-next :
      (q : ListQuery) (n : ℕ)
      → n < length (listed q)
      → ((last_id (take (suc n) (listed q)) == "") ≡ false)
        × (listed (at_cursor q (last_id (take (suc n) (listed q)))) ≡ drop (suc n) (listed q))
  listed-next q n h =
      let ne =
        Without-last_id n "" (listed q)
          (scan-All q _ (q.cursor == "") (sort_stable (values s))
            (sort_stable-All _ (values s) named))
          h in
      (
        ne,
        rw ne
            (scan-Resumes q (q.cursor == "") n (sort_stable (values s)) (stored-DistinctIds s v) h),
      )

  all_pages-listed :
      (fuel : ℕ) (q : ListQuery) → length (listed q) < fuel → all_pages fuel q s ≡ listed q
  all_pages-listed zero q h = ground arith
  all_pages-listed (suc fuel) q h =
      elim (Bool-cases (ltb (page_size_of q.page_size) (length (listed q)))) [
        | inr e ↦ all_pages-step fuel q (listed q) "" (page-last q e) ∙ append_nil (listed q)
        | inl e ↦
            let n = page_size_of q.page_size - 1 in
            let size : page_size_of q.page_size ≡ suc n =
              omega (arith, (page_size_of-bounds q.page_size).0) in
            let more : suc n < length (listed q) = ground arith in
            let next = last_id (take (suc n) (listed q)) in
            let (ne, on) = listed-next q n (omega (arith, more)) in
            let rest : all_pages fuel (at_cursor q next) s ≡ drop (suc n) (listed q) =
              all_pages-listed fuel (at_cursor q next) (
                subst (λ rs. length rs < fuel) (sym on)
                  (omega (arith, length-drop (suc n) (listed q), more)))
              ∙ on in
            all_pages-step fuel q (take (suc n) (listed q)) next (page-more q n size e)
            ∙ rw ne (rw rest (take-drop (suc n) (listed q)))
      ]

  -- Following the cursors from the first page gives every stored transaction that matches the query,
  -- each once and in the order of the listing, and no other: the pages lose and repeat nothing. Needed
  -- is a well-formed store, with no empty id, that does not change meanwhile; as many requests as there
  -- are matching transactions, and one, are enough.
  pub all_pages-matching :
      (fuel : ℕ) (q : ListQuery)
      → q.cursor ≡ ""
      → length (select (matches q) (sort_stable (values s))) < fuel
      → all_pages fuel q s ≡ select (matches q) (sort_stable (values s))
  all_pages-matching fuel q e h =
      let first : (q.cursor == "") ≡ true = (eq_iff q.cursor "").1 e in
      let same : listed q ≡ select (matches q) (sort_stable (values s)) =
        rw first (scan-select q q.cursor (sort_stable (values s))) in
      all_pages-listed fuel q (subst (λ rs. length rs < fuel) (sym same) h) ∙ same
