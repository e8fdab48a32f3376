-- ===== src/Store/Listing/Order.antt =====
-- The sorted list of transactions: what holds of all entries, and the ids, before and after.
use extend_regional_payment.Prelude.{
  String, ◌==◌, ◌≡◌, false, List, [], ◌∷◌, arith, All, Bool-cases, inl, inr, eq_iff, none, some,
  eq_refl,
}
use extend_regional_payment.Prelude.Table.{lookup}
use extend_regional_payment.Model.{Transaction}
use extend_regional_payment.Store.Memory.{Store}
use extend_regional_payment.Store.Invariant.{IsWellFormed, NodupKeys}
use extend_regional_payment.Store.Listing.{values, sort_stable, insert_sorted, comes_before}

-- None of the transactions has this id.
abbrev pub Without : String → List Transaction → Type 0
Without id = All (λ tx. (tx.id == id) ≡ false)

-- No two of the transactions have the same id.
abbrev pub DistinctIds : List Transaction → Type 0
DistinctIds [] = Unit
DistinctIds (tx ∷ txs) = Without tx.id txs × DistinctIds txs

module _ (P : Transaction → Type 0) where
  insert_sorted-All :
      (x : Transaction) (ys : List Transaction) → P x → All P ys → All P (insert_sorted x ys)
  unfolding insert_sorted
  insert_sorted-All x [] p q = (p, tt)
  insert_sorted-All x (y ∷ ys) p (h, q) = elim (Bool-cases (comes_before y x)) [
    | inl e ↦ rw e (h, insert_sorted-All x ys p q)
    | inr e ↦ rw e (p, (h, q))
  ]

  pub sort_stable-All : (xs : List Transaction) → All P xs → All P (sort_stable xs)
  unfolding sort_stable
  sort_stable-All [] q = tt
  sort_stable-All (x ∷ xs) (p, q) = insert_sorted-All x (sort_stable xs) p (sort_stable-All xs q)

sym_ids : (x y : Transaction) → (y.id == x.id) ≡ false → (x.id == y.id) ≡ false
sym_ids x y h = ground (arith, eq_iff x.id y.id, eq_iff y.id x.id)

insert_sorted-DistinctIds :
    (x : Transaction) (ys : List Transaction)
    → Without x.id ys
    → DistinctIds ys
    → DistinctIds (insert_sorted x ys)
unfolding insert_sorted
insert_sorted-DistinctIds x [] w d = (tt, tt)
insert_sorted-DistinctIds x (y ∷ ys) (n, w) (v, d) = elim (Bool-cases (comes_before y x)) [
  | inl e ↦ rw e (
    insert_sorted-All (λ tx. (tx.id == y.id) ≡ false) x ys (sym_ids x y n) v,
    insert_sorted-DistinctIds x ys w d,
  )
  | inr e ↦ rw e ((n, w), (v, d))
]

pub sort_stable-DistinctIds :
    (xs : List Transaction) → DistinctIds xs → DistinctIds (sort_stable xs)
unfolding sort_stable
sort_stable-DistinctIds [] d = tt
sort_stable-DistinctIds (x ∷ xs) (w, d) =
    insert_sorted-DistinctIds x (sort_stable xs)
      (sort_stable-All (λ tx. (tx.id == x.id) ≡ false) xs w) (sort_stable-DistinctIds xs d)

-- Each entry of the store stands under its transaction's id.
abbrev Keyed : Store → Type 0
Keyed [] = Unit
Keyed ((k, tx) ∷ s) = (tx.id ≡ k) × Keyed s

values-Without : (k : String) (s : Store) → Keyed s → lookup k s ≡ none → Without k (values s)
unfolding lookup
values-Without k [] h n = tt
values-Without k ((j, tx) ∷ s) (e, h) n = elim (Bool-cases (j == k)) [
  | inl same ↦ ground arith
  | inr other ↦ (rw e other, values-Without k s h (ground arith))
]

values-DistinctIds : (s : Store) → Keyed s → NodupKeys s → DistinctIds (values s)
values-DistinctIds [] h n = tt
values-DistinctIds ((k, tx) ∷ s) (e, h) (f, n) =
    (values-Without tx.id s h (rw e f), values-DistinctIds s h n)

entries-Keyed :
    (s : Store)
    → NodupKeys s
    → ((k : String) (tx : Transaction) → lookup k s ≡ some tx → tx.id ≡ k)
    → Keyed s
unfolding lookup
entries-Keyed [] n h = tt
entries-Keyed ((k, tx) ∷ s) (f, n) h = (
  h k tx (ground (arith, eq_refl k)),
  entries-Keyed s n (λ j u e. h j u (ground (arith, eq_iff k j))),
)

pub stored-DistinctIds : (s : Store) → IsWellFormed s → DistinctIds (sort_stable (values s))
stored-DistinctIds s v =
    sort_stable-DistinctIds (values s)
      (values-DistinctIds s (entries-Keyed s v.nodup v.keyed) v.nodup)
