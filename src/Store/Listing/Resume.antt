-- ===== src/Store/Listing/Resume.antt =====
-- The loop of ListTransactions goes on from a page's cursor where that page ended.
use extend_regional_payment.Prelude.{
  ℕ, zero, suc, ◌<◌, String, ◌==◌, ◌≡◌, Bool, ◌&&◌, true, false, ◌||◌, List, [], ◌∷◌, All, length,
  take, drop, arith, refl, Bool-cases, inl, inr, ◌⊎◌, eq_refl, eq_iff, sym, subst,
}
use extend_regional_payment.Model.{Transaction}
use extend_regional_payment.Store.Types.{ListQuery}
use extend_regional_payment.Store.Listing.{select, matches, scan, last_id}
use extend_regional_payment.Store.Listing.Order.{Without, DistinctIds}

abbrev pub at_cursor : ListQuery → String → ListQuery
at_cursor q c = record q { cursor = c }

matches-at_cursor :
    (q : ListQuery) (c : String) (tx : Transaction) → matches (at_cursor q c) tx ≡ matches q tx
unfolding matches
matches-at_cursor q c tx = refl

-- Past the cursor the loop keeps what matches.
pub scan-select :
    (q : ListQuery) (c : String) (xs : List Transaction)
    → scan (at_cursor q c) true xs ≡ select (matches q) xs
unfolding scan
scan-select q c [] = refl
scan-select q c (x ∷ xs) = ground (arith, scan-select q c xs, matches-at_cursor q c x)

pub select-All :
    (P : Transaction → Type 0) (p : Transaction → Bool) (xs : List Transaction)
    → All P xs
    → All P (select p xs)
select-All P p [] h = tt
select-All P p (x ∷ xs) (h, hs) = elim (Bool-cases (p x)) [
  | inl e ↦ rw e (h, select-All P p xs hs)
  | inr e ↦ rw e (select-All P p xs hs)
]

-- The cursor is the id of one of the transactions.
pub Without-last_id :
    (n : ℕ) (k : String) (xs : List Transaction)
    → Without k xs
    → n < length xs
    → (last_id (take (suc n) xs) == k) ≡ false
Without-last_id n k [] w h = ground arith
Without-last_id zero k (x ∷ xs) (d, w) h = d
Without-last_id (suc n) k (x ∷ []) (d, w) h = ground arith
Without-last_id (suc n) k (x ∷ y ∷ xs) (d, w) h = Without-last_id n k (y ∷ xs) w (ground arith)

pub last_id-take :
    (n : ℕ) (x : Transaction) (xs : List Transaction)
    → n < length xs
    → last_id (take (suc (suc n)) (x ∷ xs)) ≡ last_id (take (suc n) xs)
last_id-take n x [] h = ground arith
last_id-take n x (y ∷ xs) h = refl

module _ (q : ListQuery) where
  select-cases :
      (x : Transaction) (xs : List Transaction)
      → (select (matches q) (x ∷ xs) ≡ x ∷ select (matches q) xs)
        ⊎ (select (matches q) (x ∷ xs) ≡ select (matches q) xs)
  select-cases x xs = elim (Bool-cases (matches q x)) [
    | inl e ↦ inl (rw e refl)
    | inr e ↦ inr (rw e refl)
  ]

  -- The loop goes on after the last of the first n + 1 of these transactions.
  abbrev pub Resumes : ℕ → List Transaction → List Transaction → Type 0
  Resumes n rs xs = scan (at_cursor q (last_id (take (suc n) rs))) false xs ≡ drop (suc n) rs

  -- A transaction before the cursor is skipped.
  later-Resumes :
      (n : ℕ) (x : Transaction) (xs rs : List Transaction)
      → Without x.id rs
      → n < length rs
      → Resumes n rs xs
      → Resumes n rs (x ∷ xs)
  unfolding scan
  later-Resumes n x xs rs w h e =
      let c = last_id (take (suc n) rs) in
      let ne : (c == x.id) ≡ false = Without-last_id n x.id rs w h in
      ground (arith, eq_iff c x.id, eq_iff x.id c)

  -- So it is if it is itself on the page.
  hit-Resumes :
      (n : ℕ) (x : Transaction) (xs : List Transaction)
      → Without x.id xs
      → n < length (x ∷ select (matches q) xs)
      → ((m : ℕ) → suc m ≡ n → Resumes m (select (matches q) xs) xs)
      → Resumes n (x ∷ select (matches q) xs) (x ∷ xs)
  unfolding scan
  hit-Resumes zero x xs w h e = rw (eq_refl x.id) (scan-select q x.id xs)
  hit-Resumes (suc n) x xs w h e =
      let rs = select (matches q) xs in
      let h' : n < length rs = omega arith in
      subst (λ c. scan (at_cursor q c) false (x ∷ xs) ≡ drop (suc n) rs)
        (sym (last_id-take n x rs h'))
        (later-Resumes n x xs rs (select-All _ (matches q) xs w) h' (e n refl))

  select-Resumes :
      (n : ℕ) (xs : List Transaction)
      → DistinctIds xs
      → n < length (select (matches q) xs)
      → Resumes n (select (matches q) xs) xs
  select-Resumes n [] d h = ground arith
  select-Resumes n (x ∷ xs) (w, d) h = elim (select-cases x xs) [
    | inr e ↦
        let h' = subst (λ rs. n < length rs) e h in
        subst (λ rs. Resumes n rs (x ∷ xs)) (sym e)
          (later-Resumes n x xs _ (select-All _ (matches q) xs w) h' (select-Resumes n xs d h'))
    | inl e ↦
        let h' = subst (λ rs. n < length rs) e h in
        subst (λ rs. Resumes n rs (x ∷ xs)) (sym e)
          (hit-Resumes n x xs w h' (λ m eq. select-Resumes m xs d (ground arith)))
  ]

  pub scan-All :
      (P : Transaction → Type 0) (past : Bool) (xs : List Transaction)
      → All P xs
      → All P (scan q past xs)
  unfolding scan
  scan-All P past [] h = tt
  scan-All P past (x ∷ xs) (h, hs) = elim (Bool-cases (past && matches q x)) [
    | inl e ↦ rw e (h, scan-All P (past || x.id == q.cursor) xs hs)
    | inr e ↦ rw e (scan-All P (past || x.id == q.cursor) xs hs)
  ]

  -- The loop from the cursor of a page goes on where the page ended, wherever the page began.
  pub scan-Resumes :
      (past : Bool) (n : ℕ) (xs : List Transaction)
      → DistinctIds xs
      → n < length (scan q past xs)
      → Resumes n (scan q past xs) xs
  unfolding scan
  scan-Resumes true n xs d h =
      subst (λ rs. Resumes n rs xs) (sym (scan-select q q.cursor xs))
        (select-Resumes n xs d (subst (λ rs. n < length rs) (scan-select q q.cursor xs) h))
  scan-Resumes false n [] d h = ground arith
  scan-Resumes false n (x ∷ xs) (w, d) h =
      later-Resumes n x xs (scan q (x.id == q.cursor) xs) (scan-All _ (x.id == q.cursor) xs w) h
        (scan-Resumes (x.id == q.cursor) n xs d h)
