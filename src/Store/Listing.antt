-- ===== src/Store/Listing.antt =====
-- internal/store/memory/memory.go: the operations that go through all transactions.
pub mod Resume
pub mod Pages
pub mod Order
use Prim.Native.String.{compare}
use text.Mathlib.Text.{is_lt}
use extend_regional_payment.Prelude.{ℕ, String, ◌==◌, Bool, true, false, not}
use extend_regional_payment.Prelude.{◌&&◌, ◌||◌, Option, none, some, List, [], ◌∷◌}
use extend_regional_payment.Prelude.{ltb, leb, if◌then◌else◌, length, take}
use extend_regional_payment.Prelude.Int.{ℤ, pos, negsuc}
use extend_regional_payment.Prelude.Text.{trim_space}
use extend_regional_payment.Model.{Time, Status, Transaction, same_status}
use extend_regional_payment.Store.Types.{ListQuery}
use extend_regional_payment.Store.Memory.{Store}

-- `range s.data`, in the order of the list. Go's order is not fixed.
abbrev pub values : Store → List Transaction
values [] = []
values ((_, tx) ∷ s) = tx ∷ values s

abbrev pub select : (Transaction → Bool) → List Transaction → List Transaction
select p [] = []
select p (tx ∷ txs) = let rest = select p txs in if p tx then tx ∷ rest else rest

-- `a < b` on strings.
abbrev pub text_lt : String → String → Bool
text_lt a b = is_lt (compare a b)

-- The order of the listing: the newest first, then by falling id.
unfoldable pub comes_before : Transaction → Transaction → Bool
comes_before a b =
    if leb a.created_at b.created_at && leb b.created_at a.created_at
    then text_lt b.id a.id
    else ltb b.created_at a.created_at

unfoldable pub insert_sorted : Transaction → List Transaction → List Transaction
insert_sorted x [] = x ∷ []
insert_sorted x (y ∷ ys) =
    let later = insert_sorted x ys in if comes_before y x then y ∷ later else x ∷ y ∷ ys

-- sort.SliceStable
unfoldable pub sort_stable : List Transaction → List Transaction
unfolding insert_sorted comes_before
sort_stable [] = []
sort_stable (x ∷ xs) = insert_sorted x (sort_stable xs)

unfoldable pub contains_status : Status → List Status → Bool
contains_status s [] = false
contains_status s (t ∷ ts) = same_status s t || contains_status s ts

abbrev pub in_statuses : Status → List Status → Bool
in_statuses s [] = true
in_statuses s (t ∷ ts) = contains_status s (t ∷ ts)

abbrev pub is_status : Option Status → Status → Bool
is_status none s = true
is_status (some t) s = same_status s t

-- The tests of the loop that skip a transaction.
unfoldable pub matches : ListQuery → Transaction → Bool
unfolding contains_status
matches q tx =
    (q.namespace == "" || tx.namespace == q.namespace)
    && (q.user_id == "" || tx.user_id == q.user_id)
    && is_status q.status_filter tx.status
    && in_statuses tx.status q.status_filters
    && (q.provider_id == "" || tx.provider_id == q.provider_id)
    && (search == "" || tx.id == search || tx.provider_tx_id == search || tx.item_id == search)
  where
    search : String
    search = trim_space q.search

-- The loop over the sorted transactions. The flag is `pastCursor`.
unfoldable pub scan : ListQuery → Bool → List Transaction → List Transaction
scan q past [] = []
scan q past (tx ∷ txs) =
    let rest = scan q (past || tx.id == q.cursor) txs in
    if past && matches q tx then tx ∷ rest else rest

unfoldable pub page_size_of : ℤ → ℕ
page_size_of (pos n) = if leb n 0 || ltb 100 n then 20 else n
page_size_of (negsuc n) = 20

abbrev pub last_id : List Transaction → String
last_id [] = ""
last_id (tx ∷ []) = tx.id
last_id (tx ∷ u ∷ txs) = last_id (u ∷ txs)

-- The page and the next cursor, from the results of the loop.
unfoldable pub cut_page : ℕ → List Transaction → List Transaction × String
cut_page size results =
    if ltb size (length results)
    then (take size results, last_id (take size results))
    else (results, "")

unfoldable pub list_transactions : ListQuery → Store → List Transaction × String
unfolding page_size_of scan sort_stable cut_page
list_transactions q s =
    cut_page (page_size_of q.page_size) (scan q (q.cursor == "") (sort_stable (values s)))

abbrev pub is_pending_of : String → String → Transaction → Bool
is_pending_of namespace user_id tx =
    tx.namespace == namespace && tx.user_id == user_id && same_status tx.status Status.pending

unfoldable pub count_pending_by_user : String → String → Store → ℕ
count_pending_by_user namespace user_id s =
    length (select (is_pending_of namespace user_id) (values s))

unfoldable pub find_stuck_fulfilling : Time → Store → List Transaction
find_stuck_fulfilling older_than s =
    select (λ tx. same_status tx.status Status.fulfilling && ltb tx.updated_at older_than)
      (values s)

unfoldable pub find_stuck_pending : Time → Time → Store → List Transaction
find_stuck_pending older_than now s =
    select
      (λ tx.
        same_status tx.status Status.pending
        && ltb now tx.expires_at
        && ltb tx.created_at older_than)
      (values s)

-- A zero time is no expiry.
unfoldable pub find_expired_pending : Time → Store → List Transaction
find_expired_pending now s =
    select
      (λ tx.
        same_status tx.status Status.pending
        && not (leb tx.expires_at 0)
        && not (ltb now tx.expires_at))
      (values s)
