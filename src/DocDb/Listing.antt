-- ===== src/DocDb/Listing.antt =====
-- internal/store/docdb/docdb.go: the operations that read several documents.
use extend_regional_payment.Prelude.{ℕ, ◌+◌, String, ◌==◌}
use extend_regional_payment.Prelude.{Option, none, some, List, [], ◌∷◌, ◌++◌, if◌then◌else◌}
use extend_regional_payment.Prelude.Found.{Found, found, failed}
use extend_regional_payment.Prelude.Text.{trim_space}
use extend_regional_payment.Model.{Status, Time, Transaction}
use extend_regional_payment.Store.Types.{ListQuery}
use extend_regional_payment.Store.Listing.{page_size_of, cut_page}
use extend_regional_payment.DocDb.Query.{Test, Filter, Driver, Condition, test, any_of}

-- An entry that is appended for a text that is not empty.
abbrev pub for_text : String → Condition → Filter
for_text s c = if s == "" then [] else c ∷ []

abbrev pub for_status : Option Status → Filter
for_status none = []
for_status (some s) = test (Test.status_is s) ∷ []

abbrev pub for_statuses : List Status → Filter
for_statuses [] = []
for_statuses (s ∷ ss) = test (Test.status_in (s ∷ ss)) ∷ []

-- The filter that ListTransactions builds.
unfoldable pub list_filter : ListQuery → Filter
list_filter q =
    for_text q.namespace (test (Test.namespace_is q.namespace))
    ++ for_text q.user_id (test (Test.user_id_is q.user_id))
    ++ for_status q.status_filter
    ++ for_statuses q.status_filters
    ++ for_text q.provider_id (test (Test.provider_id_is q.provider_id))
    ++ for_text search
        (any_of (Test.id_is search ∷ Test.provider_tx_id_is search ∷ Test.item_id_is search ∷ []))
    ++ for_text q.cursor (test (Test.id_before q.cursor))
  where
    search : String
    search = trim_space q.search

-- The page that is cut off the documents that were found.
cut_found : ℕ → Found (List Transaction) → Found (List Transaction × String)
cut_found size (failed e) = failed e
cut_found size (found results) = found (cut_page size results)

abbrev pub pending_filter : String → String → Filter
pending_filter namespace user_id =
    test (Test.namespace_is namespace)
    ∷ test (Test.user_id_is user_id)
    ∷ test (Test.status_is Status.pending)
    ∷ []

abbrev pub stuck_fulfilling_filter : Time → Filter
stuck_fulfilling_filter older_than =
    test (Test.status_is Status.fulfilling) ∷ test (Test.updated_before older_than) ∷ []

abbrev pub stuck_pending_filter : Time → Time → Filter
stuck_pending_filter older_than now =
    test (Test.status_is Status.pending)
    ∷ test (Test.expires_after now)
    ∷ test (Test.created_before older_than)
    ∷ []

abbrev pub expired_pending_filter : Time → Filter
expired_pending_filter now = test (Test.status_is Status.pending) ∷ test (Test.expires_by now) ∷ []

module _ {S : Type 0} (d : Driver S) where
  unfoldable pub list_transactions : ListQuery → S → Found (List Transaction × String)
  unfolding cut_found
  list_transactions q st =
      let size = page_size_of q.page_size in
      cut_found size (d.find_newest_first (list_filter q) (size + 1) st)

  unfoldable pub count_pending_by_user : String → String → S → Found ℕ
  count_pending_by_user namespace user_id st =
      d.count_documents (pending_filter namespace user_id) st

  unfoldable pub find_stuck_fulfilling : Time → S → Found (List Transaction)
  find_stuck_fulfilling older_than st = d.find (stuck_fulfilling_filter older_than) st

  unfoldable pub find_stuck_pending : Time → Time → S → Found (List Transaction)
  find_stuck_pending older_than now st = d.find (stuck_pending_filter older_than now) st

  unfoldable pub find_expired_pending : Time → S → Found (List Transaction)
  find_expired_pending now st = d.find (expired_pending_filter now) st
