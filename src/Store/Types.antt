-- ===== src/Store/Types.antt =====
-- internal/store/store.go: the errors and the query of the Store interface.
use extend_regional_payment.Prelude.{String, List, Option}
use extend_regional_payment.Prelude.Int.{ℤ}
use extend_regional_payment.Model.{Status}

-- `other` stands for an error of a database driver; the in-memory store has none.
pub data StoreError : Type 0 where
  not_found duplicate_client_order_id no_documents : StoreError
  other : String → StoreError

abbrev pub error_text : StoreError → String
error_text not_found = "transaction not found"
error_text duplicate_client_order_id = "duplicate client_order_id"
error_text no_documents = "no documents matched the atomic filter"
error_text (other message) = message

-- The pair of a value and an `error`, of which the callers use one.
pub data Result {ℓ} (A : Type ℓ) : Type ℓ where
  ok : A → Result A
  err : StoreError → Result A

-- `status_filter` is `none` for the empty string.
pub record ListQuery : Type 0 where
  pub namespace : String
  pub user_id : String
  pub status_filter : Option Status
  pub status_filters : List Status
  pub provider_id : String
  pub search : String
  pub page_size : ℤ
  pub cursor : String
