-- ===== src/DocDb/Query.antt =====
-- internal/store/docdb/docdb.go: the filters, the updates and the options that the code hands to the
-- MongoDB driver, and the driver's operations, which are a parameter.
use extend_regional_payment.Prelude.{ℕ, String, List}
use extend_regional_payment.Prelude.Found.{Found}
use extend_regional_payment.Model.{Status, RefundStatus, Time, Transaction}

-- One entry of a filter: the key, and after the underscore `is` for a value, `exists` for $exists,
-- `in` for $in, `before` for $lt, `after` for $gt and `by` for $lte.
pub data Test : Type 0 where
  id_is client_order_id_is namespace_is user_id_is provider_id_is : String → Test
  provider_tx_id_is item_id_is id_before : String → Test
  provider_tx_id_is_missing refund_exists refund_is_missing : Test
  status_is : Status → Test
  status_in : List Status → Test
  refund_status_is : RefundStatus → Test
  updated_before created_before expires_after expires_by : Time → Test

-- `any_of` is $or over filters of one entry.
pub data Condition : Type 0 where
  test : Test → Condition
  any_of : List Test → Condition

abbrev pub Filter : Type 0
Filter = List Condition

-- One entry of $set, of $unset or of $inc.
pub data Change : Type 0 where
  set_status : Status → Change
  set_provider_id set_provider_display_name set_provider_tx_id : String → Change
  set_payment_url set_provider_status set_failure_reason : String → Change
  set_delete_at set_updated_at : Time → Change
  set_refund_status : RefundStatus → Change
  set_refund_reason set_refund_failure_reason : String → Change
  set_refund_provider_refunded_true set_refund_provider_refunded_false : Change
  set_refund_created_at set_refund_updated_at : Time → Change
  unset_provider_tx_id unset_payment_url unset_provider_status : Change
  inc_retries : ℕ → Change

abbrev pub Update : Type 0
Update = List Change

pub data Answer : Type 0 where
  document : Transaction → Answer
  no_document : Answer
  failure : String → Answer

pub data Inserted : Type 0 where
  inserted duplicate_key : Inserted
  insert_failure : String → Inserted

-- What the driver does on the state of a collection. `find_one_and_update` answers the document after
-- the update, `update_one` the number of documents that matched. `find_newest_first` is Find with the
-- sort {created_at: -1} and a limit.
pub record Driver (S : Type 0) : Type 0 where
  pub insert_one : Transaction → S → Inserted × S
  pub find_one : Filter → S → Answer
  pub find_one_and_update : Filter → Update → S → Answer × S
  pub update_one : Filter → Update → S → Found ℕ × S
  pub delete_one : Filter → S → Found ℕ × S
  pub count_documents : Filter → S → Found ℕ
  pub find : Filter → S → Found (List Transaction)
  pub find_newest_first : Filter → (limit : ℕ) → S → Found (List Transaction)
