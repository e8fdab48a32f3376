-- ===== src/Adapter/Xendit/Records.antt =====
-- internal/adapter/xendit/xendit.go: collectTransactionHistory. The records of up to three lists, each
-- record once.
use extend_regional_payment.Prelude.{String, List, [], ◌∷◌, ◌++◌, ◌==◌, ◌<>◌, if◌then◌else◌}
use extend_regional_payment.Prelude.Table.{has_key}
use extend_regional_payment.Adapter.Effects.{History}
use extend_regional_payment.Adapter.Xendit.{Api, TransactionRecord}
use extend_regional_payment.Adapter.Xendit.Calls.{
  Call, pure, ◌>>=◌, list_by_reference_id, list_by_product_id,
}

-- The keys that were seen and the records that were kept.
pub record Collected : Type 0 where
  pub seen : List String
  pub records : List TransactionRecord

abbrev pub nothing_collected : Collected
nothing_collected = record { seen = []; records = [] }

unfoldable pub record_key : TransactionRecord → String
record_key item =
    if item.id == ""
    then item.kind <> "|" <> item.status <> "|" <> item.product_id <> "|" <> item.reference_id
    else item.id

unfoldable pub append_unique : Collected → List TransactionRecord → Collected
append_unique c [] = c
append_unique c (item ∷ items) =
    let key = record_key item in
    let kept =
      append_unique (record { seen = key ∷ c.seen; records = c.records ++ item ∷ [] }) items in
    let skipped = append_unique c items in if has_key key c.seen then skipped else kept

module _ (api : Api) (h : History) where
  -- One more list, for an id that is given.
  collect : (String → Call (List TransactionRecord)) → String → Collected → Call Collected
  collect list id c =
      if id == "" then pure c else (list id >>= λ items. pure (append_unique c items))

  unfoldable pub collect_transaction_history :
      (reference_id payment_id payment_request_id : String) → Call (List TransactionRecord)
  unfolding collect
  collect_transaction_history reference_id payment_id payment_request_id = do
    by_reference ← collect (list_by_reference_id api h) reference_id nothing_collected
    by_payment ← collect (list_by_product_id api h) payment_id by_reference
    by_request ← collect (list_by_product_id api h) payment_request_id by_payment
    pure by_request.records
