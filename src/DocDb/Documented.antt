-- ===== src/DocDb/Documented.antt =====
-- What the manual of MongoDB says of the filters and updates that the code uses, as hypotheses on the
-- driver. A stored document is a transaction; a date in it has whole milliseconds.
use extend_regional_payment.Prelude.{◌*◌, ◌/◌, String, ◌==◌, Bool, true, false, not, ◌&&◌, ◌||◌}
use extend_regional_payment.Prelude.{◌≡◌, ◌⊎◌, Option, none, some, List, [], ◌∷◌, ltb, leb}
use extend_regional_payment.Prelude.{if◌then◌else◌}
use extend_regional_payment.Prelude.Int.{pos, ◌+ℤ◌, leb_ℤ}
use extend_regional_payment.Prelude.Found.{found}
use extend_regional_payment.Model.{
  RefundStatus, Time, Refund, Transaction, same_status, same_refund_status,
}
use extend_regional_payment.Store.Listing.{contains_status, text_lt}
use extend_regional_payment.DocDb.Query.{
  Test, Filter, Driver, test, any_of, Change, Inserted, Update, Answer,
}

-- A document, and whether it has the key provider_tx_id: the tag is omitempty, so a transaction with
-- an empty one may be stored with the key or without it.
pub record Stored : Type 0 where
  pub tx : Transaction
  pub has_provider_tx_id : Bool

-- A date of BSON: milliseconds.
unfoldable pub date : Time → Time
date t = t / 1000000 * 1000000

abbrev pub has_refund : Option Refund → Bool
has_refund none = false
has_refund (some _) = true

abbrev pub refund_is : RefundStatus → Option Refund → Bool
refund_is s none = false
refund_is s (some r) = same_refund_status r.status s

unfoldable pub holds : Test → Stored → Bool
unfolding contains_status
holds (Test.id_is v) s = s.tx.id == v
holds (Test.client_order_id_is v) s = s.tx.client_order_id == v
holds (Test.namespace_is v) s = s.tx.namespace == v
holds (Test.user_id_is v) s = s.tx.user_id == v
holds (Test.provider_id_is v) s = s.tx.provider_id == v
holds (Test.provider_tx_id_is v) s = s.has_provider_tx_id && s.tx.provider_tx_id == v
holds (Test.item_id_is v) s = s.tx.item_id == v
holds (Test.id_before v) s = text_lt s.tx.id v
holds Test.provider_tx_id_is_missing s = not s.has_provider_tx_id
holds Test.refund_exists s = has_refund s.tx.refund
holds Test.refund_is_missing s = not (has_refund s.tx.refund)
holds (Test.status_is v) s = same_status s.tx.status v
holds (Test.status_in vs) s = contains_status s.tx.status vs
holds (Test.refund_status_is v) s = refund_is v s.tx.refund
holds (Test.updated_before t) s = ltb s.tx.updated_at (date t)
holds (Test.created_before t) s = ltb s.tx.created_at (date t)
holds (Test.expires_after t) s = ltb (date t) s.tx.expires_at
holds (Test.expires_by t) s = leb s.tx.expires_at (date t)

abbrev pub any_holds : List Test → Stored → Bool
unfolding holds
any_holds [] s = false
any_holds (t ∷ ts) s = holds t s || any_holds ts s

-- Whether a document meets all conditions of a filter.
unfoldable pub meets : Filter → Stored → Bool
unfolding holds
meets [] s = true
meets (test t ∷ f) s = holds t s && meets f s
meets (any_of ts ∷ f) s = any_holds ts s && meets f s

-- A change of a key in the refund, which makes no refund.
abbrev in_refund : (Refund → Refund) → Stored → Option Stored
in_refund f s = elim s.tx.refund [
  | none ↦ none
  | some r ↦ some (record s { tx = record s.tx { refund = some (f r) } })
]

-- The refund with its status set. What a new one lacks is read back as the empty value.
abbrev with_refund_status : RefundStatus → Option Refund → Refund
with_refund_status status (some r) = record r { status = status }
with_refund_status status none = record {
  status = status;
  reason = "";
  failure_reason = "";
  provider_refunded = false;
  created_at = 0;
  updated_at = 0;
}

-- A change of a document, and `none` where what it leads to is no transaction of the model: a refund
-- without a status, and retries that outgrow an int32.
unfoldable pub change : Change → Stored → Option Stored
change (Change.set_status v) s = some (record s { tx = record s.tx { status = v } })
change (Change.set_provider_id v) s = some (record s { tx = record s.tx { provider_id = v } })
change (Change.set_provider_display_name v) s =
    some (record s { tx = record s.tx { provider_display_name = v } })
change (Change.set_provider_tx_id v) s =
    some (record s { tx = record s.tx { provider_tx_id = v }; has_provider_tx_id = true })
change (Change.set_payment_url v) s = some (record s { tx = record s.tx { payment_url = v } })
change (Change.set_provider_status v) s =
    some (record s { tx = record s.tx { provider_status = v } })
change (Change.set_failure_reason v) s = some (record s { tx = record s.tx { failure_reason = v } })
change (Change.set_delete_at t) s = some (record s { tx = record s.tx { delete_at = date t } })
change (Change.set_updated_at t) s = some (record s { tx = record s.tx { updated_at = date t } })
change (Change.set_refund_status v) s =
    some (record s { tx = record s.tx { refund = some (with_refund_status v s.tx.refund) } })
change (Change.set_refund_reason v) s = in_refund (λ r. record r { reason = v }) s
change (Change.set_refund_failure_reason v) s = in_refund (λ r. record r { failure_reason = v }) s
change Change.set_refund_provider_refunded_true s =
    in_refund (λ r. record r { provider_refunded = true }) s
change Change.set_refund_provider_refunded_false s =
    in_refund (λ r. record r { provider_refunded = false }) s
change (Change.set_refund_created_at t) s = in_refund (λ r. record r { created_at = date t }) s
change (Change.set_refund_updated_at t) s = in_refund (λ r. record r { updated_at = date t }) s
change Change.unset_provider_tx_id s =
    some (record s { tx = record s.tx { provider_tx_id = "" }; has_provider_tx_id = false })
change Change.unset_payment_url s = some (record s { tx = record s.tx { payment_url = "" } })
change Change.unset_provider_status s =
    some (record s { tx = record s.tx { provider_status = "" } })
change (Change.inc_retries n) s =
    if leb_ℤ (s.tx.retries +ℤ pos n) (pos 2147483647)
    then some (record s { tx = record s.tx { retries = s.tx.retries +ℤ pos n } })
    else none

unfoldable pub change_all : Update → Stored → Option Stored
unfolding change
change_all [] s = some s
change_all (c ∷ cs) s = elim (change c s) [ none ↦ none | some s' ↦ change_all cs s' ]

abbrev dated_refund : Option Refund → Option Refund
dated_refund none = none
dated_refund (some r) =
    some (record r { created_at = date r.created_at; updated_at = date r.updated_at })

-- A transaction as InsertOne stores it: every date, those of its refund too, in milliseconds.
abbrev pub dated : Transaction → Transaction
dated tx = record tx {
  created_at = date tx.created_at;
  expires_at = date tx.expires_at;
  updated_at = date tx.updated_at;
  delete_at = date tx.delete_at;
  refund = dated_refund tx.refund;
}

abbrev pub as_inserted : Transaction → Stored
as_inserted tx = record { tx = dated tx; has_provider_tx_id = not (tx.provider_tx_id == "") }

-- The document after a change, where the model says what it is.
abbrev pub Applied : Option Stored → Stored → Type 0
Applied none s' = Unit
Applied (some t) s' = s' ≡ t

module _ {S : Type 0} (get : S → String → Option Stored) (f : Filter) (st : S) where
  abbrev Unmet : Type 0
  Unmet = (k : String) (s : Stored) → get st k ≡ some s → meets f s ≡ false

  abbrev Met : Stored → Type 0
  Met s = (get st s.tx.id ≡ some s) × (meets f s ≡ true)

  abbrev Same : S → Type 0
  Same st' = (j : String) → get st' j ≡ get st j

  abbrev SameElsewhere : Stored → S → Type 0
  SameElsewhere s st' = (j : String) → (s.tx.id == j) ≡ false → get st' j ≡ get st j

  -- What changes the first document that meets a filter, and only it.
  abbrev pub Updates : {R : Type 0} → Update → R → (Stored → R) → R × S → Type 0
  Updates u miss hit out =
      (Unmet × (out.0 ≡ miss) × Same out.1)
      ⊎ ((s : Stored) × (s' : Stored) × Met s
          × (out.0 ≡ hit s')
          × (get out.1 s.tx.id ≡ some s')
          × Applied (change_all u s) s'
          × SameElsewhere s out.1)

  abbrev pub Finds : Answer → Type 0
  Finds answer =
      (Unmet × (answer ≡ Answer.no_document))
      ⊎ ((s : Stored) × Met s × (answer ≡ Answer.document s.tx))

-- What an insertion does: it is refused because of the unique indexes, or for another reason, and
-- leaves everything; or it stores the transaction under its id.
abbrev pub Inserts :
    {S : Type 0} → (S → String → Option Stored) → S → Transaction → Inserted × S → Type 0
Inserts get st tx out =
    ((s : Stored) × (get st s.tx.id ≡ some s)
      × ((s.tx.id ≡ tx.id) ⊎ (s.tx.client_order_id ≡ tx.client_order_id))
      × (out.0 ≡ Inserted.duplicate_key)
      × ((j : String) → get out.1 j ≡ get st j))
    ⊎ (((e : String) × (out.0 ≡ Inserted.insert_failure e)
          × ((j : String) → get out.1 j ≡ get st j))
        ⊎ ((get st tx.id ≡ none)
            × ((k : String) (s : Stored)
                → get st k ≡ some s
                → (s.tx.client_order_id == tx.client_order_id) ≡ false)
            × (out.0 ≡ Inserted.inserted)
            × ((j : String)
                → get out.1 j ≡ (if tx.id == j then some (as_inserted tx) else get st j))))

-- `get` is the document with an _id. A read and an update are answered: what an outage does is not said. The
-- collection has a unique index on client_order_id, as on _id.
pub record Documented {S : Type 0} (d : Driver S) (get : S → String → Option Stored) : Type 0 where
  pub id_lem : (st : S) (k : String) (s : Stored) → get st k ≡ some s → s.tx.id ≡ k
  pub omitted :
      (st : S) (k : String) (s : Stored)
      → get st k ≡ some s
      → s.has_provider_tx_id ≡ false
      → s.tx.provider_tx_id ≡ ""
  pub insert_one_lem : (tx : Transaction) (st : S) → Inserts get st tx (d.insert_one tx st)
  pub find_one_lem : (f : Filter) (st : S) → Finds get f st (d.find_one f st)
  pub find_one_and_update_lem :
      (f : Filter) (u : Update) (st : S)
      → Updates get f st u Answer.no_document
          (λ s. Answer.document s.tx)
          (d.find_one_and_update f u st)
  pub update_one_lem :
      (f : Filter) (u : Update) (st : S)
      → Updates get f st u (found 0) (λ _. found 1) (d.update_one f u st)
