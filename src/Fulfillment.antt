-- ===== src/Fulfillment.antt =====
-- internal/fulfillment/fulfillment.go: the grant of an item in AGS and its reversal. The services of
-- the AccelByte SDK are parameters; what they answer may depend on all calls before.
pub mod Search
pub mod Reversal
use extend_regional_payment.Prelude.{String, ◌<>◌, ◌==◌, ℕ, zero, suc, Bool, true, false, not}
use extend_regional_payment.Prelude.{
  Option, none, some, List, [], ◌∷◌, ◌++◌, length, ltb, if◌then◌else◌,
}
use extend_regional_payment.Prelude.Int.{ℤ, pos, ◌+ℤ◌, to_int32}
use extend_regional_payment.Prelude.Found.{Found, found, failed}
use extend_regional_payment.Prelude.Text.{trim_space}
use extend_regional_payment.Model.{Transaction}

-- The fields that are read of platformclientmodels.FulfillmentHistoryInfo. A pointer is an `Option`.
pub record CreditSummary : Type 0 where
  pub amount : Option ℤ
  pub currency_code : String

pub record EntitlementSummary : Type 0 where
  pub id : Option String

pub record FulfillmentHistoryInfo : Type 0 where
  pub order_no : String
  pub credit_summaries : List (Option CreditSummary)
  pub entitlement_summaries : List (Option EntitlementSummary)

-- A call of AGS, with the arguments that vary.
pub data AgsCall : Type 0 where
  fulfill_item : (user_id item_id : String) → ℤ → (order_no : String) → AgsCall
  query_histories : (user_id : String) → (limit offset : ℤ) → AgsCall
  debit_wallet : (user_id currency_code : String) → ℤ → (reason item_id : String) → AgsCall
  revoke_entitlements : (user_id entitlement_ids : String) → AgsCall

abbrev pub Log : Type 0
Log = List AgsCall

-- The three services. `none` of a response is nil; of an error, success. `decimal` is %d.
pub record Services : Type 0 where
  pub is_configured : Bool
  pub fulfill : Log → AgsCall → Found (Option (Unit {0}))
  pub query : Log → AgsCall → Found (Option (List (Option FulfillmentHistoryInfo)))
  pub debit : Log → AgsCall → Option String
  pub revoke : Log → AgsCall → Option String
  pub decimal : ℤ → String

grant_result : Found (Option (Unit {0})) → Found (Unit {0})
grant_result (failed e) = failed ("FulfillUserItem: " <> e)
grant_result (found none) = failed "FulfillUserItem returned nil response"
grant_result (found (some _)) = found tt

unfoldable pub fulfill_user_item :
    Services → (user_id item_id order_no : String) → ℤ → Log → Found (Unit {0}) × Log
unfolding grant_result
fulfill_user_item s user_id item_id order_no qty log =
    let request = fulfill_item user_id item_id qty order_no in
    (grant_result (s.fulfill log request), log ++ (request ∷ []))

-- The first entry of a page that belongs to the order.
unfoldable pub first_of :
    String → List (Option FulfillmentHistoryInfo) → Option FulfillmentHistoryInfo
first_of order [] = none
first_of order (none ∷ page) = first_of order page
first_of order (some h ∷ page) =
    let later = first_of order page in if h.order_no == order then some h else later

abbrev pub page_limit : ℕ
page_limit = 100

abbrev pub histories_request : String → ℤ → AgsCall
histories_request user_id offset = query_histories user_id (pos page_limit) offset

abbrev pub not_found_error : String → String
not_found_error order =
    "ReverseFulfillment: successful fulfillment history not found for order " <> order

-- What one page leads to: an end of the search, or `rest`.
on_entry :
    String
    → List (Option FulfillmentHistoryInfo)
    → Option FulfillmentHistoryInfo
    → Log
    → Option (Found FulfillmentHistoryInfo × Log)
    → Option (Found FulfillmentHistoryInfo × Log)
on_entry order page (some h) log rest = some (found h, log)
on_entry order page none log rest =
    if ltb (length page) page_limit then some (failed (not_found_error order), log) else rest

on_page :
    String
    → Found (Option (List (Option FulfillmentHistoryInfo)))
    → Log
    → Option (Found FulfillmentHistoryInfo × Log)
    → Option (Found FulfillmentHistoryInfo × Log)
unfolding on_entry
on_page order (failed e) log rest =
    some (failed ("ReverseFulfillment: query fulfillment history: " <> e), log)
on_page order (found none) log rest =
    some (failed "ReverseFulfillment: query fulfillment history returned nil", log)
on_page order (found (some page)) log rest = on_entry order page (first_of order page) log rest

-- The loop of findSuccessfulFulfillmentHistory, with fuel; `none` means that it ran out. The offset
-- is an int32.
unfoldable pub find_from :
    ℕ → Services → Transaction → ℤ → Log → Option (Found FulfillmentHistoryInfo × Log)
unfolding on_page
find_from zero s tx offset log = none
find_from (suc fuel) s tx offset log =
    let request = histories_request tx.user_id offset in
    let log' = log ++ (request ∷ []) in
    let rest = find_from fuel s tx (to_int32 (offset +ℤ pos page_limit)) log' in
    on_page tx.id (s.query log request) log' rest

-- `credit == nil || credit.Amount == nil || *credit.Amount == 0` is skipped.
abbrev is_zero : ℤ → Bool
is_zero (pos zero) = true
is_zero _ = false

abbrev pub due : Option CreditSummary → Option (ℤ × String)
due none = none
due (some c) = elim c.amount [
  | none ↦ none
  | some a ↦ if is_zero a then none else some (a, trim_space c.currency_code)
]

abbrev pub debit_request : Transaction → ℤ → String → AgsCall
debit_request tx amount currency =
    debit_wallet tx.user_id currency amount ("payment refund " <> tx.id) tx.item_id

abbrev pub debit_error : Services → ℤ → String → String → String
debit_error s amount currency e =
    "ReverseFulfillment: debit wallet currency "
    <> currency
    <> " amount "
    <> s.decimal amount
    <> ": "
    <> e

abbrev pub currency_error : Transaction → String
currency_error tx =
    "ReverseFulfillment: credit summary for order " <> tx.id <> " has empty currency code"

abbrev pub revoke_error : String → String → String
revoke_error ids e = "ReverseFulfillment: revoke entitlements " <> ids <> ": " <> e

-- The result of one debit, and what follows it.
abbrev after_debit :
    Services → ℤ → String → Option String → Log → Found (Unit {0}) × Log → Found (Unit {0}) × Log
after_debit s amount currency none log rest = rest
after_debit s amount currency (some e) log rest = (failed (debit_error s amount currency e), log)

abbrev debit_one :
    Services
    → Transaction
    → ℤ
    → String
    → Log
    → (Log → Found (Unit {0}) × Log)
    → Found (Unit {0}) × Log
debit_one s tx amount currency log next =
    if currency == ""
    then (failed (currency_error tx), log)
    else after_debit s amount currency (s.debit log (debit_request tx amount currency))
        (log ++ (debit_request tx amount currency ∷ []))
        (next (log ++ (debit_request tx amount currency ∷ [])))

debit_due :
    Services
    → Transaction
    → Option (ℤ × String)
    → Log
    → (Log → Found (Unit {0}) × Log)
    → Found (Unit {0}) × Log
debit_due s tx none log next = next log
debit_due s tx (some (amount, currency)) log next = debit_one s tx amount currency log next

unfoldable pub debit_all :
    Services → Transaction → List (Option CreditSummary) → Log → Found (Unit {0}) × Log
unfolding debit_due
debit_all s tx [] log = (found tt, log)
debit_all s tx (c ∷ credits) log = debit_due s tx (due c) log (λ log'. debit_all s tx credits log')

abbrev id_of : Option EntitlementSummary → String
id_of none = ""
id_of (some e) = elim e.id [ none ↦ "" | some id ↦ trim_space id ]

unfoldable pub entitlement_ids : List (Option EntitlementSummary) → List String
entitlement_ids [] = []
entitlement_ids (e ∷ es) =
    let ids = entitlement_ids es in if id_of e == "" then ids else id_of e ∷ ids

-- strings.Join(ids, ",")
unfoldable pub join : List String → String
join [] = ""
join (id ∷ []) = id
join (id ∷ other ∷ ids) = id <> "," <> join (other ∷ ids)

revoked : String → Option String → Found (Unit {0})
revoked ids none = found tt
revoked ids (some e) = failed (revoke_error ids e)

unfoldable pub revoke_ids : Services → Transaction → List String → Log → Found (Unit {0}) × Log
unfolding revoked
revoke_ids s tx [] log = (found tt, log)
revoke_ids s tx (id ∷ ids) log =
    let request = revoke_entitlements tx.user_id (join (id ∷ ids)) in
    (revoked (join (id ∷ ids)) (s.revoke log request), log ++ (request ∷ []))

abbrev then_revoke :
    Services → Transaction → List String → Found (Unit {0}) × Log → Found (Unit {0}) × Log
then_revoke s tx ids (failed e, log) = (failed e, log)
then_revoke s tx ids (found _, log) = revoke_ids s tx ids log

-- The part of ReverseFulfillment from the history that was found.
unfoldable pub reverse_history :
    Services → Transaction → FulfillmentHistoryInfo → Log → Found (Unit {0}) × Log
reverse_history s tx h log =
    then_revoke s tx (entitlement_ids h.entitlement_summaries)
      (debit_all s tx h.credit_summaries log)

reverse_found :
    Services
    → Transaction
    → Option (Found FulfillmentHistoryInfo × Log)
    → Option (Found (Unit {0}) × Log)
reverse_found s tx none = none
reverse_found s tx (some (failed e, log)) = some (failed e, log)
reverse_found s tx (some (found h, log)) = some (reverse_history s tx h log)

-- The transaction is not nil.
unfoldable pub reverse_fulfillment :
    ℕ → Services → Transaction → Log → Option (Found (Unit {0}) × Log)
unfolding reverse_found
reverse_fulfillment fuel s tx log =
    let search = reverse_found s tx (find_from fuel s tx (pos 0) log) in
    if not s.is_configured
    then some (failed "ReverseFulfillment: AGS reversal services are not configured", log)
    else search
