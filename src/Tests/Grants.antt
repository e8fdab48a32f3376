-- ===== src/Tests/Grants.antt =====
-- The reversal of a grant at concrete inputs.
use extend_regional_payment.Prelude.Int.{pos_part}
use extend_regional_payment.Prelude.Found.{found, failed}
use extend_regional_payment.Prelude.{length, take, drop, leb}
use extend_regional_payment.Fulfillment.{
  AgsCall, FulfillmentHistoryInfo, Services, reverse_history, query_histories,
}
use extend_regional_payment.Fulfillment.Reversal.{Progress, reversal_calls, reverse_history-calls}
use extend_regional_payment.Prelude.{List, Option, [], if◌then◌else◌, length, none, some, true, ◌∷◌}
use extend_regional_payment.Prelude.Found.{Found}
use extend_regional_payment.Prelude.Int.{pos}
use extend_regional_payment.Service.World.{call}
use extend_regional_payment.Tests.Fixture.{pending_gem}

abbrev gem_grant : FulfillmentHistoryInfo
gem_grant = record {
  order_no = "t1";
  credit_summaries =
      some (record { amount = some (pos 10); currency_code = "GEMS" })
      ∷ some (record { amount = some (pos 0); currency_code = "GOLD" })
      ∷ some (record { amount = some (pos 3); currency_code = "KEYS" })
      ∷ [];
  entitlement_summaries = some (record { id = some "e1" }) ∷ none ∷ [];
}

abbrev grants_so_far : List (Option FulfillmentHistoryInfo)
grants_so_far = some (record gem_grant { order_no = "t0" }) ∷ none ∷ some gem_grant ∷ []

-- The page that a call of AGS asks for.
abbrev page_of : AgsCall → Found (Option (List (Option FulfillmentHistoryInfo)))
page_of (query_histories user_id limit (pos o)) =
    found (some (take (pos_part limit) (drop o grants_so_far)))
page_of call = failed "no such call"

-- Keys are not taken back.
abbrev services : Services
services = record {
  is_configured = true;
  fulfill = λ log call. found (some tt);
  query = λ log call. page_of call;
  debit = λ log call. if leb 2 (length log) then some "no keys" else none;
  revoke = λ log call. none;
  decimal = λ z. "1";
}

reverse_history-calls_example :
    Progress
      (reversal_calls pending_gem gem_grant)
      []
      (reverse_history services pending_gem gem_grant [])
reverse_history-calls_example = reverse_history-calls services pending_gem gem_grant []
