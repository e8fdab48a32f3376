-- ===== src/Fulfillment/Search.antt =====
-- The search through the pages of the fulfillment history ends, and finds what is there.
use extend_regional_payment.Prelude.{String, some, none, Option}
use extend_regional_payment.Prelude.Found.{Found, found, failed}
use extend_regional_payment.Fulfillment.{FulfillmentHistoryInfo, not_found_error}

-- The result that the whole history calls for.
abbrev pub outcome : String → Option FulfillmentHistoryInfo → Found FulfillmentHistoryInfo
outcome order (some h) = found h
outcome order none = failed (not_found_error order)
