-- ===== src/Tests/Adapters.antt =====
-- The adapters at concrete inputs.
use extend_regional_payment.Prelude.{
  inl, ◌*◌, ◌^◌, ◌≡◌, refl, arith, List, [], ◌∷◌, none, some, map, ◌==◌, if◌then◌else◌,
}
use extend_regional_payment.Prelude.Int.{pos, ◌*ℤ◌, ◌+ℤ◌, to_int64}
use extend_regional_payment.Prelude.Table.{lookup}
use extend_regional_payment.Prelude.Text.{split_where, split, to_lower, trim_space, to_upper, join}
use extend_regional_payment.Prelude.Found.{found, failed}
use extend_regional_payment.Model.{Transaction}
use extend_regional_payment.Adapter.Types.{
  answer, SyncPaymentStatus, SyncRefundStatus, ProviderSyncResult,
}
use extend_regional_payment.Adapter.Komoju as Komoju
use extend_regional_payment.Adapter.Komoju.Amounts.{
  times_ten, currency_scale_factor, to_komoju_amount,
}
use extend_regional_payment.Adapter.Komoju.Charges.{to_komoju_amount-result_of}
use extend_regional_payment.Adapter.Komoju.Webhooks.{result_of, order_id_of}
use extend_regional_payment.Adapter.Komoju.Statuses.{map_payment_status, failure_reason_of}
use extend_regional_payment.Adapter.Xendit as Xendit
use extend_regional_payment.Adapter.Xendit.Refunds.Totals.{
  succeeded_total, status_for, status_of, first_currency, summarize_xendit_refunds_lem,
}
use extend_regional_payment.Adapter.Xendit.Refunds.{
  counts, conclude, tally_refunds, tally_one, summarize_xendit_refunds,
}
use extend_regional_payment.Adapter.Xendit.Statuses.{normal}
use extend_regional_payment.Adapter.Xendit.Intents.{normalize_region_code}
use extend_regional_payment.Adapter.Generic.Settings.{
  display_name_from_provider_id, generic_name, split_csv,
}
use extend_regional_payment.Adapter.Xendit.Provider.{xendit_provider}
use extend_regional_payment.Service.World.{Env}
use extend_regional_payment.Service.Webhook.{WebhookRequest}
use extend_regional_payment.Service.Webhook.Gate.{Refused}
use extend_regional_payment.Service.Webhook.Authentic.{handle_webhook-Unsigned}
use extend_regional_payment.Tests.Fixture.{fulfilled_gem, pending_gem, world_of, env}

abbrev two_refunds : List Xendit.RefundRecord
two_refunds =
    record { id = "rf-1"; status = "succeeded"; amount = pos 5000; currency = "idr" }
    ∷ record { id = "rf-2"; status = "PENDING"; amount = pos 10000; currency = "IDR" }
    ∷ []

summarize_xendit_refunds_lem_example :
    let total = succeeded_total (λ c. c) (normal (λ c. c) "IDR") two_refunds in
    summarize_xendit_refunds (λ c. c) two_refunds (pos 15000) "IDR" ≡ record {
      status = status_for (λ c. c) total (pos 15000) two_refunds;
      raw_status = join "," (map (status_of (λ c. c)) two_refunds);
      amount = pos total;
      currency = first_currency (λ c. c) two_refunds;
    }
unfolding counts trim_space to_upper
summarize_xendit_refunds_lem_example =
    summarize_xendit_refunds_lem (λ c. c) two_refunds (pos 15000) "IDR"
      (omega arith, (omega arith, tt)) (omega arith)

partly_refunded : summarize_xendit_refunds (λ c. c) two_refunds (pos 15000) "IDR" ≡ record {
  status = SyncRefundStatus.partial_refunded;
  raw_status = "SUCCEEDED,PENDING";
  amount = pos 5000;
  currency = "IDR";
}
unfolding summarize_xendit_refunds conclude tally_refunds tally_one to_upper trim_space to_int64
    ◌+ℤ◌ join
partly_refunded = refl

abbrev komoju_api : Komoju.Api
komoju_api = record {
  cfg = record {
    provider_id = "provider_komoju";
    display_name = "KOMOJU";
    secret_key = "sk";
    webhook_secret = "ws";
    api_version = "2025-01-28";
    api_base_url = "https://komoju.com";
    default_locale = "en";
    allowed_currencies = "USD" ∷ "JPY" ∷ [];
  };
  send = λ h sent request. failed "offline";
  now = λ h sent. 100;
  upper_rune = λ c. c;
  lower_rune = λ c. c;
  scale = λ code. if code == "USD" then found 2 else found 0;
  hmac_sha256 = λ key message. message;
  basic_auth = λ user password. user;
  encode_session = λ request. request.currency;
  encode_refund = λ request. "refund";
  decode_session = λ body. failed body;
  decode_payment = λ body. failed body;
  decode_object = λ body. found tt;
  decode_event = λ body. failed "no event";
  quote = λ s. s;
  decimal = λ n. "n";
  sorted = λ codes. "codes";
}

-- A payment of 12 dollars.
abbrev komoju_payment : Komoju.PaymentResponse
komoju_payment = record {
  id = "pay-1";
  status = "captured";
  amount = pos 1200;
  total = pos 1200;
  currency = "usd";
  external_order_num = "t1";
  metadata = [];
}

to_komoju_amount-result_of_example :
    (komoju_payment.amount ≡ pos (12 * 10 ^ 2))
    × (result_of komoju_api komoju_payment
        ≡ answer (record {
          provider_transaction_id = komoju_payment.id;
          internal_order_id = order_id_of komoju_api komoju_payment;
          status = map_payment_status komoju_api.lower_rune komoju_payment.status;
          raw_provider_status = komoju_payment.status;
          amount = pos 12;
          currency_code = "usd";
          failure_reason = failure_reason_of komoju_api.lower_rune komoju_payment.status;
        }))
unfolding trim_space to_upper to_komoju_amount currency_scale_factor times_ten ◌*ℤ◌ to_int64
to_komoju_amount-result_of_example =
    to_komoju_amount-result_of komoju_api "usd" 2 12 komoju_payment refl (omega arith) (omega arith)
      refl refl

abbrev paid_request : Xendit.PaymentRequestResponse
paid_request = record {
  id = "pr-1";
  payment_request_id = "pr-1";
  reference_id = "t1";
  status = "SUCCEEDED";
  currency = "IDR";
  latest_payment_id = "";
  failure_code = "";
}

-- Every request is answered, and the payment has one refund, of the whole amount.
abbrev xendit_api : Xendit.Api
xendit_api = record {
  cfg = record {
    provider_id = "provider_xendit";
    display_name = "Xendit";
    secret_api_key = "sk";
    callback_token = "token";
    api_base_url = "https://api.xendit.co";
    default_country = "ID";
    allowed_countries = "ID" ∷ [];
    allowed_currencies = "IDR" ∷ [];
  };
  send = λ past request.
      found (record { status_code = 200; read_all = found "{}"; read_at_most = λ n. found "{}" });
  list_transactions = λ past call. Xendit.sdk_response (some []);
  list_refunds = λ past id.
      Xendit.sdk_response
        (some (record { id = "rf-1"; amount = pos 15000; currency = "IDR" } ∷ []));
  create_refund = λ past key refund. none;
  now = λ past. 100;
  upper_rune = λ c. c;
  through_float = λ n. n;
  rfc3339 = λ time. "2026";
  basic_auth = λ user password. user;
  encode_session = λ request. request.currency;
  encode_reason = λ reason. reason;
  decode_session = λ body. failed body;
  decode_payment_request = λ body. found paid_request;
  decode_payment = λ body. failed body;
  decode_session_event = λ body. failed "no event";
  decode_refund_event = λ body. failed "no event";
  quote = λ s. s;
  decimal = λ n. "n";
  sorted = λ codes. "codes";
}

abbrev refunded_gem : Transaction
refunded_gem = record fulfilled_gem { provider_tx_id = "pr-1" }

abbrev refunded_result : ProviderSyncResult
refunded_result = record {
  provider_tx_id = "pr-1";
  payment_status = SyncPaymentStatus.paid;
  refund_status = SyncRefundStatus.refunded;
  raw_payment_status = "payment_request:SUCCEEDED";
  raw_refund_status = "SUCCEEDED";
  refund_amount = pos 15000;
  refund_currency_code = "IDR";
  message = "xendit transaction history synced";
}

region : normalize_region_code (λ c. c) " us-CA" ≡ "US"
unfolding normalize_region_code to_upper trim_space
region = refl

display_name : display_name_from_provider_id (λ c. c) (λ c. c) "provider_my-pay" ≡ "My Pay"
unfolding display_name_from_provider_id split_where join to_lower trim_space to_upper
display_name = refl

discovered : generic_name "GENERIC_MY_PAY_AUTH_HEADER" ≡ some "MY_PAY"
unfolding generic_name
discovered = refl

values : split_csv " paid, ,settled" ≡ "paid" ∷ "settled" ∷ []
unfolding split_csv trim_space split split_where
values = refl

-- A webhook with a wrong token.
abbrev forged : WebhookRequest
forged = record {
  provider_id = "xendit";
  headers = ("x-callback-token", "guess") ∷ [];
  raw_payload = 1 ∷ 2 ∷ [];
}

abbrev shop_env : Env
shop_env = record env { registry = ("xendit", xendit_provider xendit_api) ∷ [] }

handle_webhook-Unsigned_example : Refused shop_env forged (world_of pending_gem)
unfolding lookup trim_space
handle_webhook-Unsigned_example =
    handle_webhook-Unsigned shop_env forged (world_of pending_gem) (xendit_provider xendit_api) refl
      (inl (xendit_api, refl, refl))
