-- ===== src/Tests/Fixture.antt =====
-- The data of the tests.
use extend_regional_payment.Prelude.{◌+◌, true, false, none, some, [], ◌∷◌, length}
use extend_regional_payment.Prelude.Int.{pos}
use extend_regional_payment.Model.{Status, RefundStatus, Refund, Transaction}
use extend_regional_payment.Store.Memory.{empty, create_transaction, by_client_order_id}
use extend_regional_payment.Store.Ops.{create, step}
use extend_regional_payment.Store.Invariant.{IsWellFormed, empty-IsWellFormed, step-IsWellFormed}
use extend_regional_payment.Prelude.Table.{insert}
use extend_regional_payment.Adapter.Types.{
  failure, answer, PaymentStatus, PaymentResult, CancelStatus, SyncPaymentStatus, SyncRefundStatus,
}
use extend_regional_payment.Adapter.Provider.{PaymentProvider}
use extend_regional_payment.Service.World.{World, Config, Env, FulfillmentReverser, ItemFulfiller}

abbrev pub pending_gem : Transaction
pending_gem = record {
  id = "t1";
  client_order_id = "order-1";
  user_id = "alice";
  namespace = "game";
  provider_id = "xendit";
  provider_display_name = "Xendit";
  payment_url = "https://pay.example/1";
  item_name = "Gem";
  item_id = "gem";
  quantity = pos 1;
  region_code = "ID";
  amount = pos 15000;
  currency_code = "IDR";
  provider_tx_id = "";
  provider_status = "";
  status = Status.pending;
  failure_reason = "";
  refund = none;
  retries = pos 0;
  created_at = 50;
  expires_at = 5000;
  updated_at = 50;
  delete_at = 0;
}

abbrev pub fulfilled_gem : Transaction
fulfilled_gem = record pending_gem { status = Status.fulfilled; provider_tx_id = "x-9" }

abbrev pub failed_refund : Refund
failed_refund = record {
  status = RefundStatus.refund_failed;
  reason = "wrong item";
  failure_reason = "AGS reversal failed";
  provider_refunded = true;
  created_at = 60;
  updated_at = 70;
}

abbrev pub half_refunded_gem : Transaction
half_refunded_gem = record fulfilled_gem { refund = some failed_refund }

abbrev pub stuck_gem : Transaction
stuck_gem = record pending_gem { status = Status.fulfilling; retries = pos 3 }

-- A world with this one transaction.
abbrev pub world_of : Transaction → World
world_of tx = record { store = (tx.id, tx) ∷ []; history = []; last_seen = [] }

pub world_of-IsWellFormed : (tx : Transaction) → IsWellFormed (world_of tx).store
unfolding step create_transaction by_client_order_id insert
world_of-IsWellFormed tx = step-IsWellFormed (create tx) empty empty-IsWellFormed

abbrev pub report : PaymentResult
report = record {
  provider_transaction_id = "x-9";
  internal_order_id = "t1";
  status = PaymentStatus.success;
  raw_provider_status = "SUCCEEDED";
  amount = pos 15000;
  currency_code = "IDR";
  failure_reason = "";
}

abbrev pub xendit : PaymentProvider
xendit = record {
  info = record { id = "xendit"; display_name = "Xendit" };
  validate_payment_init = λ req. none;
  create_payment_intent = λ h req. answer (record {
    provider_transaction_id = "x-9";
    payment_url = "https://pay.example/1";
    qr_code_data = "";
    expires_at = 5000;
  });
  get_payment_status = λ h id. answer (record {
    provider_tx_id = id;
    status = PaymentStatus.success;
    amount = pos 15000;
    currency_code = "IDR";
    failure_reason = "";
  });
  sync_transaction_status = λ h tx. answer (
      some (record {
        provider_tx_id = tx.provider_tx_id;
        payment_status = SyncPaymentStatus.paid;
        refund_status = SyncRefundStatus.none;
        raw_payment_status = "SUCCEEDED";
        raw_refund_status = "";
        refund_amount = pos 0;
        refund_currency_code = "";
        message = "";
      }));
  validate_webhook_signature =
      λ payload headers. elim headers [ [] ↦ some (failure "missing token") | _ ↦ none ];
  handle_webhook = λ h payload headers. answer report;
  refund_payment = λ h id tx_id amount currency. none;
  cancel_payment = λ h tx reason. answer (
      some (record {
        status = CancelStatus.canceled;
        provider_status = "VOIDED";
        provider_tx_id = tx.provider_tx_id;
        message = "";
        failure_reason = "";
        retryable = false;
        raw_payment_status = "";
        raw_provider_status = "";
      }));
}

-- A provider that does not pay back.
abbrev pub stingy : PaymentProvider
stingy = record xendit { refund_payment = λ h id tx_id amount currency. some (failure "no funds") }

abbrev pub config : Config
config = record {
  ab_namespace = "game";
  public_base_url = "https://shop.example";
  base_path = "/payment";
  payment_expiry_default = 900;
  record_retention_days = pos 30;
  max_concurrent_intent_per_user = pos 3;
  public_sync_cooldown = pos 5;
  public_sync_default_page_size = pos 10;
  public_sync_max_page_size = pos 20;
  max_retries = pos 3;
  webhook_force_error = false;
}

abbrev pub granting : ItemFulfiller
granting h user_id item_id order_no quantity = none

abbrev pub failing : ItemFulfiller
failing h user_id item_id order_no quantity = some "AGS is down"

abbrev pub reverser : FulfillmentReverser
reverser = record { reverse_fulfillment = λ h tx. none; item_fulfiller = some granting }

-- The clock shows one more with every call to the outside.
abbrev pub env : Env
env = record {
  cfg = config;
  registry = ("xendit", xendit) ∷ [];
  fulfiller = granting;
  reverser = some reverser;
  clock = λ w. 100 + length w.history;
  status_text = λ code message. message;
  bearer_user_id = λ token. "";
}
