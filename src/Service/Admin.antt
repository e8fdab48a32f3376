-- ===== src/Service/Admin.antt =====
-- pkg/service/admin.go: listing, detail, refund and sync for administrators.
pub mod Retry
use extend_regional_payment.Prelude.{String, ◌<>◌, ◌==◌, Bool, true, not, ◌&&◌}
use extend_regional_payment.Prelude.{Option, none, some, List, [], ◌∷◌, map, if◌then◌else◌}
use extend_regional_payment.Prelude.Int.{ℤ, pos, leb_ℤ, ltb_ℤ}
use extend_regional_payment.Prelude.Text.{trim_space}
use extend_regional_payment.Model.{Refund, Transaction}
use extend_regional_payment.Store.Types.{StoreError, Result, ok, err}
use extend_regional_payment.Store.Memory.{
  atomic_claim_refunding, mark_refund_failed, mark_refund_provider_succeeded,
}
use extend_regional_payment.Store.Listing.{list_transactions}
use extend_regional_payment.Adapter.Types.{
  AdapterError, Answer, answer, error, adapter_error_text, ProviderPaymentStatus, payment_text,
}
use extend_regional_payment.Adapter.Effects.{refund_payment, poll_payment}
use extend_regional_payment.Adapter.Provider.{PaymentProvider, get}
use extend_regional_payment.Service.World.{Env, on_store, read, call, now, succeeded}
use extend_regional_payment.Service.Reply.{
  Code, failed_precondition, internal, invalid_argument, TransactionStatus, status_filter_string,
  TransactionResponse, tx_to_transaction_response,
}
use extend_regional_payment.Service.Handler.{
  Handler, ◌>>=◌, ◌>>◌, done, reject, lift, refuse_if, load,
}
use extend_regional_payment.Service.Refund.{reverse_ags_refund}
use extend_regional_payment.Service.Sync.{SyncTransactionResult, sync_transaction}

pub record ListTransactionsRequest : Type 0 where
  pub namespace : String
  pub user_id : String
  pub status_filter : TransactionStatus
  pub provider_id : String
  pub search : String
  pub page_size : ℤ
  pub cursor : String

pub record ListTransactionsResponse : Type 0 where
  pub transactions : List TransactionResponse
  pub next_cursor : String

unfoldable pub list : ListTransactionsRequest → Handler ListTransactionsResponse
list req = do
  page ← lift (
      read (
        list_transactions (record {
          namespace = req.namespace;
          user_id = req.user_id;
          status_filter = status_filter_string req.status_filter;
          status_filters = [];
          provider_id = req.provider_id;
          search = trim_space req.search;
          page_size = req.page_size;
          cursor = req.cursor;
        })))
  done (record { transactions = map tx_to_transaction_response page.0; next_cursor = page.1 })

-- A request that names a transaction and, unless it is empty, the namespace that it must be in.
pub record TransactionRequest : Type 0 where
  pub namespace : String
  pub transaction_id : String

abbrev in_namespace : String → Transaction → Handler (Unit {0})
in_namespace namespace tx =
    refuse_if (not (namespace == "") && not (tx.namespace == namespace)) Code.not_found
      "transaction not found in namespace"

with_polled : TransactionResponse → Answer ProviderPaymentStatus → TransactionResponse
with_polled resp (error _) = resp
with_polled resp (answer ps) = record resp { provider_status = payment_text ps.status }

unfoldable pub poll_provider :
    Transaction → TransactionResponse → Option PaymentProvider → Handler TransactionResponse
unfolding with_polled
poll_provider tx resp none = done resp
poll_provider tx resp (some prov) = do
  ps ← lift (
      call (λ h. prov.get_payment_status h tx.provider_tx_id) (λ _. poll_payment tx.provider_tx_id))
  done (with_polled resp ps)

unfoldable pub get_transaction_detail : Env → TransactionRequest → Handler TransactionResponse
unfolding poll_provider
get_transaction_detail env req = do
  tx ← load req.transaction_id
  in_namespace req.namespace tx
  let polled = poll_provider tx (tx_to_transaction_response tx) (get tx.provider_id env.registry)
  if tx.provider_tx_id == "" then done (tx_to_transaction_response tx) else polled

pub record RefundRequest : Type 0 where
  pub namespace : String
  pub transaction_id : String
  pub reason : String

pub record RefundResponse : Type 0 where
  pub transaction_id : String
  pub success : Bool

refund_claim : Result Transaction → Handler Transaction
refund_claim (ok tx) = done tx
refund_claim (err StoreError.no_documents) =
    reject failed_precondition
      "transaction is not eligible for refund (not FULFILLED, or already REFUNDING/REFUNDED)"
refund_claim (err _) = reject internal "failed to claim refund"

-- MarkRefundFailed, whose error is only logged, and the reply.
refund_fails : {A : Type 0} → Env → Transaction → String → String → Handler A
refund_fails env tx reason message = do
  t ← lift (now env)
  lift (on_store (mark_refund_failed tx.id reason t))
  reject internal message

refund_provider : Env → Transaction → Option PaymentProvider → Handler PaymentProvider
unfolding refund_fails
refund_provider env tx none =
    refund_fails env tx ("unknown provider: " <> tx.provider_id)
      ("unknown provider: " <> tx.provider_id)
refund_provider env tx (some prov) = done prov

-- `tx.Refund == nil || !tx.Refund.ProviderRefunded`
abbrev pub needs_provider_refund : Option Refund → Bool
needs_provider_refund none = true
needs_provider_refund (some r) = not r.provider_refunded

provider_marked : Result (Unit {0}) → Handler (Unit {0})
provider_marked (ok _) = done tt
provider_marked (err _) = reject internal "failed to persist provider refund status"

provider_refunded : Env → Transaction → Option AdapterError → Handler (Unit {0})
unfolding refund_fails provider_marked
provider_refunded env tx (some e) =
    refund_fails env tx ("provider refund failed: " <> adapter_error_text e)
      ("provider refund failed: " <> adapter_error_text e)
provider_refunded env tx none = do
  t ← lift (now env)
  result ← lift (on_store (mark_refund_provider_succeeded tx.id t))
  provider_marked result

-- Step 2: the provider's refund, unless an earlier attempt had it done.
unfoldable pub refund_at_provider : Env → Transaction → PaymentProvider → Handler (Unit {0})
unfolding provider_refunded
refund_at_provider env tx prov =
    let ask : Handler (Unit {0}) = do
      e ← lift (
          call (λ h. prov.refund_payment h tx.id tx.provider_tx_id tx.amount tx.currency_code)
            (λ e. refund_payment tx.id tx.provider_tx_id tx.amount tx.currency_code (succeeded e)))
      provider_refunded env tx e
    in if needs_provider_refund tx.refund then ask else done tt

in_named_namespace : RefundRequest → Handler (Unit {0})
in_named_namespace req =
    let check : Handler (Unit {0}) = do
      tx ← load req.transaction_id
      refuse_if (not (tx.namespace == req.namespace)) Code.not_found
          "transaction not found in namespace"
    in if req.namespace == "" then done tt else check

unfoldable pub refund : Env → RefundRequest → Handler RefundResponse
unfolding in_named_namespace refund_claim refund_provider
refund env req = do
  in_named_namespace req
  t ← lift (now env)
  claimed ← lift (on_store (atomic_claim_refunding req.transaction_id req.reason t))
  tx ← refund_claim claimed
  prov ← refund_provider env tx (get tx.provider_id env.registry)
  refund_at_provider env tx prov
  reverse_ags_refund env env.reverser tx
  done (record { transaction_id = tx.id; success = true })

unfoldable pub admin_sync_transaction : Env → TransactionRequest → Handler SyncTransactionResult
admin_sync_transaction env req = do
  refuse_if (trim_space req.transaction_id == "") invalid_argument "transaction_id is required"
  tx ← load req.transaction_id
  in_namespace req.namespace tx
  lift (sync_transaction env tx)

pub record SyncTransactionsRequest : Type 0 where
  pub namespace : String
  pub provider_id : String
  pub status_filter : TransactionStatus
  pub page_size : ℤ
  pub cursor : String

pub record SyncTransactionsResponse : Type 0 where
  pub results : List SyncTransactionResult
  pub next_cursor : String

-- `for _, tx := range txns { results = append(results, syncTransaction(ctx, tx)) }`
unfoldable pub sync_all : Env → List Transaction → Handler (List SyncTransactionResult)
sync_all env [] = done []
sync_all env (tx ∷ txs) = do
  result ← lift (sync_transaction env tx)
  results ← sync_all env txs
  done (result ∷ results)

-- A page size of at most the maximum, or the default where none is asked for.
abbrev pub bounded_page_size : ℤ → ℤ → ℤ → ℤ
bounded_page_size default max asked =
    let size = if leb_ℤ asked (pos 0) then default else asked in
    if ltb_ℤ max size then max else size

unfoldable pub admin_sync_transactions :
    Env → SyncTransactionsRequest → Handler SyncTransactionsResponse
admin_sync_transactions env req = do
  refuse_if (trim_space req.namespace == "") invalid_argument "namespace is required"
  page ← lift (
      read (
        list_transactions (record {
          namespace = req.namespace;
          user_id = "";
          status_filter = status_filter_string req.status_filter;
          status_filters = [];
          provider_id = req.provider_id;
          search = "";
          page_size = bounded_page_size (pos 20) (pos 100) req.page_size;
          cursor = req.cursor;
        })))
  results ← sync_all env page.0
  done (record { results = results; next_cursor = page.1 })
