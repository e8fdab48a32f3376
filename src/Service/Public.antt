-- ===== src/Service/Public.antt =====
-- pkg/service/public.go: sync and cancellation for players, and the cooldown of the sync.
pub mod Cooldown
use extend_regional_payment.Prelude.{ℕ, zero, suc, ◌+◌, String, ◌<>◌, ◌==◌, Bool, false, not, ◌||◌}
use extend_regional_payment.Prelude.{Option, none, some, [], ◌∷◌, ltb, if◌then◌else◌}
use extend_regional_payment.Prelude.Int.{ℤ, pos, negsuc, leb_ℤ}
use extend_regional_payment.Prelude.Text.{trim_space}
use extend_regional_payment.Prelude.Table.{lookup, insert}
use extend_regional_payment.Model.{Time, Status, Transaction, same_status, text}
use extend_regional_payment.Store.Listing.{list_transactions}
use extend_regional_payment.Adapter.Types.{CancelStatus, CancelResult}
use extend_regional_payment.Service.World.{Config, Env, read, now}
use extend_regional_payment.Service.Reply.{
  Code, resource_exhausted, failed_precondition, invalid_argument, unavailable, reply, fail,
}
use extend_regional_payment.Service.Handler.{
  Handler, Context, ◌>>=◌, ◌>>◌, done, reject, lift, refuse_if, require_user, load,
}
use extend_regional_payment.Service.Cancel.{
  CancelTransactionResponse, canceled_response, or_default, cancel_at_provider,
  mark_canceled_transaction, mark_expired_transaction, provider_status_of, cancel_failed_message,
}
use extend_regional_payment.Service.Sync.{SyncTransactionResult, sync_transaction}
use extend_regional_payment.Service.Admin.{SyncTransactionsResponse, sync_all, bounded_page_size}

-- A configured duration of zero is the default of 60 seconds.
unfoldable pub cooldown_duration : Config → ℤ
cooldown_duration cfg = elim cfg.public_sync_cooldown [
  | pos zero ↦ pos 60_000_000_000
  | pos (suc n) ↦ pos (suc n)
  | negsuc n ↦ negsuc n
]

abbrev pub cooldown_key : String → String → String → String
cooldown_key namespace user_id provider =
    namespace <> "|" <> user_id <> "|" <> (if provider == "" then "*" else provider)

-- `last, ok := lastSeen[key]; ok && now.Sub(last) < cooldown`
abbrev pub is_cooling : Option Time → ℕ → Time → Bool
is_cooling none cooldown t = false
is_cooling (some last) cooldown t = ltb t (last + cooldown)

claim_key : String → ℕ → Time → Handler (Unit {0})
claim_key key cooldown t w =
    if is_cooling (lookup key w.last_seen) cooldown t
    then (fail resource_exhausted "public sync cooldown is active", w)
    else (reply tt, record w { last_seen = insert key t w.last_seen })

claim_for : Env → ℤ → String → Handler (Unit {0})
unfolding claim_key
claim_for env (negsuc n) key = done tt
claim_for env (pos cooldown) key = do t ← lift (now env); claim_key key cooldown t

unfoldable pub claim_cooldown : Env → String → String → String → Handler (Unit {0})
unfolding claim_for
claim_cooldown env namespace user_id provider =
    claim_for env (cooldown_duration env.cfg) (cooldown_key namespace user_id provider)

pub record PublicTransactionRequest : Type 0 where
  pub namespace : String
  pub transaction_id : String

-- The transaction of another user or namespace is reported as missing.
abbrev owned : String → String → Transaction → Handler (Unit {0})
owned namespace user_id tx =
    refuse_if (not (tx.namespace == namespace) || not (tx.user_id == user_id)) Code.not_found
      "transaction not found"

unfoldable pub sync_my_transaction :
    Env → Context → PublicTransactionRequest → Handler SyncTransactionResult
sync_my_transaction env ctx req = do
  user_id ← require_user env ctx
  refuse_if (trim_space req.namespace == "") invalid_argument "namespace is required"
  refuse_if (trim_space req.transaction_id == "") invalid_argument "transaction_id is required"
  tx ← load req.transaction_id
  owned req.namespace user_id tx
  claim_cooldown env req.namespace user_id tx.provider_id
  lift (sync_transaction env tx)

unfoldable pub default_page_size : Config → ℤ
default_page_size cfg =
    if leb_ℤ cfg.public_sync_default_page_size (pos 0)
    then pos 10
    else cfg.public_sync_default_page_size

unfoldable pub max_page_size : Config → ℤ
max_page_size cfg =
    if leb_ℤ cfg.public_sync_max_page_size (pos 0) then pos 20 else cfg.public_sync_max_page_size

pub record PublicSyncTransactionsRequest : Type 0 where
  pub namespace : String
  pub provider_id : String
  pub page_size : ℤ
  pub cursor : String

unfoldable pub sync_my_transactions :
    Env → Context → PublicSyncTransactionsRequest → Handler SyncTransactionsResponse
unfolding default_page_size max_page_size
sync_my_transactions env ctx req = do
  user_id ← require_user env ctx
  refuse_if (trim_space req.namespace == "") invalid_argument "namespace is required"
  claim_cooldown env req.namespace user_id req.provider_id
  page ← lift (
      read (
        list_transactions (record {
          namespace = req.namespace;
          user_id = user_id;
          status_filter = none;
          status_filters = Status.pending ∷ Status.fulfilled ∷ [];
          provider_id = req.provider_id;
          search = "";
          page_size =
              bounded_page_size (default_page_size env.cfg) (max_page_size env.cfg) req.page_size;
          cursor = req.cursor;
        })))
  results ← sync_all env page.0
  done (record { results = results; next_cursor = page.1 })

pub record CancelTransactionRequest : Type 0 where
  pub namespace : String
  pub transaction_id : String
  pub reason : String

abbrev canceled_here : Env → Transaction → String → String → Handler CancelTransactionResponse
canceled_here env tx reason provider_status = do
  updated ← mark_canceled_transaction env tx.id reason provider_status
  done (canceled_response updated "transaction canceled")

-- The switch on the provider's answer.
settle_my_cancel :
    Env → Transaction → String → CancelResult → CancelStatus → Handler CancelTransactionResponse
settle_my_cancel env tx reason result CancelStatus.canceled =
    canceled_here env tx reason (provider_status_of result)
settle_my_cancel env tx reason result CancelStatus.expired = do
  updated ← mark_expired_transaction env tx.id reason (provider_status_of result)
  done (canceled_response updated "transaction already expired at provider")
settle_my_cancel env tx reason result CancelStatus.already_paid = do
  lift (sync_transaction env tx)
  reject failed_precondition "provider reports payment already completed"
settle_my_cancel env tx reason result CancelStatus.pending =
    reject unavailable (or_default result.message "provider cancellation is still pending")
settle_my_cancel env tx reason result CancelStatus.unsupported =
    reject failed_precondition "provider cancellation is not supported for selected payment"
settle_my_cancel env tx reason result _ = reject unavailable (cancel_failed_message result)

cancel_my_pending : Env → Transaction → String → Handler CancelTransactionResponse
unfolding settle_my_cancel
cancel_my_pending env tx reason =
    let at_provider : Handler CancelTransactionResponse = do
      result ← cancel_at_provider env tx reason
      settle_my_cancel env tx reason result result.status
    in if tx.provider_tx_id == "" then canceled_here env tx reason "" else at_provider

unfoldable pub cancel_my_transaction :
    Env → Context → CancelTransactionRequest → Handler CancelTransactionResponse
unfolding cancel_my_pending
cancel_my_transaction env ctx req = do
  user_id ← require_user env ctx
  refuse_if (trim_space req.namespace == "") invalid_argument "namespace is required"
  refuse_if (trim_space req.transaction_id == "") invalid_argument "transaction_id is required"
  tx ← load req.transaction_id
  owned req.namespace user_id tx
  if same_status tx.status Status.canceled
      then done (canceled_response tx "transaction already canceled")
      else if not (same_status tx.status Status.pending)
      then reject failed_precondition
          ("transaction cannot be canceled from status " <> text tx.status)
      else cancel_my_pending env tx (or_default (trim_space req.reason) "user canceled transaction")
