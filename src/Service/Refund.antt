-- ===== src/Service/Refund.antt =====
-- pkg/service/refund.go: the reversal of the AGS grant, shared by all refund paths.
use extend_regional_payment.Prelude.{String, ◌<>◌, Option, none, some}
use extend_regional_payment.Model.{Transaction}
use extend_regional_payment.Store.Types.{Result, ok, err}
use extend_regional_payment.Store.Memory.{mark_refund_failed, commit_refund}
use extend_regional_payment.Adapter.Effects.{reverse_fulfillment}
use extend_regional_payment.Service.World.{
  Env, FulfillmentReverser, M, pure, ◌>>=◌, ◌>>◌, on_store, call, now, succeeded,
}
use extend_regional_payment.Service.Reply.{internal, Reply, reply, fail}

-- An error of MarkRefundFailed is only logged.
refund_failed_as : Env → Transaction → String → Reply (Unit {0}) → M (Reply (Unit {0}))
refund_failed_as env tx reason result = do
  t ← now env
  on_store (mark_refund_failed tx.id reason t)
  pure result

after_commit : Result (Unit {0}) → Reply (Unit {0})
after_commit (ok _) = reply tt
after_commit (err e) = fail internal "failed to commit refund status"

after_reverse : Env → Transaction → Option String → M (Reply (Unit {0}))
unfolding refund_failed_as after_commit
after_reverse env tx (some e) =
    refund_failed_as env tx ("AGS reversal failed after provider refund: " <> e)
      (fail internal ("AGS reversal failed: " <> e))
after_reverse env tx none = do
  t ← now env
  result ← on_store (commit_refund tx.id t)
  pure (after_commit result)

-- The callers pass a transaction that they have claimed, so the test for nil is not reached.
unfoldable pub reverse_ags_refund :
    Env → Option FulfillmentReverser → Transaction → M (Reply (Unit {0}))
unfolding refund_failed_as after_reverse
reverse_ags_refund env none tx =
    refund_failed_as env tx "AGS reversal failed after provider refund: reverser is not configured"
      (fail internal "AGS reversal failed: reverser is not configured")
reverse_ags_refund env (some reverser) tx = do
  reverse_err ←
      call (λ h. reverser.reverse_fulfillment h tx) (λ e. reverse_fulfillment tx.id (succeeded e))
  after_reverse env tx reverse_err
