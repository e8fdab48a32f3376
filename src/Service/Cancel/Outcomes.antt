-- ===== src/Service/Cancel/Outcomes.antt =====
-- What a cancellation ends in, and that the two versions of it agree.
use extend_regional_payment.Adapter.Provider.{PaymentProvider, get}
use extend_regional_payment.Prelude.{
  String, ◌==◌, ◌≡◌, ◌≢◌, ◌⊎◌, some, none, true, false, refl, arith, eq_refl,
}
use extend_regional_payment.Prelude.Table.{lookup}
use extend_regional_payment.Prelude.Text.{trim_space}
use extend_regional_payment.Model.{Status, Transaction, same_status}
use extend_regional_payment.Store.Laws.{field_at}
use extend_regional_payment.Adapter.Types.{answer, CancelResult, CancelStatus}
use extend_regional_payment.Service.World.{World, Env}
use extend_regional_payment.Service.Reply.{is_response, reply, Reply}
use extend_regional_payment.Model.{same_status}
use extend_regional_payment.Service.Handler.{next, Context, user_id_from_context}
use extend_regional_payment.Service.Sync.{sync_transaction}
use extend_regional_payment.Service.Cancel.{
  cancel_pending_transaction, CancelTransactionResponse, settle_cancel, cancel_at_provider,
  cancel_pending, or_default,
}
use extend_regional_payment.Service.Public.{cancel_my_transaction, CancelTransactionRequest}

-- CancelMyTransaction, after its own tests, is cancelPendingTransaction with a callback that syncs a
-- transaction that the provider reports as paid: for a user who is known and a transaction of this
-- user in the named namespace, the two give the same reply and leave the same world.
pub cancel_my_transaction-cancel_pending :
    (env : Env) (ctx : Context) (req : CancelTransactionRequest) (w : World) (u : Transaction)
    → lookup req.transaction_id w.store ≡ some u
    → user_id_from_context env ctx ≡ some u.user_id
    → req.namespace ≡ u.namespace
    → (trim_space req.namespace == "") ≡ false
    → (trim_space req.transaction_id == "") ≡ false
    → cancel_my_transaction env ctx req w
      ≡ cancel_pending_transaction env u req.reason
          (some (λ v. (tt, (sync_transaction env u v).1)))
          w
unfolding cancel_my_transaction cancel_pending_transaction
cancel_my_transaction-cancel_pending env ctx req w u found user space named id =
    grind (arith, eq_refl)

module _ (env : Env) (u : Transaction) (reason : String) (w : World) where
  -- The provider of u answers a cancellation for this reason with this status.
  abbrev pub Answers : CancelStatus → Type 0
  Answers status =
      (prov : PaymentProvider) × (result : CancelResult) × (get u.provider_id env.registry
        ≡ some prov)
      × (prov.cancel_payment w.history u reason ≡ answer (some result))
      × (result.status ≡ status)

  abbrev pub Canceled : World → Type 0
  Canceled w' =
      (field_at (λ t. t.status) u.id w'.store ≡ some Status.canceled)
      × (((u.provider_tx_id == "") ≡ true) ⊎ Answers CancelStatus.canceled)

  abbrev pub Expired : World → Type 0
  Expired w' =
      (field_at (λ t. t.status) u.id w'.store ≡ some Status.expired)
      × ((u.provider_tx_id == "") ≡ false)
      × Answers CancelStatus.expired

  -- u is with a provider, which answers neither.
  abbrev pub Held : Type 0
  Held =
      ((u.provider_tx_id == "") ≡ false)
      × (¬ Answers CancelStatus.canceled)
      × (¬ Answers CancelStatus.expired)

  -- A reply and a world after the cancellation of a pending u from w.
  abbrev pub Ended : Reply CancelTransactionResponse × World → Type 0
  Ended (reply', w') =
      ((is_response reply' ≡ false) × (w'.store ≡ w.store) × Held)
      ⊎ ((is_response reply' ≡ true) × (Canceled w' ⊎ Expired w'))

  -- What the part after the provider's answer starts from.
  abbrev Asked : World → Type 0
  Asked v =
      (v.store ≡ w.store)
      × (lookup u.id w.store ≡ some u)
      × (u.status ≡ Status.pending)
      × ((u.provider_tx_id == "") ≡ false)

  -- What asking the provider comes to.
  abbrev AnsweredAs : Reply CancelResult × World → Type 0
  AnsweredAs (reply', v) =
      (v.store ≡ w.store)
      × (((is_response reply' ≡ false) × ((s : CancelStatus) → ¬ Answers s))
          ⊎ ((result : CancelResult) × (reply' ≡ reply result) × Answers result.status))

  attached :
      (u.provider_tx_id == "") ≡ false
      → cancel_pending env u reason none w
        ≡ next
            (cancel_at_provider env u reason w)
            (λ result. settle_cancel env u reason none result result.status)
  unfolding cancel_pending
  attached e = rw e refl

-- The reason of a cancellation, or the text that stands for none.
abbrev pub told : String → String
told reason = or_default (trim_space reason) "user canceled transaction"

module _ (env : Env) (u : Transaction) (reason : String) (w : World) where
  -- All outcomes: u was canceled before and nothing is done; u is in another state and it is refused;
  -- or u was pending.
  abbrev pub Settlement : Reply CancelTransactionResponse × World → Type 0
  Settlement (reply', w') =
      ((u.status ≡ Status.canceled) × (is_response reply' ≡ true) × (w' ≡ w))
      ⊎ (((u.status ≢ Status.canceled)
            × (u.status ≢ Status.pending)
            × (is_response reply' ≡ false)
            × (w' ≡ w))
          ⊎ ((u.status ≡ Status.pending) × Ended env u (told reason) w (reply', w')))
