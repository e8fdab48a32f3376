-- ===== src/Service/Sync/Paid.antt =====
-- The whole of a sync whose provider answers without a full refund.
use extend_regional_payment.Store.Memory.{on_row}
use extend_regional_payment.Prelude.{
  eq_iff, refl, sym, String, ◌==◌, ◌≡◌, ◌≢◌, ◌⊎◌, ◌++◌, [], ◌∷◌, some, none, true, false, arith,
  inr, inl, Option-cases, Bool-cases, if◌then◌else◌,
}
use extend_regional_payment.Prelude.Table.{lookup}
use extend_regional_payment.Model.{Time, Status, Transaction}
use extend_regional_payment.Store.Rows.{
  claim_fulfilling_row, commit_fulfilled_row, reset_to_pending_row, update_provider_tx_id_row,
}
use extend_regional_payment.Store.Laws.{row_laws, field_at}
use extend_regional_payment.Adapter.Types.{
  answer, ProviderSyncResult, SyncPaymentStatus, SyncRefundStatus,
}
use extend_regional_payment.Adapter.Effects.{fulfill_item, sync_status}
use extend_regional_payment.Adapter.Provider.{PaymentProvider, get}
use extend_regional_payment.Service.World.{World, Env, ItemFulfiller}
use extend_regional_payment.Service.Sync.{
  sync_transaction, sync_answer, sync_provider_paid, sync_provider_failed, as_fulfiller,
}

-- The provider transaction id that a report leaves: its own, or the stored one where it has none.
abbrev pub reported_id : Transaction → ProviderSyncResult → String
reported_id u r = if r.provider_tx_id == "" then u.provider_tx_id else r.provider_tx_id

module _ (env : Env) (u : Transaction) (w : World) (prov : PaymentProvider) (r : ProviderSyncResult)
    (found : lookup u.id w.store ≡ some u) (given : (u.provider_tx_id == "") ≡ false)
    (known : get u.provider_id env.registry ≡ some prov)
    (said : prov.sync_transaction_status w.history u ≡ answer (some r)) where
  abbrev asked : World
  asked = record w { history = w.history ++ (sync_status u.id ∷ []) }

  by_answer : sync_transaction env u w ≡ sync_answer env u (answer (some r)) asked
  unfolding sync_transaction
  by_answer = ground arith

  -- A sync of a pending transaction with a provider transaction id, whose provider is registered and
  -- reports it as paid and not refunded, asks the provider once and then AGS once, through a reverser
  -- that grants items too, to grant the item to the user in the quantity of the transaction. If AGS
  -- grants it, the transaction is FULFILLED; if AGS refuses, it is PENDING again. Either way it has
  -- the provider transaction id that the provider reported, or its own where none was reported.
  pub sync_transaction-paid :
      (fulfill : ItemFulfiller)
      → u.status ≡ Status.pending
      → r.payment_status ≡ SyncPaymentStatus.paid
      → r.refund_status ≡ SyncRefundStatus.none
      → as_fulfiller env.reverser ≡ some fulfill
      → let w' = (sync_transaction env u w).1 in
        let h = w.history ++ (sync_status u.id ∷ []) in
        let ags = fulfill h u.user_id u.item_id u.id u.quantity in
        let entry = fulfill_item u.user_id u.item_id u.id u.quantity in
        (field_at (λ t. t.provider_tx_id) u.id w'.store ≡ some (reported_id u r))
        × (((ags ≡ none)
              × (w'.history ≡ h ++ (entry true ∷ []))
              × (field_at (λ t. t.status) u.id w'.store ≡ some Status.fulfilled))
            ⊎ ((e : String) × (ags ≡ some e)
                × (w'.history ≡ h ++ (entry false ∷ []))
                × (field_at (λ t. t.status) u.id w'.store ≡ some Status.pending)))
  unfolding sync_answer sync_provider_paid claim_fulfilling_row commit_fulfilled_row
      reset_to_pending_row update_provider_tx_id_row
  sync_transaction-paid fulfill p paid whole able =
      elim (Option-cases
        (fulfill (w.history ++ (sync_status u.id ∷ [])) u.user_id u.item_id u.id u.quantity)) [
          | inl granted ↦ (
            grind (row_laws, by_answer),
            inl (granted, grind (row_laws, by_answer), grind (row_laws, by_answer)),
          )
          | inr (e, refused) ↦ (
            grind (row_laws, by_answer),
            inr (e, refused, grind (row_laws, by_answer), grind (row_laws, by_answer)),
          )
        ]

  -- The world after it, where nothing is synced.
  abbrev Untouched : World → Type 0
  Untouched w' =
      ((reported_id u r ≡ u.provider_tx_id) × (w' ≡ asked))
      ⊎ (w' ≡ record asked {
        store =
            (on_row u.id (update_provider_tx_id_row (reported_id u r) (env.clock asked)) w.store).1;
      })

  sync_answer-Untouched :
      u.status ≢ Status.pending
      → r.refund_status ≢ SyncRefundStatus.refunded
      → Untouched (sync_answer env u (answer (some r)) asked).1
  unfolding sync_answer sync_provider_paid sync_provider_failed
  sync_answer-Untouched settled partly = elim (Bool-cases (reported_id u r == u.provider_tx_id)) [
    | inl same ↦ inl ((eq_iff (reported_id u r) u.provider_tx_id).0 same, ground arith)
    | inr other ↦ inr (ground arith)
  ]

  -- A sync of a transaction that is not pending and has a provider transaction id, whose provider is
  -- registered and reports no full refund, asks the provider once and makes no other call. Whatever
  -- payment the provider reports, it leaves every other transaction as it was, and of this one it
  -- changes at most the provider transaction id, to the one that was reported, and the time of the
  -- update.
  pub sync_transaction-not_pending :
      (k : String)
      → u.status ≢ Status.pending
      → r.refund_status ≢ SyncRefundStatus.refunded
      → let w' = (sync_transaction env u w).1 in
        (w'.history ≡ w.history ++ (sync_status u.id ∷ []))
        × ((t : Time) × (lookup u.id w'.store
              ≡ some (record u { provider_tx_id = reported_id u r; updated_at = t })))
        × ((k ≡ u.id) ⊎ (lookup k w'.store ≡ lookup k w.store))
  unfolding update_provider_tx_id_row
  sync_transaction-not_pending k settled partly = elim (sync_answer-Untouched settled partly) [
    | inl (same, e) ↦ (
      ground (arith, by_answer),
      (u.updated_at, rw by_answer (rw e (rw same found))),
      inr (rw by_answer (rw e refl)),
    )
    | inr e ↦ (
      ground (arith, by_answer),
      (env.clock asked, grind (row_laws, by_answer)),
      elim (Bool-cases (u.id == k)) [
        | inl here ↦ inl (sym ((eq_iff u.id k).0 here))
        | inr there ↦ inr (grind (row_laws, by_answer))
      ],
    )
  ]
