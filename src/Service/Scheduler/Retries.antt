-- ===== src/Service/Scheduler/Retries.antt =====
-- recoverFulfilling: one more attempt at a grant, and the bound on the attempts.
use extend_regional_payment.Prelude.{
  String, ◌≡◌, ◌⊎◌, inl, inr, some, none, true, false, Option-cases, Bool-cases, ◌++◌, [], ◌∷◌,
  ◌<>◌,
}
use extend_regional_payment.Prelude.Int.{pos, ◌+ℤ◌, to_int32, leb_ℤ}
use extend_regional_payment.Prelude.Table.{lookup}
use extend_regional_payment.Model.{Status, Transaction}
use extend_regional_payment.Store.Rows.{
  commit_fulfilled_row, mark_failed_row, increment_retries_row,
}
use extend_regional_payment.Store.Laws.{row_laws, field_at}
use extend_regional_payment.Adapter.Effects.{fulfill_item, notify}
use extend_regional_payment.Service.World.{World, Env}
use extend_regional_payment.Service.Scheduler.{recover_fulfilling}

module _ (env : Env) (w : World) (k : String) (u : Transaction) (found : lookup k w.store ≡ some u)
    (own : u.id ≡ k) where
  -- For a transaction that is stuck in FULFILLING, the job calls FulfillUserItem once more. If AGS
  -- grants the item, the transaction becomes FULFILLED and the player is told; if AGS fails and
  -- the retries have reached the configured maximum, it becomes FAILED with the error and the player
  -- is told; otherwise its retries are counted up and its status stays.
  pub recover_fulfilling-outcomes :
      let w' = (recover_fulfilling env u w).1 in
      let ags = env.fulfiller w.history u.user_id u.item_id u.id u.quantity in
      let entry = fulfill_item u.user_id u.item_id u.id u.quantity in
      ((ags ≡ none)
        × (field_at (λ t. t.status) k w'.store ≡ some Status.fulfilled)
        × (w'.history
            ≡ (w.history ++ (entry true ∷ []))
              ++ (notify u.user_id u.id "FULFILLED" u.item_id ∷ [])))
      ⊎ ((e : String) × (ags ≡ some e)
          × (((leb_ℤ (to_int32 env.cfg.max_retries) u.retries ≡ true)
                × (field_at (λ t. t.status) k w'.store ≡ some Status.failed)
                × (field_at (λ t. t.failure_reason) k w'.store
                    ≡ some ("max retries exceeded: " <> e))
                × (w'.history
                    ≡ (w.history ++ (entry false ∷ []))
                      ++ (notify u.user_id u.id "FAILED" u.item_id ∷ [])))
              ⊎ ((leb_ℤ (to_int32 env.cfg.max_retries) u.retries ≡ false)
                  × (field_at (λ t. t.status) k w'.store ≡ some u.status)
                  × (field_at (λ t. t.retries) k w'.store ≡ some (to_int32 (u.retries +ℤ pos 1)))
                  × (w'.history ≡ w.history ++ (entry false ∷ [])))))
  unfolding recover_fulfilling commit_fulfilled_row mark_failed_row increment_retries_row
  recover_fulfilling-outcomes =
      elim (Option-cases (env.fulfiller w.history u.user_id u.item_id u.id u.quantity)) [
        | inl f ↦ inl (f, grind row_laws, grind row_laws)
        | inr (e, f) ↦ elim (Bool-cases (leb_ℤ (to_int32 env.cfg.max_retries) u.retries)) [
          | inl b ↦ inr (e, f, inl (b, grind row_laws, grind row_laws, grind row_laws))
          | inr b ↦ inr (e, f, inr (b, grind row_laws, grind row_laws, grind row_laws))
        ]
      ]
