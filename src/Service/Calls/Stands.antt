-- ===== src/Service/Calls/Stands.antt =====
-- What holds of one transaction and no operation on a document ends, holds after any calls.
use extend_regional_payment.Prelude.Int.{ℤ}
use extend_regional_payment.Service.Payment.Item.{Shop}
use extend_regional_payment.Service.Keeps.Orders.{OrderKeeper}
use extend_regional_payment.Prelude.{
  Option-cases, ◌≢◌, String, ◌==◌, ◌≡◌, some, refl, inl, inr, arith, List, subst,
}
use extend_regional_payment.Prelude.{Bool-cases, eq_iff}
use extend_regional_payment.Prelude.Table.{lookup, lookup-insert, lookup-erase}
use extend_regional_payment.Model.{Time, Transaction}
use extend_regional_payment.Store.Rows.{reset_to_pending_row}
use extend_regional_payment.Store.Memory.{Store, on_row, create_transaction, by_client_order_id}
use extend_regional_payment.Store.Laws.{lookup-on_row, create-fresh, create-duplicate}
use extend_regional_payment.Store.Ops.{RowOp, row_after, as_row, reset_to_pending}
use extend_regional_payment.Service.World.{World, Env}
use extend_regional_payment.Service.Keeps.{Keeper, ResetKeeper, on_row-effect}
use extend_regional_payment.Service.Calls.{Call, serve_all}
use extend_regional_payment.Service.Calls.Invariant.{keep-serve_all}

-- There is a transaction under k, and Q holds of it.
abbrev pub Stands : (Transaction → Type 0) → String → Store → Type 0
Stands Q k s = (tx : Transaction) × (lookup k s ≡ some tx) × Q tx

module _ (Q : Transaction → Type 0) (k : String)
    (keeps : (o : RowOp) (now : Time) (tx : Transaction) → Q tx → Q (row_after o now tx)) where
  on_row-Stands :
      (id : String) (o : RowOp) (now : Time) (s : Store)
      → Stands Q k s
      → Stands Q k (on_row id (as_row o now) s).1
  on_row-Stands id o now s (tx, e, q) = elim (Bool-cases (id == k)) [
    | inl same ↦ (
      row_after o now tx,
      ground (arith, lookup-on_row (as_row o now) s k id, eq_iff id k),
      keeps o now tx q,
    )
    | inr other ↦ (tx, ground (arith, lookup-on_row (as_row o now) s k id), q)
  ]

  Stands-keeper : Keeper (Stands Q k)
  Stands-keeper = record { row = λ id o now s _ h. on_row-Stands id o now s h }

  Stands-reset_keeper : ResetKeeper (Stands Q k)
  unfolding row_after
  Stands-reset_keeper = record {
    reset = λ id now s h.
        subst (Stands Q k)
          (on_row-effect (as_row reset_to_pending now) (reset_to_pending_row now) id s (λ _. refl))
          (on_row-Stands id reset_to_pending now s h);
  }

  -- Neither the insertion nor the removal of another transaction ends it.
  create-Stands :
      (tx : Transaction) (s : Store)
      → tx.id ≢ k
      → Stands Q k s
      → Stands Q k (create_transaction tx s).1
  create-Stands tx s other (u, e, q) =
      elim (Option-cases (by_client_order_id tx.client_order_id s)) [
        | inl new ↦ (
          u,
          ground (arith, create-fresh tx s new, lookup-insert k tx.id tx s, eq_iff tx.id k),
          q,
        )
        | inr (v, known) ↦ (u, ground (arith, create-duplicate tx v s known), q)
      ]

  Stands-order_keeper : OrderKeeper (Stands Q k) (λ id. id ≢ k)
  Stands-order_keeper = record {
    create = λ tx s other h. create-Stands tx s other h;
    remove = λ id s other (u, e, q). (u, ground (arith, lookup-erase k id s, eq_iff id k), q);
  }

  pub serve_all-Stands :
      (env : Env) (decimal : ℤ → String) (shop : Shop) (cs : List Call) (w : World)
      → ((v : World) → shop.new_uuid v ≢ k)
      → Stands Q k w.store
      → Stands Q k (serve_all env decimal shop cs w).store
  serve_all-Stands env decimal shop cs w new =
      keep-serve_all Stands-keeper Stands-reset_keeper Stands-order_keeper env decimal shop new cs w
