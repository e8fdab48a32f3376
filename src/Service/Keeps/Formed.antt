-- ===== src/Service/Keeps/Formed.antt =====
-- The invariant of the store as a property that the services keep.
use extend_regional_payment.Prelude.{refl, subst}
use extend_regional_payment.Store.Rows.{reset_to_pending_row}
use extend_regional_payment.Service.Keeps.Orders.{OrderKeeper}
use extend_regional_payment.Store.Ops.{
  create, delete, on, step, reset_to_pending, row_after, as_row,
}
use extend_regional_payment.Store.Invariant.{IsWellFormed, step-IsWellFormed}
use extend_regional_payment.Service.Keeps.{Keeper, ResetKeeper, on_row-effect}

pub IsWellFormed-keeper : Keeper IsWellFormed
unfolding step
IsWellFormed-keeper = record { row = λ id o now s _ v. step-IsWellFormed (on id o now) s v }

pub IsWellFormed-reset_keeper : ResetKeeper IsWellFormed
unfolding step row_after
IsWellFormed-reset_keeper = record {
  reset = λ id now s v.
      subst IsWellFormed
        (on_row-effect (as_row reset_to_pending now) (reset_to_pending_row now) id s (λ _. refl))
        (step-IsWellFormed (on id reset_to_pending now) s v);
}

pub IsWellFormed-order_keeper : OrderKeeper IsWellFormed (λ id. Unit {0})
unfolding step
IsWellFormed-order_keeper = record {
  create = λ tx s _ v. step-IsWellFormed (create tx) s v;
  remove = λ id s _ v. step-IsWellFormed (delete id) s v;
}
