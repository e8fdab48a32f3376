-- ===== src/Store/Laws.antt =====
-- What an operation on one document leaves under each key, and what it returns.

use extend_regional_payment.Prelude.{String, ◌==◌, ◌≡◌, Option, none, some, arith, inl, inr}
use extend_regional_payment.Prelude.{eq_iff, eq_refl, if◌then◌else◌, Option-cases}
use extend_regional_payment.Prelude.Table.{lookup, lookup-update, update, insert, update_self}
use extend_regional_payment.Model.{Transaction}
use extend_regional_payment.Store.Types.{Result, err, not_found, ok, duplicate_client_order_id}
use extend_regional_payment.Store.Rows.{Row}
use extend_regional_payment.Store.Memory.{Store, on_row, create_transaction, by_client_order_id}

abbrev pub row_result : {A : Type 0} → Row A → Option Transaction → Result A
row_result row none = err not_found
row_result row (some tx) = (row tx).0

abbrev pub row_effect : {A : Type 0} → Row A → Option Transaction → Option Transaction
row_effect row none = none
row_effect row (some tx) = some (row tx).1

module _ {A : Type 0} (row : Row A) (s : Store) where
  pub result-on_row : (k : String) → (on_row k row s).0 ≡ row_result row (lookup k s)
  unfolding on_row
  result-on_row k = ground arith

  -- The addressed document is transformed, and no other.
  pub lookup-on_row :
      (j k : String)
      → lookup j (on_row k row s).1 ≡ (if k == j then row_effect row (lookup k s) else lookup j s)
  unfolding on_row
  lookup-on_row j k = elim (Option-cases (lookup k s)) [
    | inl e ↦ rw (e, on_row) (ground (arith, eq_iff k j))
    | inr (tx, e) ↦ rw (e, on_row) (lookup-update j k (row tx).1 tx s e)
  ]

-- What an operation on a document returns and leaves, for proofs about the code around it.
pub ruleset row_laws = (arith, lookup-on_row, result-on_row, eq_refl)

-- The two outcomes as equations.
pub on_row-missing :
    {A : Type 0} (row : Row A) (s : Store) (k : String)
    → lookup k s ≡ none
    → on_row k row s ≡ (err not_found, s)
unfolding on_row
on_row-missing row s k e = ground arith

pub on_row-found :
    {A : Type 0} (row : Row A) (s : Store) (k : String) (tx : Transaction)
    → lookup k s ≡ some tx
    → on_row k row s ≡ ((row tx).0, update k (row tx).1 s)
unfolding on_row
on_row-found row s k tx e = ground arith

pub create-fresh :
    (tx : Transaction) (s : Store)
    → by_client_order_id tx.client_order_id s ≡ none
    → create_transaction tx s ≡ (ok tt, insert tx.id tx s)
unfolding create_transaction
create-fresh tx s e = ground arith

pub create-duplicate :
    (tx u : Transaction) (s : Store)
    → by_client_order_id tx.client_order_id s ≡ some u
    → create_transaction tx s ≡ (err duplicate_client_order_id, s)
unfolding create_transaction
create-duplicate tx u s e = ground arith

abbrev pub map_option {ℓ κ} : {A : Type ℓ} {B : Type κ} → (A → B) → Option A → Option B
map_option f none = none
map_option f (some a) = some (f a)

-- A field of the transaction under a key, if there is one.
abbrev pub field_at : {B : Type 0} → (Transaction → B) → String → Store → Option B
field_at f k s = map_option f (lookup k s)

-- An operation that leaves its document as it is changes nothing.
pub on_row_unchanged :
    {A : Type 0} (row : Row A) (s : Store) (k : String) (tx : Transaction)
    → lookup k s ≡ some tx
    → (row tx).1 ≡ tx
    → (on_row k row s).1 ≡ s
on_row_unchanged row s k tx e same = ground (arith, on_row-found row s k tx e, update_self k tx s)
