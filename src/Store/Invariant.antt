-- ===== src/Store/Invariant.antt =====
-- The invariant of the in-memory store: one entry for a key, each under its own id, and no two with
-- the same client order id.
use extend_regional_payment.Prelude.{String, ◌==◌, none, some, subst}
use extend_regional_payment.Prelude.{List, [], ◌∷◌, ◌≡◌, refl, sym, ◌∙◌, ◌≢◌, inl, inr, arith}
use extend_regional_payment.Prelude.{eq_iff, Option-cases, Bool-cases}
use extend_regional_payment.Prelude.Table.{
  Table, lookup, insert, update, erase, lookup-insert, lookup-erase,
}
use extend_regional_payment.Model.{Time, Transaction}
use extend_regional_payment.Store.Memory.{Store, empty, by_client_order_id}
use extend_regional_payment.Store.Laws.{
  lookup-on_row, on_row-missing, on_row-found, create-fresh, create-duplicate,
}
use extend_regional_payment.Store.Ops.{
  RowOp, row_after, as_row, Op, create, delete, on, step, run, id-row_after,
  client_order_id-row_after,
}

abbrev pub NodupKeys {ℓ} : {V : Type ℓ} → Table V → Type ℓ
NodupKeys [] = Unit
NodupKeys ((k, v) ∷ m) = (lookup k m ≡ none) × NodupKeys m

pub record IsWellFormed (s : Store) : Type 0 where
  pub nodup : NodupKeys s
  pub keyed : (k : String) (tx : Transaction) → lookup k s ≡ some tx → tx.id ≡ k
  pub orders :
      (j k : String) (t u : Transaction)
      → lookup j s ≡ some t
      → lookup k s ≡ some u
      → t.client_order_id ≡ u.client_order_id
      → j ≡ k

module _ {ℓ} {V : Type ℓ} where
  lookup-update_absent :
      (j k : String) (v : V) (m : Table V) → lookup j m ≡ none → lookup j (update k v m) ≡ none
  unfolding lookup update
  lookup-update_absent j k v [] h = refl
  lookup-update_absent j k v ((i, w) ∷ m) h =
      ground (arith, eq_iff i k, eq_iff i j, lookup-update_absent j k v m)

  insert-NodupKeys : (k : String) (v : V) (m : Table V) → NodupKeys m → NodupKeys (insert k v m)
  unfolding lookup insert
  insert-NodupKeys k v [] u = (refl, tt)
  insert-NodupKeys k v ((i, w) ∷ m) (fresh, u) = elim (Bool-cases (i == k)) [
    | inl e ↦ rw e (rw ((eq_iff i k).0 e) at fresh, u)
    | inr e ↦ rw e (
      rw (lookup-insert i k v m) (ground (arith, eq_iff k i, eq_iff i k)),
      insert-NodupKeys k v m u,
    )
  ]

  update-NodupKeys : (k : String) (v : V) (m : Table V) → NodupKeys m → NodupKeys (update k v m)
  unfolding update
  update-NodupKeys k v [] u = tt
  update-NodupKeys k v ((i, w) ∷ m) (fresh, u) =
      ground (arith, update-NodupKeys k v m u, lookup-update_absent i k v m fresh)

  erase-NodupKeys : (k : String) (m : Table V) → NodupKeys m → NodupKeys (erase k m)
  unfolding erase
  erase-NodupKeys k [] u = tt
  erase-NodupKeys k ((i, w) ∷ m) (fresh, u) =
      ground (arith, erase-NodupKeys k m u, lookup-erase i k m, eq_iff k i)

by_client_order_id-none :
    (order k : String) (t : Transaction) (s : Store)
    → by_client_order_id order s ≡ none
    → lookup k s ≡ some t
    → t.client_order_id ≢ order
unfolding by_client_order_id lookup
by_client_order_id-none order k t [] h e = λ _. cc
by_client_order_id-none order k t ((i, u) ∷ s) h e =
    ground (arith, eq_iff i k, eq_iff u.client_order_id order, by_client_order_id-none order k t s)

pub empty-IsWellFormed : IsWellFormed empty
unfolding lookup
empty-IsWellFormed = record { nodup = tt; keyed = λ k tx e. cc; orders = λ j k t u e f g. cc }

-- What stands under a key stood there before, with the same identity.
abbrev Origin : Store → String → Transaction → Type 0
Origin s j t =
    (t₀ : Transaction) × (lookup j s ≡ some t₀)
    × (t.id ≡ t₀.id)
    × (t.client_order_id ≡ t₀.client_order_id)

on-Origin :
    (id : String) (o : RowOp) (now : Time) (s : Store) (j : String) (t : Transaction)
    → lookup j (step (on id o now) s) ≡ some t
    → Origin s j t
unfolding step
on-Origin id o now s j t e = elim (Bool-cases (id == j)) [
  | inr ne ↦ (t, rw ne at (rw (lookup-on_row (as_row o now) s j id) at e), refl, refl)
  | inl eq ↦ elim (Option-cases (lookup id s)) [
    | inl n ↦
        (t, cc (rw n at (rw eq at (rw (lookup-on_row (as_row o now) s j id) at e))), refl, refl)
    | inr (u, f) ↦
        let g : some (row_after o now u) ≡ some t =
          rw f at (rw eq at (rw (lookup-on_row (as_row o now) s j id) at e)) in
        (
          u,
          rw ((eq_iff id j).0 eq) at f,
          cc (g, id-row_after o now u),
          cc (g, client_order_id-row_after o now u),
        )
  ]
]

delete-Origin :
    (id : String) (s : Store) (j : String) (t : Transaction)
    → lookup j (step (delete id) s) ≡ some t
    → Origin s j t
unfolding step
delete-Origin id s j t e = (t, ground (arith, lookup-erase j id s), refl, refl)

module _ {s : Store} (s' : Store) (v : IsWellFormed s)
    (origin : (j : String) (t : Transaction) → lookup j s' ≡ some t → Origin s j t) where
  origin-keyed : (k : String) (tx : Transaction) → lookup k s' ≡ some tx → tx.id ≡ k
  origin-keyed k tx e = let (t₀, f, i, _) = origin k tx e in i ∙ v.keyed k t₀ f

  origin-orders :
      (j k : String) (t u : Transaction)
      → lookup j s' ≡ some t
      → lookup k s' ≡ some u
      → t.client_order_id ≡ u.client_order_id
      → j ≡ k
  origin-orders j k t u e f same =
      let (t₀, e₀, _, a) = origin j t e in
      let (u₀, f₀, _, b) = origin k u f in v.orders j k t₀ u₀ e₀ f₀ (sym a ∙ same ∙ b)

create-IsWellFormed :
    (tx : Transaction) (s : Store) → IsWellFormed s → IsWellFormed (step (create tx) s)
unfolding step
create-IsWellFormed tx s v = elim (Option-cases (by_client_order_id tx.client_order_id s)) [
  | inr (u, e) ↦ subst (λ r. IsWellFormed r.1) (sym (create-duplicate tx u s e)) v
  | inl e ↦
      subst (λ r. IsWellFormed r.1) (sym (create-fresh tx s e))
        (record {
          nodup = insert-NodupKeys tx.id tx s v.nodup;
          keyed = λ k t f. ground (arith, lookup-insert k tx.id tx s, eq_iff tx.id k, v.keyed k t);
          orders = λ j k t u f g same. ground (
            arith,
            lookup-insert j tx.id tx s,
            lookup-insert k tx.id tx s,
            eq_iff tx.id j,
            eq_iff tx.id k,
            v.orders j k t u,
            by_client_order_id-none tx.client_order_id j t s e,
            by_client_order_id-none tx.client_order_id k u s e,
          );
        })
]

on-NodupKeys :
    (id : String) (o : RowOp) (now : Time) (s : Store)
    → NodupKeys s
    → NodupKeys (step (on id o now) s)
unfolding step
on-NodupKeys id o now s u = elim (Option-cases (lookup id s)) [
  | inl e ↦ subst (λ r. NodupKeys r.1) (sym (on_row-missing (as_row o now) s id e)) u
  | inr (t, e) ↦
      subst (λ r. NodupKeys r.1) (sym (on_row-found (as_row o now) s id t e))
        (update-NodupKeys id (row_after o now t) s u)
]

-- Every writing operation keeps the invariant.
pub step-IsWellFormed : (o : Op) (s : Store) → IsWellFormed s → IsWellFormed (step o s)
step-IsWellFormed (create tx) s v = create-IsWellFormed tx s v
step-IsWellFormed (delete id) s v = record {
  nodup = unfold step in erase-NodupKeys id s v.nodup;
  keyed = origin-keyed _ v (delete-Origin id s);
  orders = origin-orders _ v (delete-Origin id s);
}
step-IsWellFormed (on id o now) s v = record {
  nodup = on-NodupKeys id o now s v.nodup;
  keyed = origin-keyed _ v (on-Origin id o now s);
  orders = origin-orders _ v (on-Origin id o now s);
}

-- After any sequence of operations from a well-formed store, whoever makes them and in whatever
-- order, the store is well formed: one entry under each key, each transaction under its own id, and
-- no two transactions with the same client order id.
pub run-IsWellFormed : (os : List Op) (s : Store) → IsWellFormed s → IsWellFormed (run os s)
unfolding run
run-IsWellFormed [] s v = v
run-IsWellFormed (o ∷ os) s v = run-IsWellFormed os (step o s) (step-IsWellFormed o s v)
