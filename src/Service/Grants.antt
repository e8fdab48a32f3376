-- ===== src/Service/Grants.antt =====
-- How often the item of an order was granted, by the history of calls to AGS.
use extend_regional_payment.Prelude.{
  ℕ, suc, String, ◌==◌, Bool, true, false, [], ◌∷◌, ◌++◌, ◌≡◌, arith,
}
use extend_regional_payment.Prelude.{if◌then◌else◌}
use extend_regional_payment.Adapter.Effects.{Effect, History, fulfill_item}

-- Whether an entry is a call of FulfillUserItem for the order that succeeded.
abbrev pub is_grant : String → Effect → Bool
is_grant k (fulfill_item user_id item_id order_no quantity true) = order_no == k
is_grant k _ = false

unfoldable pub grants : String → History → ℕ
grants k [] = 0
grants k (e ∷ h) = if is_grant k e then suc (grants k h) else grants k h

pub grants-append :
    (k : String) (h : History) (e : Effect)
    → grants k (h ++ (e ∷ [])) ≡ (if is_grant k e then suc (grants k h) else grants k h)
unfolding grants
grants-append k [] e = ground arith
grants-append k (d ∷ h) e = ground (arith, grants-append k h e)
