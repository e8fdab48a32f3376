-- ===== src/Service/Payment/Create/Amount.antt =====
-- The amount of a new transaction: what is multiplied, and that it does not overflow.
use extend_regional_payment.Prelude.Text.{to_upper, trim_space}
use extend_regional_payment.Prelude.{
  ◌==◌, Option, Bool-cases, ◌∙◌, ℕ, zero, suc, ◌*◌, ◌/◌, ◌≤◌, ◌<◌, String, ◌≡◌, ◌⊎◌, inl, inr, refl,
  some, true, arith, List, ◌∷◌, Option, ◌∙◌,
}
use extend_regional_payment.Prelude.Int.{
  ℤ, ◌≤ℤ◌, pos, negsuc, ◌*ℤ◌, to_int64, to_int64_of_small, leb_ℤ,
}
use extend_regional_payment.Prelude.Table.{lookup}
use extend_regional_payment.Prelude.Found.{Found-cases, found}
use extend_regional_payment.Service.Payment.Item.{
  trimmed_or_empty, Shop, FullItemInfo, RegionDataItem, ItemDetails, item_details_from_full_item,
  normalize_region_code, normalize_ags_price, priced_item, item_in_region, first_price,
}
use extend_regional_payment.Model.{Time}
use extend_regional_payment.Service.World.{Env}
use extend_regional_payment.Service.Payment.Create.{
  new_transaction, CreatePaymentIntentRequest, total_amount,
}

positive_or_not : (z : ℤ) → ((p : ℕ) × (z ≡ pos p) × (1 ≤ p)) ⊎ (leb_ℤ z (pos 0) ≡ true)
positive_or_not (pos zero) = inr refl
positive_or_not (pos (suc n)) = inl (suc n, refl, omega arith)
positive_or_not (negsuc n) = inr (ground arith)

mul_pos : (p q : ℕ) → pos p *ℤ pos q ≡ pos (p * q)
unfolding ◌*ℤ◌
mul_pos p q = ground arith

-- What a price of p comes to for a currency of this type: itself for a virtual one, and its hundredth
-- for a real one. No other type has a price.
abbrev pub UnitPrice : Shop → Option String → (p unit : ℕ) → Type 0
UnitPrice shop currency_type p unit =
    let kind = to_upper shop.upper_rune (trim_space (trimmed_or_empty currency_type)) in
    (((kind == "VIRTUAL") ≡ true) × (unit ≡ p)) ⊎ (((kind == "REAL") ≡ true) × (unit ≡ p / 100))

module _ (shop : Shop) where
  normalized :
      (p : ℕ) (currency_type : Option String) (z : ℤ)
      → normalize_ags_price shop (pos p) (trimmed_or_empty currency_type) ≡ found z
      → (unit : ℕ) × (z ≡ pos unit) × UnitPrice shop currency_type p unit
  unfolding normalize_ags_price
  normalized p currency_type z e =
      let kind = to_upper shop.upper_rune (trim_space (trimmed_or_empty currency_type)) in
      elim (Bool-cases (kind == "REAL")) [
        | inl real ↦ (p / 100, ground arith, inr (real, refl))
        | inr virtual ↦ (p, ground arith, inl (ground arith, refl))
      ]

  module _ (item_id region : String) (resp : FullItemInfo) (details : ItemDetails) where
    -- A positive price and what it comes to.
    abbrev Priced : RegionDataItem → Type 0
    Priced item =
        (p : ℕ) × (unit : ℕ) × (item.price ≡ pos p)
        × (1 ≤ p)
        × (details.unit_price ≡ pos unit)
        × UnitPrice shop item.currency_type p unit

    priced_item-Priced :
        (item : RegionDataItem)
        → priced_item shop item_id region resp item ≡ found details
        → Priced item
    unfolding priced_item
    priced_item-Priced item e = elim (positive_or_not item.price) [
      | inr bad ↦ ground arith
      | inl (p, price, positive) ↦
          elim (Found-cases
            (normalize_ags_price shop item.price (trimmed_or_empty item.currency_type))) [
              | inr (m, bad) ↦ ground arith
              | inl (z, norm) ↦
                  let (unit, same, kind) = normalized p item.currency_type z (rw price at norm) in
                  let paid : details.unit_price ≡ z = ground arith in
                  (p, unit, price, positive, paid ∙ same, kind)
            ]
    ]

    item_in_region-Priced :
        (item : RegionDataItem) (rest : List RegionDataItem)
        → item_in_region shop item_id region resp (first_price (some (item ∷ rest))) ≡ found details
        → Priced item
    unfolding item_in_region
    item_in_region-Priced item rest e = priced_item-Priced item e

exact :
    (z : ℤ) (p q : ℕ)
    → z ≡ pos p
    → p < 2147483648
    → q < 2147483648
    → to_int64 (z *ℤ pos q) ≡ pos (p * q)
exact z p q e hp hq = rw e (rw (mul_pos p q) (to_int64_of_small (p * q) (grind arith)))

unit_bound :
    (shop : Shop) (currency_type : Option String) (p unit : ℕ)
    → UnitPrice shop currency_type p unit
    → unit ≤ p
unit_bound shop currency_type p unit (inl (_, e)) = omega arith
unit_bound shop currency_type p unit (inr (_, e)) = omega arith

-- The amount of a new transaction is the exact product of the quantity and the unit price, without a
-- wrap of the int64, where the item's price and the quantity are those of an int32. The unit price
-- is the first price that AGS gives for the region, a positive number, if its currency is VIRTUAL,
-- and the hundredth of that price, rounded down, if it is REAL; the currency is one of the two.
pub new_transaction-amount :
    (env : Env) (shop : Shop) (user_id region_code : String) (req : CreatePaymentIntentRequest)
    (resp : FullItemInfo) (details : ItemDetails) (id provider_id display_name : String) (t : Time)
    (item : RegionDataItem) (rest : List RegionDataItem) (q : ℕ)
    → item_details_from_full_item shop req.item_id region_code resp ≡ found details
    → lookup (normalize_region_code shop region_code) resp.region_data ≡ some (item ∷ rest)
    → item.price ≤ℤ pos 2147483647
    → req.quantity ≡ pos q
    → q < 2147483648
    → (p : ℕ) × (unit : ℕ) × (item.price ≡ pos p)
      × (1 ≤ p)
      × UnitPrice shop item.currency_type p unit
      × ((new_transaction env user_id req details id provider_id display_name t).amount
          ≡ pos (unit * q))
unfolding new_transaction total_amount item_details_from_full_item
new_transaction-amount env shop user_id region_code req resp details id provider_id name t item rest
      q e has bound eq hq =
    let (p, unit, price, positive, paid, kind) =
      item_in_region-Priced shop req.item_id (normalize_region_code shop region_code) resp details
        item rest (rw has at e) in
    let small : unit ≤ p = unit_bound shop item.currency_type p unit kind in
    (p, unit, price, positive, kind, rw eq (exact details.unit_price unit q paid (ground arith) hq))
