-- ===== src/Adapter/Komoju/Charges.antt =====
-- internal/adapter/komoju/komoju.go: an amount on its way to KOMOJU and back.
use extend_regional_payment.Prelude.{
  ℕ, zero, suc, ◌*◌, ◌^◌, ◌≤◌, ◌<◌, ◌≡◌, refl, arith, String, ap, sym, ◌∙◌,
}
use extend_regional_payment.Prelude.Int.{ℤ, pos, ◌*ℤ◌, to_int64, quot, to_int64_of_small}
use extend_regional_payment.Prelude.Text.{trim_space, to_upper}
use extend_regional_payment.Prelude.Found.{found}
use extend_regional_payment.Adapter.Types.{answer, PaymentResult}
use extend_regional_payment.Adapter.Komoju.{Api, PaymentResponse}
use extend_regional_payment.Adapter.Komoju.Statuses.{map_payment_status, failure_reason_of}
use extend_regional_payment.Adapter.Komoju.Webhooks.{result_of, order_id_of}
use extend_regional_payment.Adapter.Komoju.Amounts.{
  times_ten, currency_scale_factor, to_komoju_amount, from_komoju_amount,
}

times_ten_lem : (digits : ℕ) → digits ≤ 4 → times_ten digits (pos 1) ≡ pos (10 ^ digits)
unfolding times_ten ◌*ℤ◌ to_int64
times_ten_lem zero h = refl
times_ten_lem (suc zero) h = refl
times_ten_lem (suc (suc zero)) h = refl
times_ten_lem (suc (suc (suc zero))) h = refl
times_ten_lem (suc (suc (suc (suc zero)))) h = refl
times_ten_lem (suc (suc (suc (suc (suc d))))) h = absurd (omega arith)

found_inj : {A : Type 0} {a b : A} → found a ≡ found b → a ≡ b
found_inj e = cc

mul_pos : (n f : ℕ) → pos n *ℤ pos f ≡ pos (n * f)
unfolding ◌*ℤ◌
mul_pos n f = ground arith

charge_lem : (n f : ℕ) → n * f < 9223372036854775808 → to_int64 (pos n *ℤ pos f) ≡ pos (n * f)
charge_lem n f h = rw (mul_pos n f) (to_int64_of_small (n * f) h)

quot_lem : (n d : ℕ) → d ≤ 4 → quot (pos (n * 10 ^ d)) (pos (10 ^ d)) ≡ pos n
unfolding quot
quot_lem n zero h = ground arith
quot_lem n (suc zero) h = ground arith
quot_lem n (suc (suc zero)) h = ground arith
quot_lem n (suc (suc (suc zero))) h = ground arith
quot_lem n (suc (suc (suc (suc zero)))) h = ground arith
quot_lem n (suc (suc (suc (suc (suc d))))) h = absurd (omega arith)

module _ (api : Api) (currency : String) (digits : ℕ) where
  factor_lem :
      api.scale (to_upper api.upper_rune (trim_space currency)) ≡ found digits
      → digits ≤ 4
      → currency_scale_factor api currency ≡ found (pos (10 ^ digits))
  unfolding currency_scale_factor
  factor_lem scale small = rw (scale, currency_scale_factor) (ap found (times_ten_lem digits small))

  pub to_komoju_amount_lem :
      (n : ℕ)
      → api.scale (to_upper api.upper_rune (trim_space currency)) ≡ found digits
      → digits ≤ 4
      → n * 10 ^ digits < 9223372036854775808
      → to_komoju_amount api (pos n) currency ≡ found (pos (n * 10 ^ digits))
  unfolding to_komoju_amount
  to_komoju_amount_lem n scale small bound =
      rw (factor_lem scale small, to_komoju_amount) (ap found (charge_lem n (10 ^ digits) bound))

  pub from_komoju_amount_lem :
      (n : ℕ)
      → api.scale (to_upper api.upper_rune (trim_space currency)) ≡ found digits
      → digits ≤ 4
      → from_komoju_amount api (pos (n * 10 ^ digits)) currency ≡ found (pos n)
  unfolding from_komoju_amount
  from_komoju_amount_lem n scale small =
      rw (factor_lem scale small, from_komoju_amount) (ap found (quot_lem n digits small))

abbrev reported : Api → PaymentResponse → ℤ → String → PaymentResult
reported api payment amount currency = record {
  provider_transaction_id = payment.id;
  internal_order_id = order_id_of api payment;
  status = map_payment_status api.lower_rune payment.status;
  raw_provider_status = payment.status;
  amount = amount;
  currency_code = currency;
  failure_reason = failure_reason_of api.lower_rune payment.status;
}

result_of_lem :
    (api : Api) (payment : PaymentResponse) (amount : ℤ)
    → from_komoju_amount api payment.amount payment.currency ≡ found amount
    → result_of api payment ≡ answer (reported api payment amount payment.currency)
unfolding result_of
result_of_lem api payment amount e = ground arith

-- For an amount n in a currency of at most four digits whose charge n * 10 ^ digits is an int64,
-- the charge that KOMOJU is asked for is this product, and a webhook that reports a payment of
-- this charge in this currency gives the services the amount n again.
pub to_komoju_amount-result_of :
    (api : Api) (currency : String) (digits n : ℕ) (payment : PaymentResponse)
    → api.scale (to_upper api.upper_rune (trim_space currency)) ≡ found digits
    → digits ≤ 4
    → n * 10 ^ digits < 9223372036854775808
    → payment.currency ≡ currency
    → to_komoju_amount api (pos n) currency ≡ found payment.amount
    → (payment.amount ≡ pos (n * 10 ^ digits))
      × (result_of api payment
          ≡ answer (record {
            provider_transaction_id = payment.id;
            internal_order_id = order_id_of api payment;
            status = map_payment_status api.lower_rune payment.status;
            raw_provider_status = payment.status;
            amount = pos n;
            currency_code = currency;
            failure_reason = failure_reason_of api.lower_rune payment.status;
          }))
to_komoju_amount-result_of api currency digits n payment scale small bound same charged =
    let exact =
      found_inj (sym charged ∙ to_komoju_amount_lem api currency digits n scale small bound) in
    let back =
      (λ i. from_komoju_amount api (exact i) (same i))
      ∙ from_komoju_amount_lem api currency digits n scale small in
    (
      exact,
      result_of_lem api payment (pos n) back
          ∙ ap (λ c. answer (reported api payment (pos n) c)) same,
    )
