-- ===== src/Adapter/Komoju/Amounts.antt =====
-- internal/adapter/komoju/komoju.go: amounts in the smallest unit of a currency. The product is an
-- int64 and wraps.
use extend_regional_payment.Prelude.{ℕ, zero, suc, String, ◌<>◌}
use extend_regional_payment.Prelude.Int.{ℤ, pos, ◌*ℤ◌, to_int64, quot}
use extend_regional_payment.Prelude.Text.{trim_space, to_upper}
use extend_regional_payment.Prelude.Found.{Found, found, failed, ◌>>=◌}
use extend_regional_payment.Adapter.Komoju.{Api}

-- `factor *= 10`, as often as the currency has digits behind the point.
unfoldable pub times_ten : ℕ → ℤ → ℤ
times_ten zero factor = factor
times_ten (suc i) factor = times_ten i (to_int64 (factor *ℤ pos 10))

module _ (api : Api) where
  unfoldable pub currency_scale_factor : String → Found ℤ
  currency_scale_factor currency_code =
      let code = to_upper api.upper_rune (trim_space currency_code) in
      elim (api.scale code) [
        | found digits ↦ found (times_ten digits (pos 1))
        | failed e ↦ failed ("komoju unsupported currency " <> api.quote code <> ": " <> e)
      ]

  unfoldable pub to_komoju_amount : ℤ → String → Found ℤ
  to_komoju_amount amount currency_code = do
    factor ← currency_scale_factor currency_code
    found (to_int64 (amount *ℤ factor))

  unfoldable pub from_komoju_amount : ℤ → String → Found ℤ
  from_komoju_amount amount currency_code = do
    factor ← currency_scale_factor currency_code
    found (quot amount factor)
