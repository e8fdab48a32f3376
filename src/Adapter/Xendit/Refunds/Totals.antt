-- ===== src/Adapter/Xendit/Refunds/Totals.antt =====
-- internal/adapter/xendit/xendit.go: what the loop of summarizeXenditRefunds computes, without the
-- loop: sums and tests over all refunds.
use Prim.Native.Char.{Char}
use extend_regional_payment.Prelude.{
  ℕ, ◌+◌, ◌<◌, ◌≡◌, refl, arith, String, List, [], ◌∷◌, ◌++◌, map, Bool, false, ◌&&◌, ◌||◌, ◌==◌,
  All, ltb, if◌then◌else◌, Bool-cases, inl, inr, ap, sym, ◌∙◌, append_nil, eq_iff,
}
use extend_regional_payment.Prelude.Int.{
  ℤ, pos, negsuc, pos_part, ◌≤ℤ◌, ◌+ℤ◌, to_int64, leb_ℤ, ltb_ℤ, add_pos, to_int64_of_small,
}
use extend_regional_payment.Prelude.Text.{join}
use extend_regional_payment.Adapter.Types.{SyncRefundStatus}
use extend_regional_payment.Adapter.Xendit.{RefundRecord}
use extend_regional_payment.Adapter.Xendit.Statuses.{normal}
use extend_regional_payment.Adapter.Xendit.Refunds.{
  Tally, no_tally, counts, tally_one, tally_refunds, conclude, summarize_xendit_refunds,
}

abbrev tally_at : ℕ → (pending failed : Bool) → List String → String → Tally
tally_at a pending failed raw currency = record {
  succeeded_amount = pos a;
  pending = pending;
  failed_or_cancelled = failed;
  raw_statuses = raw;
  refund_currency = currency;
}

tally_congr :
    {a b : ℕ} {p q f g : Bool} {raw raws : List String} {c d : String}
    → a ≡ b
    → p ≡ q
    → f ≡ g
    → raw ≡ raws
    → c ≡ d
    → tally_at a p f raw c ≡ tally_at b q g raws d
tally_congr ea ep ef er ec = λ i. tally_at (ea i) (ep i) (ef i) (er i) (ec i)

or_assoc : (a b c : Bool) → (a || b || c) ≡ (a || (b || c))
or_assoc a b c = ground arith

or_false : (a : Bool) → (a || false) ≡ a
or_false a = ground arith

-- The first of three texts that is given.
first_given :
    (c x rest : String)
    → (if (if c == "" then x else c) == "" then rest else (if c == "" then x else c))
      ≡ (if c == "" then if x == "" then rest else x else c)
first_given c x rest = ground arith

given_or_empty : (c : String) → c ≡ (if c == "" then "" else c)
given_or_empty c = ground (arith, eq_iff c "")

append_one :
    {A : Type 0} (xs : List A) (x : A) (ys : List A) → (xs ++ x ∷ [] ++ ys) ≡ (xs ++ x ∷ ys)
append_one [] x ys = refl
append_one (y ∷ xs) x ys = ap (λ zs. y ∷ zs) (append_one xs x ys)

add_small :
    (a : ℕ) (z : ℤ)
    → pos 0 ≤ℤ z
    → a + pos_part z < 9223372036854775808
    → to_int64 (pos a +ℤ z) ≡ pos (a + pos_part z)
add_small a (pos n) nonneg small = rw (add_pos a n) (to_int64_of_small (a + n) small)
add_small a (negsuc n) nonneg small = absurd (omega arith)

module _ (upper_rune : Char → Char) where
  abbrev pub status_of : RefundRecord → String
  status_of r = normal upper_rune r.status

  abbrev is_pending : RefundRecord → Bool
  is_pending r = status_of r == "PENDING"

  abbrev is_failed : RefundRecord → Bool
  is_failed r = (status_of r == "FAILED") || (status_of r == "CANCELLED")

  -- Whether there is a refund that passes the test.
  abbrev pub any : (RefundRecord → Bool) → List RefundRecord → Bool
  any test [] = false
  any test (r ∷ rs) = test r || any test rs

  -- The first currency that is given.
  abbrev pub first_currency : List RefundRecord → String
  first_currency [] = ""
  first_currency (r ∷ rs) =
      let rest = first_currency rs in
      if normal upper_rune r.currency == "" then rest else normal upper_rune r.currency

  -- A succeeded refund in the currency that is expected, or in any where none is.
  abbrev is_paid_back : String → RefundRecord → Bool
  is_paid_back expected r =
      (status_of r == "SUCCEEDED")
      && ((expected == "") || (normal upper_rune r.currency == expected))

  abbrev part : String → RefundRecord → ℕ
  part expected r = if is_paid_back expected r then pos_part r.amount else 0

  -- The sum over the refunds that succeeded, in the currency that is expected.
  abbrev pub succeeded_total : String → List RefundRecord → ℕ
  succeeded_total expected [] = 0
  succeeded_total expected (r ∷ rs) = part expected r + succeeded_total expected rs

  sum_step :
      (expected : String) (a : ℕ) (r : RefundRecord)
      → pos 0 ≤ℤ r.amount
      → a + part expected r < 9223372036854775808
      → (if counts upper_rune expected r then to_int64 (pos a +ℤ r.amount) else pos a)
        ≡ pos (a + part expected r)
  unfolding counts
  sum_step expected a r nonneg small = elim (Bool-cases (is_paid_back expected r)) [
    | inl e ↦ ground (arith, add_small a r.amount nonneg)
    | inr e ↦ ground arith
  ]

  tally_one-at :
      (expected : String) (a : ℕ) (p f : Bool) (raw : List String) (c : String) (r : RefundRecord)
      → pos 0 ≤ℤ r.amount
      → a + part expected r < 9223372036854775808
      → tally_one upper_rune expected (tally_at a p f raw c) r
        ≡ tally_at
            (a + part expected r)
            (p || is_pending r)
            (f || is_failed r)
            (raw ++ status_of r ∷ [])
            (if c == "" then normal upper_rune r.currency else c)
  unfolding tally_one
  tally_one-at expected a p f raw c r nonneg small =
      ap
        (λ amount. record {
          succeeded_amount = amount;
          pending = p || is_pending r;
          failed_or_cancelled = f || is_failed r;
          raw_statuses = raw ++ status_of r ∷ [];
          refund_currency = if c == "" then normal upper_rune r.currency else c;
        })
        (sum_step expected a r nonneg small)

  -- The loop's variables after all refunds.
  tally_refunds_lem :
      (expected : String) (a : ℕ) (p f : Bool) (raw : List String) (c : String)
      (rs : List RefundRecord)
      → All (λ r. pos 0 ≤ℤ r.amount) rs
      → a + succeeded_total expected rs < 9223372036854775808
      → tally_refunds upper_rune expected (tally_at a p f raw c) rs
        ≡ tally_at
            (a + succeeded_total expected rs)
            (p || any is_pending rs)
            (f || any is_failed rs)
            (raw ++ map status_of rs)
            (if c == "" then first_currency rs else c)
  unfolding tally_refunds
  tally_refunds_lem expected a p f raw c [] nonneg small =
      tally_congr (omega arith) (sym (or_false p)) (sym (or_false f)) (sym (append_nil raw))
        (given_or_empty c)
  tally_refunds_lem expected a p f raw c (r ∷ rs) (first, rest) small =
      rw
        (
          tally_one-at expected a p f raw c r first (omega (arith, small)),
          tally_refunds_lem expected (a + part expected r) (p || is_pending r) (f || is_failed r)
              (raw ++ status_of r ∷ []) (if c == "" then normal upper_rune r.currency else c) rs
              rest (omega (arith, small)),
        )
        (tally_congr (omega arith) (or_assoc p (is_pending r) (any is_pending rs))
          (or_assoc f (is_failed r) (any is_failed rs))
          (append_one raw (status_of r) (map status_of rs))
          (first_given c (normal upper_rune r.currency) (first_currency rs)))

  -- The status that the refunds give a transaction, by the sum of those that succeeded.
  abbrev pub status_for : (total : ℕ) → (tx_amount : ℤ) → List RefundRecord → SyncRefundStatus
  status_for total tx_amount [] = SyncRefundStatus.none
  status_for total tx_amount (r ∷ rs) =
      if ltb_ℤ (pos 0) tx_amount && leb_ℤ tx_amount (pos total)
      then SyncRefundStatus.refunded
      else if ltb 0 total
      then SyncRefundStatus.partial_refunded
      else if any is_pending (r ∷ rs)
      then SyncRefundStatus.pending
      else if any is_failed (r ∷ rs)
      then SyncRefundStatus.failed
      else SyncRefundStatus.unknown

  conclude_lem :
      (total : ℕ) (tx_amount : ℤ) (r : RefundRecord) (rs : List RefundRecord) (raw : List String)
      (c : String)
      → conclude (tally_at total (any is_pending (r ∷ rs)) (any is_failed (r ∷ rs)) raw c) tx_amount
        ≡ record {
          status = status_for total tx_amount (r ∷ rs);
          raw_status = join "," raw;
          amount = pos total;
          currency = c;
        }
  unfolding conclude
  conclude_lem total tx_amount r rs raw c = ground arith

  whole_tally :
      (expected : String) (rs : List RefundRecord)
      → All (λ r. pos 0 ≤ℤ r.amount) rs
      → succeeded_total expected rs < 9223372036854775808
      → tally_refunds upper_rune expected no_tally rs
        ≡ tally_at
            (succeeded_total expected rs)
            (any is_pending rs)
            (any is_failed rs)
            (map status_of rs)
            (first_currency rs)
  whole_tally expected rs nonneg small =
      tally_refunds_lem expected 0 false false [] "" rs nonneg (omega (arith, small))
      ∙ tally_congr (omega arith) refl refl refl refl

  -- Over refunds whose amounts are not negative and whose succeeded ones in the transaction's
  -- currency add up to an int64, the loop finds: the status of this sum, all raw statuses in their
  -- order, the sum itself, and the first currency that is given.
  pub summarize_xendit_refunds_lem :
      (refunds : List RefundRecord) (tx_amount : ℤ) (tx_currency : String)
      → All (λ r. pos 0 ≤ℤ r.amount) refunds
      → succeeded_total (normal upper_rune tx_currency) refunds < 9223372036854775808
      → let total = succeeded_total (normal upper_rune tx_currency) refunds in
        summarize_xendit_refunds upper_rune refunds tx_amount tx_currency ≡ record {
          status = status_for total tx_amount refunds;
          raw_status = join "," (map status_of refunds);
          amount = pos total;
          currency = first_currency refunds;
        }
  unfolding summarize_xendit_refunds join
  summarize_xendit_refunds_lem [] tx_amount tx_currency nonneg small = refl
  summarize_xendit_refunds_lem (r ∷ rs) tx_amount tx_currency nonneg small =
      rw (whole_tally (normal upper_rune tx_currency) (r ∷ rs) nonneg small) (
        conclude_lem (succeeded_total (normal upper_rune tx_currency) (r ∷ rs)) tx_amount r rs
          (map status_of (r ∷ rs)) (first_currency (r ∷ rs)))
