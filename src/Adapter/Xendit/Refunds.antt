-- ===== src/Adapter/Xendit/Refunds.antt =====
-- internal/adapter/xendit/xendit.go: summarizeXenditRefunds, strongerRefundStatus and
-- mergeRefundSummary. The sum is an int64 and wraps.
pub mod Totals
use Prim.Native.Char.{Char}
use extend_regional_payment.Prelude.{
  ℕ, String, List, [], ◌∷◌, ◌++◌, Bool, false, ◌&&◌, ◌||◌, ◌==◌, ltb, if◌then◌else◌,
}
use extend_regional_payment.Prelude.Int.{ℤ, pos, ◌+ℤ◌, to_int64, leb_ℤ, ltb_ℤ}
use extend_regional_payment.Prelude.Text.{join}
use extend_regional_payment.Adapter.Types.{SyncRefundStatus, ProviderSyncResult}
use extend_regional_payment.Adapter.Xendit.{RefundRecord}
use extend_regional_payment.Adapter.Xendit.Statuses.{normal, append_raw_status}

-- The variables of the loop.
pub record Tally : Type 0 where
  pub succeeded_amount : ℤ
  pub pending : Bool
  pub failed_or_cancelled : Bool
  pub raw_statuses : List String
  pub refund_currency : String

-- The values that the function returns.
pub record Summary : Type 0 where
  pub status : SyncRefundStatus
  pub raw_status : String
  pub amount : ℤ
  pub currency : String

abbrev pub no_tally : Tally
no_tally = record {
  succeeded_amount = pos 0;
  pending = false;
  failed_or_cancelled = false;
  raw_statuses = [];
  refund_currency = "";
}

module _ (upper_rune : Char → Char) (expected_currency : String) where
  -- The refund is a succeeded one, and in the currency of the transaction.
  unfoldable pub counts : RefundRecord → Bool
  counts r =
      (normal upper_rune r.status == "SUCCEEDED")
      && ((expected_currency == "") || (normal upper_rune r.currency == expected_currency))

  unfoldable pub tally_one : Tally → RefundRecord → Tally
  unfolding counts
  tally_one t r =
      let status = normal upper_rune r.status in
      record {
        succeeded_amount =
            if counts r then to_int64 (t.succeeded_amount +ℤ r.amount) else t.succeeded_amount;
        pending = t.pending || (status == "PENDING");
        failed_or_cancelled =
            t.failed_or_cancelled || ((status == "FAILED") || (status == "CANCELLED"));
        raw_statuses = t.raw_statuses ++ status ∷ [];
        refund_currency =
            if t.refund_currency == "" then normal upper_rune r.currency else t.refund_currency;
      }

  unfoldable pub tally_refunds : Tally → List RefundRecord → Tally
  tally_refunds t [] = t
  tally_refunds t (r ∷ rs) = tally_refunds (tally_one t r) rs

-- What the loop has counted, as a status and an amount.
unfoldable pub conclude : Tally → (tx_amount : ℤ) → Summary
conclude t tx_amount =
    let raw = join "," t.raw_statuses in
    if leb_ℤ tx_amount t.succeeded_amount && ltb_ℤ (pos 0) tx_amount
    then record {
      status = SyncRefundStatus.refunded;
      raw_status = raw;
      amount = t.succeeded_amount;
      currency = t.refund_currency;
    }
    else if ltb_ℤ (pos 0) t.succeeded_amount
    then record {
      status = SyncRefundStatus.partial_refunded;
      raw_status = raw;
      amount = t.succeeded_amount;
      currency = t.refund_currency;
    }
    else record {
      status =
          if t.pending
          then SyncRefundStatus.pending
          else if t.failed_or_cancelled
          then SyncRefundStatus.failed
          else SyncRefundStatus.unknown;
      raw_status = raw;
      amount = pos 0;
      currency = t.refund_currency;
    }

unfoldable pub summarize_xendit_refunds :
    (Char → Char) → List RefundRecord → (tx_amount : ℤ) → (tx_currency : String) → Summary
summarize_xendit_refunds upper_rune [] tx_amount tx_currency = record {
  status = SyncRefundStatus.none;
  raw_status = "";
  amount = pos 0;
  currency = "";
}
summarize_xendit_refunds upper_rune (r ∷ rs) tx_amount tx_currency =
    conclude (tally_refunds upper_rune (normal upper_rune tx_currency) no_tally (r ∷ rs)) tx_amount

unfoldable pub rank : SyncRefundStatus → ℕ
rank SyncRefundStatus.refunded = 5
rank SyncRefundStatus.partial_refunded = 4
rank SyncRefundStatus.pending = 3
rank SyncRefundStatus.failed = 2
rank SyncRefundStatus.unknown = 1
rank _ = 0

unfoldable pub stronger_refund_status : (next current : SyncRefundStatus) → Bool
unfolding rank
stronger_refund_status next current = ltb (rank current) (rank next)

-- The result with a summary's refund, where that is the stronger one.
unfoldable pub take_summary : ProviderSyncResult → Summary → ProviderSyncResult
take_summary result summary =
    if stronger_refund_status summary.status result.refund_status
    then record result {
      refund_status = summary.status;
      raw_refund_status = append_raw_status result.raw_refund_status summary.raw_status;
      refund_amount = summary.amount;
      refund_currency_code = summary.currency;
    }
    else result

unfoldable pub merge_refund_summary :
    (Char → Char)
    → ProviderSyncResult
    → List RefundRecord
    → (tx_amount : ℤ) → (tx_currency : String) → ProviderSyncResult
merge_refund_summary upper_rune result [] tx_amount tx_currency = result
merge_refund_summary upper_rune result (r ∷ rs) tx_amount tx_currency =
    take_summary result (summarize_xendit_refunds upper_rune (r ∷ rs) tx_amount tx_currency)
