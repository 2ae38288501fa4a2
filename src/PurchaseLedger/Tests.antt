-- ===== src/PurchaseLedger/Tests.antt =====
-- Runs of the purchase calculations, and the theorems at concrete purchases.
use procure_foundation.Prelude.{◌≡◌, ◌*◌, ◌^◌, ◌-◌, refl, some}
use procure_foundation.Prelude.Int.{negsuc}
use procure_foundation.Result.{ok, err, value_error}
use procure_foundation.Decimal.{decimal, arithmetic}
use procure_foundation.PurchaseLedger.{
  PriceVarianceResult, ReceiptVarianceResult, short, percentage_unless_zero,
  calculate_purchase_price_variance, calculate_invoice_line_net_amount, calculate_receipt_variance,
}

-- Five at R12 instead of R10.
abbrev dearer : PriceVarianceResult
dearer = record {
  expected_cost = decimal 50 0;
  actual_cost = decimal 60 0;
  variance = decimal 10 0;
  variance_pct = some (decimal 2 1);
}

is_dearer :
    calculate_purchase_price_variance (decimal 10 0) (decimal 12 0) (decimal 5 0) ≡ ok dearer
unfolding calculate_purchase_price_variance percentage_unless_zero arithmetic
is_dearer = refl

net_of_discount :
    calculate_invoice_line_net_amount (decimal 3 0) (decimal 100 0) (some (decimal 5 2))
    ≡ ok (decimal 285 0)
unfolding calculate_invoice_line_net_amount arithmetic
net_of_discount = refl

-- Eight of ten.
abbrev two_missing : ReceiptVarianceResult
two_missing = record {
  variance_quantity = negsuc (2 * 10 ^ 60 - 1);
  variance_pct = some (negsuc (2 * 10 ^ 59 - 1));
  status = short;
}

is_short : calculate_receipt_variance (decimal 10 0) (decimal 8 0) ≡ ok two_missing
unfolding calculate_receipt_variance percentage_unless_zero arithmetic
is_short = refl

nothing_negative : calculate_receipt_variance (negsuc 0) (decimal 8 0) ≡ err value_error
unfolding calculate_receipt_variance
nothing_negative = refl
