-- ===== src/PurchaseLedger.antt =====
-- backend/app/analytics/purchase_ledger_calculations.py: the purchase price variance, the amounts of
-- an invoice line, and the variance of a receipt.
pub mod Variance
mod Tests
use procure_foundation.Prelude.{Bool, true, false, not, ◌||◌, Option, none, some, if◌then◌else◌}
use procure_foundation.Prelude.Int.{pos, ltb_ℤ, eqb_ℤ}
use procure_foundation.Result.{Result, ok, value_error, raise_if, ◌>>=◌, ◌>>◌}
use procure_foundation.Decimal.{Decimal, add, sub, mul, decimal, round_currency, percentage_of}

pub record PriceVarianceResult : Type 0 where
  pub expected_cost : Decimal
  pub actual_cost : Decimal
  pub variance : Decimal
  pub variance_pct : Option Decimal

-- `None` for a whole of zero.
unfoldable pub percentage_unless_zero : Decimal → Decimal → Result (Option Decimal)
percentage_unless_zero part whole =
    if eqb_ℤ whole (pos 0) then ok none else (percentage_of part whole >>= λ p. ok (some p))

unfoldable pub calculate_purchase_price_variance :
    Decimal → Decimal → Decimal → Result PriceVarianceResult
unfolding percentage_unless_zero
calculate_purchase_price_variance reference_price actual_price quantity = do
  expected_cost ← round_currency (mul reference_price quantity)
  actual_cost ← round_currency (mul actual_price quantity)
  variance ← round_currency (sub actual_cost expected_cost)
  variance_pct ← percentage_unless_zero variance expected_cost
  ok (record {
    expected_cost = expected_cost;
    actual_cost = actual_cost;
    variance = variance;
    variance_pct = variance_pct;
  })

-- `if discount_pct:`, which is false for `None` and for zero.
abbrev discounted : Decimal → Option Decimal → Decimal
discounted gross none = gross
discounted gross (some pct) = if eqb_ℤ pct (pos 0) then gross else mul gross (sub (decimal 1 0) pct)

unfoldable pub calculate_invoice_line_net_amount :
    Decimal → Decimal → Option Decimal → Result Decimal
calculate_invoice_line_net_amount quantity unit_price discount_pct =
    round_currency (discounted (mul quantity unit_price) discount_pct)

abbrev taxed : Decimal → Option Decimal → Decimal
taxed net none = net
taxed net (some pct) = if eqb_ℤ pct (pos 0) then net else mul net (add (decimal 1 0) pct)

unfoldable pub calculate_invoice_line_total_incl_tax : Decimal → Option Decimal → Result Decimal
calculate_invoice_line_total_incl_tax net_amount tax_pct = round_currency (taxed net_amount tax_pct)

pub data ReceiptStatus : Type 0 where
  complete short over : ReceiptStatus

pub record ReceiptVarianceResult : Type 0 where
  pub variance_quantity : Decimal
  pub variance_pct : Option Decimal
  pub status : ReceiptStatus

abbrev pub receipt_status : Decimal → ReceiptStatus
receipt_status variance =
    if eqb_ℤ variance (pos 0) then complete else if ltb_ℤ variance (pos 0) then short else over

unfoldable pub calculate_receipt_variance : Decimal → Decimal → Result ReceiptVarianceResult
unfolding percentage_unless_zero
calculate_receipt_variance quantity_ordered quantity_received = do
  raise_if (ltb_ℤ quantity_ordered (pos 0) || ltb_ℤ quantity_received (pos 0)) value_error
  let variance = sub quantity_received quantity_ordered
  variance_pct ← percentage_unless_zero variance quantity_ordered
  ok (record {
    variance_quantity = variance;
    variance_pct = variance_pct;
    status = receipt_status variance;
  })
