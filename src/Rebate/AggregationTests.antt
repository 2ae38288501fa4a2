-- ===== src/Rebate/AggregationTests.antt =====
-- The spend of a rebate period taken from an invoice, and from no invoice.
use procure_foundation.Prelude.{ℕ, ◌≡◌, ◌≢◌, refl, none, some, List, [], ◌∷◌}
use procure_foundation.Prelude.Int.{pos}
use procure_foundation.Result.{ok}
use procure_foundation.Decimal.{decimal, mul, sum, round_currency}
use procure_foundation.Rebate.Model.{Ledger, rebate_aggregation_recalc}
use procure_foundation.Rebate.{
  manual, invoice_aggregation, calculate_expected_rebate, in_period,
  aggregate_transactions_for_period,
}
use procure_foundation.Rebate.Service.{
  compute_expected_amount, recalculated, status_calculated, write_expected_amount_event,
  recalculate_expected,
}
use procure_foundation.Rebate.PeriodTests.{agreement, recorded, closed}
use procure_foundation.Rebate.Aggregation.{
  AgreementRow, PeriodRow, PurchaseInvoiceLine, Purchases, invoice_tuples, transaction_tuples,
  with_actuals, recalculate_period, recalculate_affected_periods,
}
use procure_foundation.Rebate.Aggregation.Precedence.{
  IsKept, Pairwise, recalculate_affected_periods-precedence,
}
use procure_foundation.Rebate.Aggregation.NoInvoice.{
  nothing_bought, IsEmptied, recalculate_period-no_invoice,
}

abbrev invoiced : ℕ → PurchaseInvoiceLine
invoiced date = record {
  net_amount = decimal 7000 0;
  quantity = some (decimal 10 0);
  purchase_invoice = record { supplier_id = 3; corrects_id = none; invoice_date = date };
}

-- One invoice of supplier 3, on a date, and one transaction, on day 120.
abbrev purchases : ℕ → Purchases
purchases date = record {
  invoice_lines = invoiced date ∷ [];
  transactions =
      record {
        supplier_id = 3;
        corrects_id = none;
        amount = decimal 500 0;
        quantity = none;
        transaction_date = 120;
      }
      ∷ [];
}

abbrev open_row : PeriodRow
open_row = record { rebate_agreement_id = 1; entry_source = manual; ledger = recorded }

abbrev closed_row : PeriodRow
closed_row = record { rebate_agreement_id = 1; entry_source = manual; ledger = closed }

abbrev agreements : List AgreementRow
agreements = record { id = 1; supplier_id = some 3; terms = agreement } ∷ []

abbrev invoiced_ledger : Ledger
invoiced_ledger = status_calculated 9 (
    write_expected_amount_event 9 (recalculated 9 (some (decimal 140 0))) none
      (rebate_aggregation_recalc 1 invoice_aggregation) "recalculation"
      (with_actuals
        (record {
          total_spend = decimal 7000 0;
          total_volume = decimal 10 0;
          transaction_count = 1;
        })
        (record recorded { next_event_id = 50 })))

abbrev invoiced_row : PeriodRow
invoiced_row = record {
  rebate_agreement_id = 1;
  entry_source = invoice_aggregation;
  ledger = invoiced_ledger;
}

aggregates :
    recalculate_affected_periods 3 agreements 105 125
      (purchases 110)
      9
      50
      (open_row ∷ closed_row ∷ [])
    ≡ ok (invoiced_row ∷ closed_row ∷ [], invoiced_row ∷ [])
unfolding recalculate_affected_periods recalculate_expected write_expected_amount_event
    calculate_expected_rebate aggregate_transactions_for_period invoice_tuples transaction_tuples
    mul decimal sum round_currency
aggregates = refl

recalculate_affected_periods-precedence_example :
    Pairwise
      (IsKept 105 125 (invoice_tuples 3 (purchases 110)) (transaction_tuples 3 (purchases 110)))
      (open_row ∷ closed_row ∷ [])
      (invoiced_row ∷ closed_row ∷ [])
recalculate_affected_periods-precedence_example =
    recalculate_affected_periods-precedence 3 agreements 105 125 (purchases 110) 9 50
      (open_row ∷ closed_row ∷ []) (invoiced_row ∷ closed_row ∷ []) (invoiced_row ∷ []) aggregates

some_invoice : invoice_tuples 3 (purchases 90) ≢ []
unfolding invoice_tuples
some_invoice e = cc

before_the_period : in_period 100 130 (invoice_tuples 3 (purchases 90)) ≡ []
unfolding in_period invoice_tuples
before_the_period = refl

after_the_period : in_period 100 130 (invoice_tuples 3 (purchases 131)) ≡ []
unfolding in_period invoice_tuples
after_the_period = refl

no_rebate_on_nothing :
    compute_expected_amount agreement (with_actuals nothing_bought recorded).period
    ≡ ok (some (pos 0))
unfolding calculate_expected_rebate mul round_currency decimal
no_rebate_on_nothing = refl

-- A period whose spend was entered by hand, with a transaction in it.
recalculate_period-no_invoice_example :
    (q : PeriodRow) × (r : PeriodRow) × (recalculate_period 3 (purchases 90) 9 agreement open_row
      ≡ ok (some q))
    × IsEmptied (some (pos 0)) open_row q
    × (recalculate_period 3 (purchases 131) 12 agreement q ≡ ok (some r))
    × IsEmptied (some (pos 0)) open_row r
unfolding write_expected_amount_event
recalculate_period-no_invoice_example =
    recalculate_period-no_invoice 3 (purchases 90) (purchases 131) 9 12 agreement open_row
      (some (pos 0)) some_invoice before_the_period after_the_period no_rebate_on_nothing
