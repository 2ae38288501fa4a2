-- ===== src/Rebate/Aggregation/NoInvoice.antt =====
-- A period without invoices of a supplier that has some.
use procure_foundation.Prelude.{ℕ, Option, ◌≡◌, ◌≢◌, ◌∙◌, refl, none, some, List, [], ◌∷◌}
use procure_foundation.Prelude.Int.{pos}
use procure_foundation.Result.{ok}
use procure_foundation.Decimal.{Decimal, sum, round_currency}
use procure_foundation.Calendar.{Date}
use procure_foundation.Rebate.{
  EntrySource, manual, transaction_aggregation, invoice_aggregation, PurchaseRow, in_period,
  TransactionAggregate, aggregate_transactions_for_period,
}
use procure_foundation.Rebate.Model.{RebateAgreement}
use procure_foundation.Rebate.Service.{
  compute_expected_amount, recalculated, write_expected_amount_event, recalculate_expected,
}
use procure_foundation.Rebate.Aggregation.{
  PeriodRow, Purchases, invoice_tuples, choose_source, with_actuals, aggregate_from,
  recalculate_period,
}

choose_source-invoices :
    (source : EntrySource) (invoices transactions : List PurchaseRow)
    → invoices ≢ []
    → choose_source source invoices transactions ≡ (invoice_aggregation, invoices)
unfolding choose_source
choose_source-invoices invoice_aggregation invoices transactions h = refl
choose_source-invoices manual (x ∷ invoices) transactions h = refl
choose_source-invoices transaction_aggregation (x ∷ invoices) transactions h = refl
choose_source-invoices manual [] transactions h = absurd (h refl)
choose_source-invoices transaction_aggregation [] transactions h = absurd (h refl)

abbrev pub nothing_bought : TransactionAggregate
nothing_bought = record { total_spend = pos 0; total_volume = pos 0; transaction_count = 0 }

aggregate_none :
    (rows : List PurchaseRow) (start end : Date)
    → in_period start end rows ≡ []
    → aggregate_transactions_for_period rows start end ≡ ok nothing_bought
unfolding aggregate_transactions_for_period sum round_currency
aggregate_none rows start end e = rw e refl

-- The period with its spend and volume overwritten by zero, under the source of invoices.
abbrev pub IsEmptied : Option Decimal → PeriodRow → PeriodRow → Type 0
IsEmptied expected p q =
    (q.entry_source ≡ invoice_aggregation)
    × (q.ledger.period.actual_spend ≡ some (pos 0))
    × (q.ledger.period.actual_volume ≡ some (pos 0))
    × (q.ledger.period.expected.amount ≡ expected)
    × (q.ledger.period.period_start ≡ p.ledger.period.period_start)
    × (q.ledger.period.period_end ≡ p.ledger.period.period_end)

amount-recalculated :
    (now : ℕ) (amount : Option Decimal) → (recalculated now amount).amount ≡ amount
amount-recalculated now none = refl
amount-recalculated now (some a) = refl

emptied :
    (now : ℕ) (terms : RebateAgreement) (p : PeriodRow) (rows : List PurchaseRow)
    (expected : Option Decimal)
    → in_period p.ledger.period.period_start p.ledger.period.period_end rows ≡ []
    → compute_expected_amount terms (with_actuals nothing_bought p.ledger).period ≡ ok expected
    → (q : PeriodRow) × (aggregate_from terms now invoice_aggregation rows p ≡ ok q)
      × IsEmptied expected p q
unfolding aggregate_from recalculate_expected write_expected_amount_event
emptied now terms p rows expected none_in e =
    rw (aggregate_none rows p.ledger.period.period_start p.ledger.period.period_end none_in, e)
      (_, refl, (refl, refl, refl, amount-recalculated now expected, refl, refl))

-- The period of a supplier that has invoices but none in the period, recalculated while the rebate
-- on a spend of zero can be calculated: whatever spend the period had, entered by hand or from
-- transactions, and whatever its transactions are, its spend and its volume become zero, its
-- expected amount is the rebate on zero, and its source is invoices. It stays so when it is
-- recalculated later from other purchases, transactions in the period included, as long as the
-- supplier has no invoice in it.
pub recalculate_period-no_invoice :
    (supplier_id : ℕ) (purchases further : Purchases) (now later : ℕ) (terms : RebateAgreement)
    (p : PeriodRow) (expected : Option Decimal)
    → invoice_tuples supplier_id purchases ≢ []
    → in_period p.ledger.period.period_start p.ledger.period.period_end
        (invoice_tuples supplier_id purchases)
      ≡ []
    → in_period p.ledger.period.period_start p.ledger.period.period_end
        (invoice_tuples supplier_id further)
      ≡ []
    → compute_expected_amount terms (with_actuals nothing_bought p.ledger).period ≡ ok expected
    → (q : PeriodRow) × (r : PeriodRow) × (recalculate_period supplier_id purchases now terms p
        ≡ ok (some q))
      × IsEmptied expected p q
      × (recalculate_period supplier_id further later terms q ≡ ok (some r))
      × IsEmptied expected p r
unfolding recalculate_period choose_source
recalculate_period-no_invoice supplier_id purchases further now later terms p expected some_invoice
      none_in still_none e =
    let (q, eq, is_q) =
      emptied now terms p (invoice_tuples supplier_id purchases) expected none_in e in
    let (source, _, _, _, start, end) = is_q in
    let none_later : in_period q.ledger.period.period_start q.ledger.period.period_end
          (invoice_tuples supplier_id further)
        ≡ [] =
      rw (start, end) still_none in
    let (r, er, (r1, r2, r3, r4, r5, r6)) =
      emptied later terms q (invoice_tuples supplier_id further) expected none_later e in
    (
      q,
      r,
      rw (choose_source-invoices p.entry_source _ _ some_invoice, eq) refl,
      is_q,
      rw (source, er) refl,
      (r1, r2, r3, r4, r5 ∙ start, r6 ∙ end),
    )
