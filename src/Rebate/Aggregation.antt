-- ===== src/Rebate/Aggregation.antt =====
-- backend/app/services/rebate_aggregation_service.py: which source of purchases the spend of a
-- rebate period comes from.
pub mod Precedence
pub mod NoInvoice
use procure_foundation.Prelude.{
  ℕ, Bool, true, false, ◌&&◌, ◌==◌, Option, none, some, List, [], ◌∷◌, map, filter, leb,
  if◌then◌else◌,
}
use procure_foundation.Prelude.Int.{pos}
use procure_foundation.Result.{Result, ok, ◌>>=◌}
use procure_foundation.Decimal.{Decimal}
use procure_foundation.Calendar.{Date}
use procure_foundation.Rebate.{
  EntrySource, manual, transaction_aggregation, invoice_aggregation, PurchaseRow,
  TransactionAggregate, aggregate_transactions_for_period,
}
use procure_foundation.Rebate.Model.{
  RebateAgreement, RebatePeriodActual, Ledger, rebate_aggregation_recalc,
}
use procure_foundation.Rebate.Service.{recalculate_expected}

-- A row of `rebate_agreements`.
pub record AgreementRow : Type 0 where
  pub id : ℕ
  pub supplier_id : Option ℕ
  pub terms : RebateAgreement

-- A row of `rebate_period_actuals`, with the columns that `Ledger` leaves out.
pub record PeriodRow : Type 0 where
  pub rebate_agreement_id : ℕ
  pub entry_source : EntrySource
  pub ledger : Ledger

pub record PurchaseInvoice : Type 0 where
  pub supplier_id : ℕ
  pub corrects_id : Option ℕ
  pub invoice_date : Date

-- A line with the invoice that the query joins to it.
pub record PurchaseInvoiceLine : Type 0 where
  pub net_amount : Decimal
  pub quantity : Option Decimal
  pub purchase_invoice : PurchaseInvoice

pub record PurchaseTransaction : Type 0 where
  pub supplier_id : ℕ
  pub corrects_id : Option ℕ
  pub amount : Decimal
  pub quantity : Option Decimal
  pub transaction_date : Date

pub record Purchases : Type 0 where
  pub invoice_lines : List PurchaseInvoiceLine
  pub transactions : List PurchaseTransaction

-- `.corrects_id.is_(None)`
abbrev pub is_null : Option ℕ → Bool
is_null none = true
is_null (some i) = false

abbrev pub or_zero : Option Decimal → Decimal
or_zero none = pos 0
or_zero (some quantity) = quantity

abbrev pub invoice_row : PurchaseInvoiceLine → PurchaseRow
invoice_row line = record {
  amount = line.net_amount;
  quantity = or_zero line.quantity;
  transaction_date = line.purchase_invoice.invoice_date;
}

unfoldable pub invoice_tuples : ℕ → Purchases → List PurchaseRow
invoice_tuples supplier_id purchases = map invoice_row (
    filter
      (λ line.
        line.purchase_invoice.supplier_id == supplier_id
        && is_null line.purchase_invoice.corrects_id)
      purchases.invoice_lines)

abbrev pub transaction_row : PurchaseTransaction → PurchaseRow
transaction_row t = record {
  amount = t.amount;
  quantity = or_zero t.quantity;
  transaction_date = t.transaction_date;
}

unfoldable pub transaction_tuples : ℕ → Purchases → List PurchaseRow
transaction_tuples supplier_id purchases =
    map transaction_row
      (filter (λ t. t.supplier_id == supplier_id && is_null t.corrects_id) purchases.transactions)

-- The source of a period's spend, from its source so far, the invoices and the transactions.
unfoldable pub choose_source :
    EntrySource → List PurchaseRow → List PurchaseRow → EntrySource × List PurchaseRow
choose_source invoice_aggregation invoices transactions = (invoice_aggregation, invoices)
choose_source source (x ∷ invoices) transactions = (invoice_aggregation, x ∷ invoices)
choose_source source [] (x ∷ transactions) = (transaction_aggregation, x ∷ transactions)
choose_source source [] [] = (source, [])

-- `entry_source in (INVOICE_AGGREGATION, TRANSACTION_AGGREGATION)`
abbrev pub is_aggregated : EntrySource → Bool
is_aggregated manual = false
is_aggregated transaction_aggregation = true
is_aggregated invoice_aggregation = true

abbrev pub with_actuals : TransactionAggregate → Ledger → Ledger
with_actuals aggregate l = record l {
  period = record (l.period) {
    actual_spend = some aggregate.total_spend;
    actual_volume = some aggregate.total_volume;
  };
}

unfoldable pub aggregate_from :
    RebateAgreement → ℕ → EntrySource → List PurchaseRow → PeriodRow → Result PeriodRow
aggregate_from terms now source rows p = do
  aggregate ←
      aggregate_transactions_for_period rows p.ledger.period.period_start p.ledger.period.period_end
  l ←
      recalculate_expected terms now none (rebate_aggregation_recalc p.ledger.period.id source)
        "recalculation" (with_actuals aggregate p.ledger)
  ok (record p { entry_source = source; ledger = l })

-- The body of the loop: `none` where the period is left alone.
unfoldable pub recalculate_period :
    ℕ → Purchases → ℕ → RebateAgreement → PeriodRow → Result (Option PeriodRow)
unfolding choose_source aggregate_from
recalculate_period supplier_id purchases now terms p =
    let (source, rows) =
      choose_source p.entry_source (invoice_tuples supplier_id purchases)
        (transaction_tuples supplier_id purchases) in
    if is_aggregated source
    then (aggregate_from terms now source rows p >>= λ q. ok (some q))
    else ok none

-- `supplier_id == supplier`, which does not hold of NULL.
abbrev pub is_of : ℕ → Option ℕ → Bool
is_of supplier_id none = false
is_of supplier_id (some id) = id == supplier_id

-- The agreement of the supplier with this key.
unfoldable pub terms_of : ℕ → List AgreementRow → ℕ → Option RebateAgreement
terms_of supplier_id [] id = none
terms_of supplier_id (a ∷ agreements) id =
    if is_of supplier_id a.supplier_id && a.id == id
    then some a.terms
    else terms_of supplier_id agreements id

-- `earned_amount.is_(None)`
abbrev pub is_open : Option Decimal → Bool
is_open none = true
is_open (some earned) = false

-- The conditions of the query for the periods, besides that on the agreement.
abbrev pub is_affected : Date → Date → RebatePeriodActual → Bool
is_affected min_date max_date p =
    is_open p.earned_amount && (leb p.period_start max_date && leb min_date p.period_end)

unfoldable pub affected : ℕ → List AgreementRow → Date → Date → PeriodRow → Option RebateAgreement
unfolding terms_of
affected supplier_id agreements min_date max_date p =
    if is_affected min_date max_date p.ledger.period
    then terms_of supplier_id agreements p.rebate_agreement_id
    else none

-- The periods share one table of events, which numbers its rows.
abbrev pub with_next_event_id : ℕ → PeriodRow → PeriodRow
with_next_event_id next p = record p { ledger = record (p.ledger) { next_event_id = next } }

-- The period as the loop leaves it, the next key of the event table, and whether the period is
-- among those returned.
abbrev pub after_period : ℕ → PeriodRow → Option PeriodRow → PeriodRow × ℕ × Bool
after_period next p none = (p, next, false)
after_period next p (some q) = (q, q.ledger.next_event_id, true)

module _ (supplier_id : ℕ) (agreements : List AgreementRow) (min_date max_date : Date)
    (purchases : Purchases) (now : ℕ) where
  unfoldable pub visit_terms :
      ℕ → PeriodRow → Option RebateAgreement → Result (PeriodRow × ℕ × Bool)
  unfolding recalculate_period
  visit_terms next p none = ok (p, next, false)
  visit_terms next p (some terms) =
      recalculate_period supplier_id purchases now terms (with_next_event_id next p) >>= λ updated.
      ok (after_period next p updated)

  abbrev pub cons_if : Bool → PeriodRow → List PeriodRow → List PeriodRow
  cons_if true p updated = p ∷ updated
  cons_if false p updated = updated

  -- The table of periods after the call, and the periods that it returns.
  unfoldable pub recalculate_affected_periods :
      ℕ → List PeriodRow → Result (List PeriodRow × List PeriodRow)
  unfolding visit_terms affected
  recalculate_affected_periods next [] = ok ([], [])
  recalculate_affected_periods next (p ∷ periods) =
      visit_terms next p (affected supplier_id agreements min_date max_date p)
      >>= λ (q, next', is_updated).
          recalculate_affected_periods next' periods >>= λ (rows, updated).
          ok (q ∷ rows, cons_if is_updated q updated)
