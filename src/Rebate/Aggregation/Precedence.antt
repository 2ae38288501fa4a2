-- ===== src/Rebate/Aggregation/Precedence.antt =====
-- Which source a period is recalculated from.
use procure_foundation.Prelude.{
  ℕ, ◌≡◌, ◌≤◌, refl, sym, subst, arith, ◌⊎◌, inl, inr, Bool, true, Bool-cases, Option, Option-cases,
  none, some, List, [], ◌∷◌,
}
use procure_foundation.Result.{ok, >>=-eq-ok, ok-injective}
use procure_foundation.Calendar.{Date}
use procure_foundation.Rebate.{
  EntrySource, manual, transaction_aggregation, invoice_aggregation, PurchaseRow,
  TransactionAggregate, aggregate_transactions_for_period,
}
use procure_foundation.Rebate.Model.{RebateAgreement, Ledger, rebate_aggregation_recalc}
use procure_foundation.Rebate.Service.{recalculate_expected, write_expected_amount_event}
use procure_foundation.Rebate.Steps.{recalculate_expected-ok}
use procure_foundation.Rebate.Aggregation.{
  AgreementRow, PeriodRow, Purchases, invoice_tuples, transaction_tuples, choose_source,
  is_aggregated, with_actuals, aggregate_from, recalculate_period, affected, is_affected,
  with_next_event_id, after_period, visit_terms, recalculate_affected_periods,
}

-- The precedence: invoices over transactions over a manual entry.
abbrev pub rank : EntrySource → ℕ
rank manual = 0
rank transaction_aggregation = 1
rank invoice_aggregation = 2

-- The purchases that a source stands for.
abbrev pub purchases_of : EntrySource → List PurchaseRow → List PurchaseRow → List PurchaseRow
purchases_of manual invoices transactions = []
purchases_of transaction_aggregation invoices transactions = transactions
purchases_of invoice_aggregation invoices transactions = invoices

choose_source_lem :
    (source : EntrySource) (invoices transactions : List PurchaseRow)
    → let (chosen, rows) = choose_source source invoices transactions in
      (rank source ≤ rank chosen) × (rows ≡ purchases_of chosen invoices transactions)
unfolding choose_source
choose_source_lem invoice_aggregation invoices transactions = (omega arith, refl)
choose_source_lem manual (x ∷ invoices) transactions = (omega arith, refl)
choose_source_lem manual [] (x ∷ transactions) = (omega arith, refl)
choose_source_lem manual [] [] = (omega arith, refl)
choose_source_lem transaction_aggregation (x ∷ invoices) transactions = (omega arith, refl)
choose_source_lem transaction_aggregation [] (x ∷ transactions) = (omega arith, refl)
choose_source_lem transaction_aggregation [] [] = (omega arith, refl)

-- What the period `q` is, where it has been recalculated from the period `p`: its source is an
-- aggregation of at least the rank of before, and its spend and volume are the totals of that
-- source's purchases in the period.
abbrev pub IsAggregated : List PurchaseRow → List PurchaseRow → PeriodRow → PeriodRow → Type 0
IsAggregated invoices transactions p q =
    (rank p.entry_source ≤ rank q.entry_source)
    × (is_aggregated q.entry_source ≡ true)
    × (aggregate : TransactionAggregate) × (aggregate_transactions_for_period
          (purchases_of q.entry_source invoices transactions) p.ledger.period.period_start
          p.ledger.period.period_end
        ≡ ok aggregate)
    × (q.ledger.period.actual_spend ≡ some aggregate.total_spend)
    × (q.ledger.period.actual_volume ≡ some aggregate.total_volume)
    × (q.ledger.period.earned_amount ≡ p.ledger.period.earned_amount)

recalculated-keeps :
    (terms : RebateAgreement) (now id : ℕ) (source : EntrySource) (l : Ledger) {s : Ledger}
    → recalculate_expected terms now none (rebate_aggregation_recalc id source) "recalculation" l
      ≡ ok s
    → (s.period.actual_spend ≡ l.period.actual_spend)
      × (s.period.actual_volume ≡ l.period.actual_volume)
      × (s.period.earned_amount ≡ l.period.earned_amount)
unfolding write_expected_amount_event
recalculated-keeps terms now id source l e =
    let (_, same) = recalculate_expected-ok terms now none _ _ l e in
    rw (sym same) (refl, refl, refl)

aggregate_from-ok :
    (terms : RebateAgreement) (now : ℕ) (source : EntrySource) (rows : List PurchaseRow)
    (p q : PeriodRow)
    → aggregate_from terms now source rows p ≡ ok q
    → (q.entry_source ≡ source)
      × (aggregate : TransactionAggregate) × (aggregate_transactions_for_period rows
            p.ledger.period.period_start p.ledger.period.period_end
          ≡ ok aggregate)
      × (q.ledger.period.actual_spend ≡ some aggregate.total_spend)
      × (q.ledger.period.actual_volume ≡ some aggregate.total_volume)
      × (q.ledger.period.earned_amount ≡ p.ledger.period.earned_amount)
unfolding aggregate_from
aggregate_from-ok terms now source rows p q e =
    let (aggregate, e0, e1) =
      >>=-eq-ok
        (aggregate_transactions_for_period rows p.ledger.period.period_start
          p.ledger.period.period_end)
        _ e in
    let start = with_actuals aggregate p.ledger in
    let reference = rebate_aggregation_recalc p.ledger.period.id source in
    let (l, e2, e3) =
      >>=-eq-ok (recalculate_expected terms now none reference "recalculation" start) _ e1 in
    let kept = recalculated-keeps terms now p.ledger.period.id source start e2 in
    let same = ok-injective e3 in rw (sym same) (refl, aggregate, e0, kept.0, kept.1, kept.2)

IsAggregated-chosen :
    (supplier_id : ℕ) (purchases : Purchases) (now : ℕ) (terms : RebateAgreement) (p q : PeriodRow)
    → let invoices = invoice_tuples supplier_id purchases in
      let transactions = transaction_tuples supplier_id purchases in
      let (source, rows) = choose_source p.entry_source invoices transactions in
      is_aggregated source ≡ true
      → aggregate_from terms now source rows p ≡ ok q
      → IsAggregated invoices transactions p q
IsAggregated-chosen supplier_id purchases now terms p q chosen e =
    let invoices = invoice_tuples supplier_id purchases in
    let transactions = transaction_tuples supplier_id purchases in
    let (source, rows) = choose_source p.entry_source invoices transactions in
    let (higher, same) = choose_source_lem p.entry_source invoices transactions in
    let (at_source, aggregate, e0, spend, volume, earned) =
      aggregate_from-ok terms now source rows p q e in
    rw at_source (higher, chosen, aggregate, rw same at e0, spend, volume, earned)

recalculate_period-ok :
    (supplier_id : ℕ) (purchases : Purchases) (now : ℕ) (terms : RebateAgreement) (p q : PeriodRow)
    → recalculate_period supplier_id purchases now terms p ≡ ok (some q)
    → IsAggregated
        (invoice_tuples supplier_id purchases)
        (transaction_tuples supplier_id purchases)
        p
        q
unfolding recalculate_period
recalculate_period-ok supplier_id purchases now terms p q e =
    let invoices = invoice_tuples supplier_id purchases in
    let transactions = transaction_tuples supplier_id purchases in
    let (source, rows) = choose_source p.entry_source invoices transactions in
    elim (Bool-cases (is_aggregated source)) [
      | inl chosen ↦
          let (q', e1, e2) =
            >>=-eq-ok (aggregate_from terms now source rows p) _ (rw chosen at e) in
          let same : q' ≡ q = cc in
          subst (IsAggregated invoices transactions p) same
            (IsAggregated-chosen supplier_id purchases now terms p q' chosen e1)
      | inr unchosen ↦
          let no_row : Option PeriodRow = none in
          let e' : ok no_row ≡ ok (some q) = rw unchosen at e in cc
    ]

-- A period whose earned amount is NULL and which overlaps the dates may have been recalculated;
-- every other period is as it was.
abbrev pub IsKept :
    Date → Date → List PurchaseRow → List PurchaseRow → PeriodRow → PeriodRow → Type 0
IsKept min_date max_date invoices transactions p q =
    (q ≡ p)
    ⊎ (is_affected min_date max_date p.ledger.period ≡ true)
      × IsAggregated invoices transactions p q

abbrev pub Pairwise {ℓ} : {A : Type ℓ} → (A → A → Type 0) → List A → List A → Type 0
Pairwise R [] [] = Unit
Pairwise R (x ∷ xs) (y ∷ ys) = R x y × Pairwise R xs ys
Pairwise R _ _ = ⊥

module _ (supplier_id : ℕ) (agreements : List AgreementRow) (min_date max_date : Date)
    (purchases : Purchases) (now : ℕ) where
  abbrev Kept : PeriodRow → PeriodRow → Type 0
  Kept =
      IsKept min_date max_date (invoice_tuples supplier_id purchases)
        (transaction_tuples supplier_id purchases)

  visit_terms-ok :
      (next : ℕ) (p : PeriodRow) (terms : Option RebateAgreement) (q : PeriodRow) (next' : ℕ)
      (b : Bool)
      → affected supplier_id agreements min_date max_date p ≡ terms
      → visit_terms supplier_id agreements min_date max_date purchases now next p terms
        ≡ ok (q, next', b)
      → Kept p q
  unfolding visit_terms affected
  visit_terms-ok next p none q next' b h e = inl cc
  visit_terms-ok next p (some terms) q next' b h e =
      let (updated, e1, e2) =
        >>=-eq-ok (recalculate_period supplier_id purchases now terms (with_next_event_id next p)) _
          e in
      let is_in : is_affected min_date max_date p.ledger.period ≡ true = ground (arith, h) in
      elim (Option-cases updated) [
        | inl none_updated ↦
            let e3 : ok (after_period next p none) ≡ ok (q, next', b) = rw none_updated at e2 in
            inl cc
        | inr (q', is_q') ↦
            let e3 : ok (after_period next p (some q')) ≡ ok (q, next', b) = rw is_q' at e2 in
            let same : q' ≡ q = cc in
            inr (
              is_in,
              subst (IsAggregated _ _ p) same (
                  recalculate_period-ok supplier_id purchases now terms (with_next_event_id next p)
                    q' (rw is_q' at e1)),
            )
      ]

  -- A recalculation that raises nothing leaves every period that has been closed, or that does not
  -- overlap the dates, as it was. Each other period is as it was, or is not closed, has a source of
  -- at least the precedence of before (invoices over transactions over a manual entry), and has the
  -- totals, over the period, of the supplier's purchases of that source, those that correct an
  -- earlier purchase (whose corrects_id is set) left out.
  pub recalculate_affected_periods-precedence :
      (next : ℕ) (before after updated : List PeriodRow)
      → recalculate_affected_periods supplier_id agreements min_date max_date purchases now next
          before
        ≡ ok (after, updated)
      → Pairwise Kept before after
  unfolding recalculate_affected_periods
  recalculate_affected_periods-precedence next [] after updated e =
      let same : [] ≡ after = cc in subst (Pairwise Kept []) same tt
  recalculate_affected_periods-precedence next (p ∷ before) after updated e =
      let terms = affected supplier_id agreements min_date max_date p in
      let visit = visit_terms supplier_id agreements min_date max_date purchases now next p terms in
      let ((q, next', b), e1, e2) = >>=-eq-ok visit _ e in
      let rest =
        recalculate_affected_periods supplier_id agreements min_date max_date purchases now next'
          before in
      let ((rows, updated'), e3, e4) = >>=-eq-ok rest _ e2 in
      let same : q ∷ rows ≡ after = cc in
      subst (Pairwise Kept (p ∷ before)) same (
        visit_terms-ok next p terms q next' b refl e1,
        recalculate_affected_periods-precedence next' before rows updated' e3,
      )
