-- ===== src/Rebate/Periods.antt =====
-- The transactions of a period that is split in two.
use procure_foundation.Prelude.{
  ℕ, suc, ◌+◌, ◌≤◌, ◌<◌, ◌≡◌, ◌&&◌, ◌∙◌, ap, sym, subst, foldl, Bool-cases, inl, inr, refl, Bool,
  List, [], ◌∷◌, map, length, leb, arith, if◌then◌else◌,
}
use procure_foundation.Prelude.Int.{ℤ, pos, ◌+ℤ◌, nat_abs, nat_abs-+ℤ, int_laws}
use procure_foundation.Result.{ok}
use procure_foundation.Decimal.{Decimal, money, precision_bound, add, sum}
use procure_foundation.Decimal.Exact.{add-money, round_currency-money, money-zero}
use procure_foundation.Calendar.{Date}
use procure_foundation.Rebate.{
  PurchaseRow, TransactionAggregate, in_period, aggregate_transactions_for_period,
  TransactionAggregate,
}

-- A row with amounts of NUMERIC(18, 4) columns: its spend, its quantity and its date.
abbrev pub Entry : Type 0
Entry = ℤ × ℤ × Date

abbrev pub as_row : Entry → PurchaseRow
as_row (a, q, d) = record { amount = money a; quantity = money q; transaction_date = d }

abbrev pub within : Date → Date → Entry → Bool
within start end (_, _, d) = leb start d && leb d end

-- The sum of a number over the entries of a period.
abbrev pub total : (Entry → ℤ) → Date → Date → List Entry → ℤ
total pick start end [] = pos 0
total pick start end (e ∷ es) =
    if within start end e then pick e +ℤ total pick start end es else total pick start end es

abbrev pub spend_of : Entry → ℤ
spend_of (a, _, _) = a

abbrev pub quantity_of : Entry → ℤ
quantity_of (_, q, _) = q

abbrev pub count : Date → Date → List Entry → ℕ
count start end [] = 0
count start end (e ∷ es) =
    if within start end e then suc (count start end es) else count start end es

abbrev pub volume : List Entry → ℕ
volume [] = 0
volume (e ∷ es) = nat_abs (spend_of e) + nat_abs (quantity_of e) + volume es

module _ (field : PurchaseRow → Decimal) (pick : Entry → ℤ)
    (fits : (e : Entry) → field (as_row e) ≡ money (pick e))
    (small : (e : Entry) → nat_abs (pick e) ≤ nat_abs (spend_of e) + nat_abs (quantity_of e))
    (start end : Date) where
  foldl-add :
      (acc : ℤ) (es : List Entry)
      → nat_abs acc + volume es < precision_bound
      → foldl add (money acc) (map field (in_period start end (map as_row es)))
        ≡ money (acc +ℤ total pick start end es)
  unfolding in_period
  foldl-add acc [] h = ap money (omega int_laws)
  foldl-add acc (e ∷ es) h = elim (Bool-cases (within start end e)) [
    | inl inside ↦
        let grow = nat_abs-+ℤ acc (pick e) in
        rw (inside, fits e, add-money acc (pick e) (omega (arith, grow, small e)))
          (foldl-add (acc +ℤ pick e) es (omega (arith, grow, small e)) ∙ ap money (omega int_laws))
    | inr outside ↦ rw outside (foldl-add acc es (omega arith))
  ]

  total-volume : (es : List Entry) → nat_abs (total pick start end es) ≤ volume es
  total-volume [] = omega arith
  total-volume (e ∷ es) = elim (Bool-cases (within start end e)) [
    | inl inside ↦
        rw inside
          (omega (arith, nat_abs-+ℤ (pick e) (total pick start end es), small e, total-volume es))
    | inr outside ↦ rw outside (omega (arith, total-volume es))
  ]

  sum-in_period :
      (es : List Entry)
      → volume es < precision_bound
      → sum (map field (in_period start end (map as_row es))) ≡ money (total pick start end es)
  unfolding sum
  sum-in_period es h =
      ap (λ z. foldl add z (map field (in_period start end (map as_row es)))) (sym money-zero)
      ∙ foldl-add (pos 0) es (omega arith)
      ∙ ap money (omega int_laws)

length-in_period :
    (start end : Date) (es : List Entry)
    → length (in_period start end (map as_row es)) ≡ count start end es
unfolding in_period
length-in_period start end [] = refl
length-in_period start end (e ∷ es) = ground (arith, length-in_period start end es)

-- With amounts and quantities of NUMERIC(18, 4) columns whose absolute sum is below 10^24 the
-- aggregate of a period is the exact sum of the amounts and of the quantities of its transactions,
-- both ends included, and their number.
pub aggregate_transactions_for_period-money :
    (start end : Date) (es : List Entry)
    → volume es < precision_bound
    → aggregate_transactions_for_period (map as_row es) start end
      ≡ ok (record {
        total_spend = money (total spend_of start end es);
        total_volume = money (total quantity_of start end es);
        transaction_count = count start end es;
      })
unfolding aggregate_transactions_for_period
aggregate_transactions_for_period-money start end es h =
    let spent =
      sum-in_period (λ t. t.amount) spend_of (λ e. refl) (λ e. omega arith) start end es h in
    let bought =
      sum-in_period (λ t. t.quantity) quantity_of (λ e. refl) (λ e. omega arith) start end es h in
    let fits = total-volume (λ t. t.amount) spend_of (λ e. refl) (λ e. omega arith) start end es in
    rw (
      spent,
      bought,
      length-in_period start end es,
      round_currency-money (total spend_of start end es) (omega arith),
    )

split_total :
    (pick : Entry → ℤ) (start middle end : Date) (es : List Entry)
    → start ≤ middle
    → middle < end
    → total pick start end es ≡ total pick start middle es +ℤ total pick (suc middle) end es
split_total pick start middle end [] h k = omega int_laws
split_total pick start middle end (e ∷ es) h k =
    let ih = split_total pick start middle end es h k in grind (int_laws)

join_money :
    (a b : ℤ) {c : ℤ} → c ≡ a +ℤ b → nat_abs c < precision_bound → money c ≡ add (money a) (money b)
join_money a b e h = ap money e ∙ sym (add-money a b (subst (λ x. nat_abs x < precision_bound) e h))

split_count :
    (start middle end : Date) (es : List Entry)
    → start ≤ middle
    → middle < end
    → count start end es ≡ count start middle es + count (suc middle) end es
split_count start middle end [] h k = omega arith
split_count start middle end (e ∷ es) h k = ground (arith, split_count start middle end es h k)

-- A period that is split after the day `middle`, over amounts and quantities of NUMERIC(18, 4)
-- columns whose absolute sum is below 10^24: all three aggregates are computed, and the spend, the
-- quantity and the number of transactions of the whole are the sums of those of the two parts.
pub aggregate_transactions_for_period-split :
    (start middle end : Date) (es : List Entry)
    → start ≤ middle
    → middle < end
    → volume es < precision_bound
    → let rows = map as_row es in
      (a b c : TransactionAggregate) × (aggregate_transactions_for_period rows start middle ≡ ok a)
      × (aggregate_transactions_for_period rows (suc middle) end ≡ ok b)
      × (aggregate_transactions_for_period rows start end ≡ ok c)
      × (c.total_spend ≡ add a.total_spend b.total_spend)
      × (c.total_volume ≡ add a.total_volume b.total_volume)
      × (c.transaction_count ≡ a.transaction_count + b.transaction_count)
aggregate_transactions_for_period-split start middle end es h k small =
    let exact = λ (s e : Date). aggregate_transactions_for_period-money s e es small in
    let joined = λ (pick : Entry → ℤ). split_total pick start middle end es h k in
    let spent = total-volume (λ t. t.amount) spend_of (λ e. refl) (λ e. omega arith) start end es in
    let bought =
      total-volume (λ t. t.quantity) quantity_of (λ e. refl) (λ e. omega arith) start end es in
    (
      _,
      _,
      _,
      exact start middle,
      exact (suc middle) end,
      exact start end,
      join_money _ _ (joined spend_of) (omega arith),
      join_money _ _ (joined quantity_of) (omega arith),
      split_count start middle end es h k,
    )
