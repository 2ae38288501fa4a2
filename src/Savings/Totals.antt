-- ===== src/Savings/Totals.antt =====
-- The stage totals of the waterfall on amounts of NUMERIC(18, 4) columns.
use procure_foundation.Prelude.{
  ℕ, ◌≡◌, ◌+◌, ◌<◌, ◌≤◌, Bool, List, [], ◌∷◌, refl, ap, sym, ◌∙◌, arith, if◌then◌else◌, true, false,
  Bool-cases, inl, inr,
}
use procure_foundation.Prelude.Int.{ℤ, pos, ◌+ℤ◌, nat_abs, nat_abs-+ℤ, int_laws}
use procure_foundation.Result.{ok}
use procure_foundation.Decimal.{Decimal, money, precision_bound, add}
use procure_foundation.Decimal.Exact.{add-money, round_currency-money, money-zero}
use procure_foundation.Opportunity.Model.{
  OpportunityStatus, identified, validated, approved, implementation, realised,
}
use procure_foundation.Savings.{
  SavingsWaterfallTotals, add_to, add_all, round_totals, calculate_savings_waterfall, no_savings,
}

-- An opportunity with its amount in ten-thousandths.
abbrev pub Entry : Type 0
Entry = OpportunityStatus × ℤ × Bool

abbrev pub as_rows : List Entry → List (OpportunityStatus × Decimal × Bool)
as_rows [] = []
as_rows ((s, a, o) ∷ es) = (s, money a, o) ∷ as_rows es

abbrev pub volume : List Entry → ℕ
volume [] = 0
volume ((_, a, _) ∷ es) = nat_abs a + volume es

-- The five stages of the waterfall.
pub data Stage : Type 0 where
  at_identified at_validated at_approved at_implementation at_realised : Stage

abbrev pub is_at : Stage → OpportunityStatus → Bool
is_at at_identified identified = true
is_at at_validated validated = true
is_at at_approved approved = true
is_at at_implementation implementation = true
is_at at_realised realised = true
is_at _ _ = false

-- The sum of the amounts at a stage.
abbrev pub stage_total : Stage → List Entry → ℤ
stage_total stage [] = pos 0
stage_total stage ((s, a, _) ∷ es) =
    if is_at stage s then a +ℤ stage_total stage es else stage_total stage es

abbrev pub in_column : Stage → SavingsWaterfallTotals → Decimal
in_column at_identified t = t.identified
in_column at_validated t = t.validated
in_column at_approved t = t.approved
in_column at_implementation t = t.implementation
in_column at_realised t = t.realised

in_column-add_to :
    (stage : Stage) (s : OpportunityStatus) (a : Decimal) (t : SavingsWaterfallTotals)
    → in_column stage (add_to s a t)
      ≡ (if is_at stage s then add (in_column stage t) a else in_column stage t)
in_column-add_to stage s a t = ground arith

in_column-add_all :
    (stage : Stage) (acc : ℤ) (t : SavingsWaterfallTotals) (es : List Entry)
    → in_column stage t ≡ money acc
    → nat_abs acc + volume es < precision_bound
    → in_column stage (add_all t (as_rows es)) ≡ money (acc +ℤ stage_total stage es)
unfolding add_all
in_column-add_all stage acc t [] e h = e ∙ ap money (omega int_laws)
in_column-add_all stage acc t ((s, a, _) ∷ es) e h =
    let grow = nat_abs-+ℤ acc a in
    let step = in_column-add_to stage s (money a) t in
    elim (Bool-cases (is_at stage s)) [
      | inl here ↦
          let now : in_column stage (add_to s (money a) t) ≡ money (acc +ℤ a) =
            step ∙ rw (here, e) (add-money acc a (omega (arith, grow))) in
          rw here (
            in_column-add_all stage (acc +ℤ a) (add_to s (money a) t) es now (omega (arith, grow))
            ∙ ap money (omega int_laws))
      | inr elsewhere ↦
          let now : in_column stage (add_to s (money a) t) ≡ money acc = step ∙ rw elsewhere e in
          rw elsewhere (in_column-add_all stage acc (add_to s (money a) t) es now (omega arith))
    ]

the_same : (a : ℤ) → pos 0 +ℤ a ≡ a
the_same a = omega int_laws

stage_total-volume : (stage : Stage) (es : List Entry) → nat_abs (stage_total stage es) ≤ volume es
stage_total-volume stage [] = omega arith
stage_total-volume stage ((s, a, _) ∷ es) =
    let h = nat_abs-+ℤ a (stage_total stage es) in
    let k = stage_total-volume stage es in
    elim (Bool-cases (is_at stage s)) [
      | inl here ↦ rw here (omega (arith, h, k))
      | inr elsewhere ↦ rw elsewhere (omega (arith, k))
    ]

-- The totals in ten-thousandths.
abbrev pub totals_of : List Entry → SavingsWaterfallTotals
totals_of es = record {
  identified = money (stage_total at_identified es);
  validated = money (stage_total at_validated es);
  approved = money (stage_total at_approved es);
  implementation = money (stage_total at_implementation es);
  realised = money (stage_total at_realised es);
}

-- On amounts of NUMERIC(18, 4) columns whose absolute sum is below 10^24, the total of each stage is
-- the exact sum of the amounts of the opportunities at that stage: each opportunity counts at its
-- own stage only, and a rejected, an expired or an unknown one at none.
pub calculate_savings_waterfall-money :
    (es : List Entry)
    → volume es < precision_bound
    → calculate_savings_waterfall (as_rows es) ≡ ok (totals_of es)
unfolding calculate_savings_waterfall round_totals
calculate_savings_waterfall-money es h =
    let column = λ (stage : Stage) (e : in_column stage no_savings ≡ money (pos 0)).
      in_column-add_all stage (pos 0) no_savings es e (omega arith)
      ∙ ap money (the_same (stage_total stage es)) in
    let small = λ (stage : Stage).
      round_currency-money (stage_total stage es) (omega (arith, stage_total-volume stage es)) in
    let z = sym money-zero in
    rw
      (
        column at_identified z,
        column at_validated z,
        column at_approved z,
        column at_implementation z,
        column at_realised z,
        small at_identified,
        small at_validated,
        small at_approved,
        small at_implementation,
        small at_realised,
      )
      refl
