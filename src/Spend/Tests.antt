-- ===== src/Spend/Tests.antt =====
-- Runs of the spend functions, and the contributors of a concrete spend.
use procure_foundation.Prelude.{◌≡◌, ◌≢◌, refl, List, [], ◌∷◌, ℕ, arith}
use procure_foundation.Prelude.Int.{pos}
use procure_foundation.Prelude.Order.{sorted_by, insert_by}
use procure_foundation.Result.{ok}
use procure_foundation.Decimal.{decimal, arithmetic}
use procure_foundation.Spend.{
  SpendItem, add_row, total_rows, round_items, aggregate_spend, class_c, classify_from,
  calculate_abc_classification, total_of, ParetoResult, contributors_from,
  calculate_pareto_contributors,
}

abbrev item : ℕ → SpendItem
item n = record { key = "S1"; label = "Mill"; amount = decimal n 0 }

aggregates :
    aggregate_spend (
      ("S1", "Mill", decimal 40 0)
      ∷ ("S2", "Farm", decimal 70 0)
      ∷ ("S1", "Mill", decimal 60 0)
      ∷ [])
    ≡ ok (item 100 ∷ record { key = "S2"; label = "Farm"; amount = decimal 70 0 } ∷ [])
unfolding aggregate_spend total_rows add_row round_items sorted_by insert_by arithmetic
aggregates = refl

-- An item that is all of the spend has a share of 100%, which is above both thresholds.
sole_item_is_c :
    calculate_abc_classification (decimal 8 1) (decimal 95 2) (item 100 ∷ [])
    ≡ ok (record { item = item 100; cumulative_pct = decimal 1 0; classification = class_c } ∷ [])
unfolding calculate_abc_classification classify_from arithmetic
sole_item_is_c = refl

abbrev items : List SpendItem
items = item 70 ∷ item 20 ∷ item 10 ∷ []

abbrev two_of_three : ParetoResult
two_of_three = record {
  contributors = item 70 ∷ item 20 ∷ [];
  contributor_count = 2;
  total_item_count = 3;
  cumulative_pct_covered = decimal 9 1;
}

covers : calculate_pareto_contributors items (decimal 8 1) ≡ ok two_of_three
unfolding calculate_pareto_contributors contributors_from arithmetic
covers = refl

total-ne-zero : total_of items ≢ pos 0
unfolding arithmetic
total-ne-zero e = ground arith
