-- ===== src/Spend.antt =====
-- backend/app/analytics/spend_analytics.py: aggregation, ABC classification, Pareto contributors, the
-- monthly trend and the consistency of prices.
pub mod Pareto
mod Tests
use Prim.Native.String.{String}
use text.Mathlib.Text.{◌==◌ as str_eq}
use procure_foundation.Prelude.{
  ℕ, Bool, false, Option, none, some, List, [], ◌∷◌, map, length, if◌then◌else◌,
}
use procure_foundation.Prelude.Int.{pos, neg, leb_ℤ, eqb_ℤ}
use procure_foundation.Prelude.Order.{sorted_by, max_by}
use procure_foundation.Result.{Result, ok, err, value_error, ◌>>=◌}
use procure_foundation.Decimal.{Decimal, add, sub, div, sum, round_currency, percentage_of}
use procure_foundation.Calendar.{Date}

pub record SpendItem : Type 0 where
  pub key : String
  pub label : String
  pub amount : Decimal

-- `totals[key] = totals.get(key, 0) + amount` and `labels[key] = label`, on one dict of both.
unfoldable pub add_row : String → String → Decimal → List SpendItem → List SpendItem
add_row key label amount [] = record { key = key; label = label; amount = add (pos 0) amount } ∷ []
add_row key label amount (i ∷ is) =
    if str_eq i.key key
    then record i { label = label; amount = add i.amount amount } ∷ is
    else i ∷ add_row key label amount is

unfoldable pub total_rows : List SpendItem → List (String × String × Decimal) → List SpendItem
total_rows items [] = items
total_rows items ((key, label, amount) ∷ rows) = total_rows (add_row key label amount items) rows

unfoldable pub round_items : List SpendItem → Result (List SpendItem)
round_items [] = ok []
round_items (i ∷ is) =
    let rest = round_items is in
    round_currency i.amount >>= λ a. rest >>= λ r. ok (record i { amount = a } ∷ r)

-- Highest spend first.
unfoldable pub aggregate_spend : List (String × String × Decimal) → Result (List SpendItem)
unfolding total_rows add_row round_items sorted_by
aggregate_spend rows =
    round_items (total_rows [] rows) >>= λ items. ok (sorted_by (λ i. neg i.amount) items)

pub data AbcClass : Type 0 where
  class_a class_b class_c : AbcClass

pub record AbcResult : Type 0 where
  pub item : SpendItem
  pub cumulative_pct : Decimal
  pub classification : AbcClass

abbrev pub classify : Decimal → Decimal → Decimal → AbcClass
classify a_threshold b_threshold pct =
    if leb_ℤ pct a_threshold then class_a else if leb_ℤ pct b_threshold then class_b else class_c

unfoldable pub classify_from :
    Decimal → Decimal → Decimal → Decimal → List SpendItem → Result (List AbcResult)
classify_from a_threshold b_threshold total running [] = ok []
classify_from a_threshold b_threshold total running (i ∷ is) =
    let now = add running i.amount in
    let rest = classify_from a_threshold b_threshold total now is in
    percentage_of now total >>= λ pct. rest >>= λ r. ok (
      record {
        item = i;
        cumulative_pct = pct;
        classification = classify a_threshold b_threshold pct;
      }
      ∷ r)

abbrev pub total_of : List SpendItem → Decimal
total_of items = sum (map (λ i. i.amount) items)

-- By default the thresholds are 0.80 and 0.95.
unfoldable pub calculate_abc_classification :
    Decimal → Decimal → List SpendItem → Result (List AbcResult)
unfolding classify_from
calculate_abc_classification a_threshold b_threshold items =
    if eqb_ℤ (total_of items) (pos 0)
    then ok (map (λ i. record { item = i; cumulative_pct = pos 0; classification = class_c }) items)
    else classify_from a_threshold b_threshold (total_of items) (pos 0) items

pub record ParetoResult : Type 0 where
  pub contributors : List SpendItem
  pub contributor_count : ℕ
  pub total_item_count : ℕ
  pub cumulative_pct_covered : Decimal

-- The items up to the first at which the running share reaches the target, and the running sum.
unfoldable pub contributors_from :
    Decimal → Decimal → Decimal → List SpendItem → Result (List SpendItem × Decimal)
contributors_from target total running [] = ok ([], running)
contributors_from target total running (i ∷ is) =
    let now = add running i.amount in
    let rest = contributors_from target total now is in
    div now total >>= λ share.
    if leb_ℤ target share then ok (i ∷ [], now) else (rest >>= λ (r, n). ok (i ∷ r, n))

-- By default the target is 0.80.
unfoldable pub calculate_pareto_contributors : List SpendItem → Decimal → Result ParetoResult
unfolding contributors_from
calculate_pareto_contributors items target =
    if eqb_ℤ (total_of items) (pos 0)
    then ok (record {
      contributors = [];
      contributor_count = 0;
      total_item_count = length items;
      cumulative_pct_covered = pos 0;
    })
    else (contributors_from target (total_of items) (pos 0) items >>= λ (c, running).
        percentage_of running (total_of items) >>= λ pct. ok (record {
          contributors = c;
          contributor_count = length c;
          total_item_count = length items;
          cumulative_pct_covered = pct;
        }))

pub record MonthOverMonthPoint : Type 0 where
  pub month_label : String
  pub amount : Decimal
  pub change_pct : Option Decimal

unfoldable pub change_from : Option Decimal → Decimal → Result (Option Decimal)
change_from none amount = ok none
change_from (some prior) amount =
    if eqb_ℤ prior (pos 0)
    then ok none
    else (percentage_of (sub amount prior) prior >>= λ p. ok (some p))

unfoldable pub trend_from :
    Option Decimal → List (String × Decimal) → Result (List MonthOverMonthPoint)
unfolding change_from
trend_from prior [] = ok []
trend_from prior ((label, amount) ∷ months) =
    let rest = trend_from (some amount) months in
    change_from prior amount >>= λ pct. round_currency amount >>= λ a.
    rest >>= λ r. ok (record { month_label = label; amount = a; change_pct = pct } ∷ r)

unfoldable pub calculate_month_over_month_trend :
    List (String × Decimal) → Result (List MonthOverMonthPoint)
unfolding trend_from
calculate_month_over_month_trend monthly_totals = trend_from none monthly_totals

pub record PriceObservation : Type 0 where
  pub price : Decimal
  pub observed_date : Date
  pub location_label : Option String

pub record PriceConsistencyResult : Type 0 where
  pub min_price : Decimal
  pub max_price : Decimal
  pub spread : Decimal
  pub spread_pct : Option Decimal
  pub is_significant : Bool
  pub observation_count : ℕ

abbrev pub is_at_least : Decimal → Option Decimal → Bool
is_at_least threshold none = false
is_at_least threshold (some pct) = leb_ℤ threshold pct

unfoldable pub spread_pct_of : Decimal → Decimal → Result (Option Decimal)
spread_pct_of spread min_price =
    if eqb_ℤ min_price (pos 0)
    then ok none
    else (percentage_of spread min_price >>= λ p. ok (some p))

-- By default the threshold is 0.05.
unfoldable pub calculate_price_consistency :
    Decimal → List PriceObservation → Result PriceConsistencyResult
unfolding max_by spread_pct_of
calculate_price_consistency threshold [] = err value_error
calculate_price_consistency threshold (o ∷ os) =
    let low = (max_by (λ x. neg x.price) o os).price in
    let high = (max_by (λ x. x.price) o os).price in
    round_currency (sub high low) >>= λ spread. spread_pct_of spread low >>= λ pct. ok (record {
      min_price = low;
      max_price = high;
      spread = spread;
      spread_pct = pct;
      is_significant = is_at_least threshold pct;
      observation_count = length (o ∷ os);
    })
