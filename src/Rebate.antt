-- ===== src/Rebate.antt =====
-- backend/app/analytics/rebate_calculations.py: the expected rebate, the next tier, leakage, the
-- threshold alert, the status, and the aggregation of transactions over a period.
pub mod Tiers
pub mod Leakage
pub mod Alerts
pub mod Periods
pub mod Model
pub mod Service
pub mod Steps
pub mod Locked
pub mod Aggregation
pub mod Versions
mod Tests
mod PeriodTests
mod AggregationTests
use procure_foundation.Prelude.{
  ℕ, suc, ◌≡◌, Bool, true, false, not, ◌&&◌, ◌||◌, Option, none, some, List, [], ◌∷◌, map, foldl,
  length, filter, leb, if◌then◌else◌,
}
use procure_foundation.Prelude.Int.{ℤ, pos, leb_ℤ, ltb_ℤ}
use procure_foundation.Prelude.Order.{max_by, sorted_by}
use procure_foundation.Result.{Result, ok, err, value_error, ◌>>=◌, ◌>>◌}
use procure_foundation.Decimal.{Decimal, add, sub, mul, sum, decimal, round_currency}
use procure_foundation.Calendar.{Date, days_between}

pub data RebateType : Type 0 where
  fixed_percentage tiered volume growth fixed_amount retrospective : RebateType

pub data RebateStatus : Type 0 where
  on_track threshold_approaching period_closed_awaiting_payment : RebateStatus
  leakage_detected reconciled : RebateStatus

pub data EntrySource : Type 0 where
  manual transaction_aggregation invoice_aggregation : EntrySource

pub record RebateBand : Type 0 where
  pub threshold_spend : Decimal
  pub rate_pct : Decimal

abbrev pub is_reached : Decimal → RebateBand → Bool
is_reached spend b = leb_ℤ b.threshold_spend spend

-- `[b for b in bands if actual_spend >= b.threshold_spend]`
abbrev pub applicable : Decimal → List RebateBand → List RebateBand
applicable spend = filter (is_reached spend)

-- The rate of a percentage, volume or growth rebate.
flat_rebate : Decimal → Option Decimal → Result Decimal
flat_rebate spend none = err value_error
flat_rebate spend (some rate) = round_currency (mul spend rate)

-- The rate of the highest band that the spend has reached applies to the whole spend.
pay_best_band : Decimal → List RebateBand → Result Decimal
unfolding max_by
pay_best_band spend [] = ok (pos 0)
pay_best_band spend (b ∷ bs) =
    round_currency (mul spend (max_by (λ x. x.threshold_spend) b bs).rate_pct)

banded_rebate : Decimal → Option (List RebateBand) → Result Decimal
unfolding pay_best_band
banded_rebate spend none = err value_error
banded_rebate spend (some []) = err value_error
banded_rebate spend (some (b ∷ bs)) = pay_best_band spend (applicable spend (b ∷ bs))

fixed_rebate : Option Decimal → Result Decimal
fixed_rebate none = err value_error
fixed_rebate (some amount) = round_currency amount

pub calculate_expected_rebate :
    Decimal
    → RebateType
    → Option Decimal
    → Option (List RebateBand)
    → Option Decimal
    → Result Decimal
unfolding flat_rebate banded_rebate fixed_rebate
calculate_expected_rebate spend fixed_percentage rate bands amount = flat_rebate spend rate
calculate_expected_rebate spend volume rate bands amount = flat_rebate spend rate
calculate_expected_rebate spend growth rate bands amount = flat_rebate spend rate
calculate_expected_rebate spend tiered rate bands amount = banded_rebate spend bands
calculate_expected_rebate spend retrospective rate bands amount = banded_rebate spend bands
calculate_expected_rebate spend fixed_amount rate bands amount = fixed_rebate amount

-- `sorted((b for b in bands if b.threshold_spend > actual_spend), key=...)`
pub higher_bands : Decimal → List RebateBand → List RebateBand
unfolding sorted_by
higher_bands spend bands =
    sorted_by (λ b. b.threshold_spend) (filter (λ b. ltb_ℤ spend b.threshold_spend) bands)

next_tier : Decimal → List RebateBand → Result (Option (Decimal × Decimal))
next_tier spend [] = ok none
next_tier spend (b ∷ bs) = do
  remaining ← round_currency (sub b.threshold_spend spend)
  ok (some (b.threshold_spend, remaining))

-- `none` is the pair `None, None`.
pub calculate_progress_to_next_tier :
    Decimal → List RebateBand → Result (Option (Decimal × Decimal))
unfolding higher_bands next_tier
calculate_progress_to_next_tier spend [] = err value_error
calculate_progress_to_next_tier spend (b ∷ bs) = next_tier spend (higher_bands spend (b ∷ bs))

abbrev received_or_zero : Option Decimal → Decimal
received_or_zero none = pos 0
received_or_zero (some r) = r

pub calculate_rebate_leakage : Decimal → Option Decimal → Result Decimal
calculate_rebate_leakage expected received =
    round_currency (sub expected (received_or_zero received))

-- The loop of `sum` over the leakages of the pairs.
leakage_from : Decimal → List (Decimal × Option Decimal) → Result Decimal
unfolding calculate_rebate_leakage
leakage_from total [] = ok total
leakage_from total ((expected, received) ∷ pairs) =
    calculate_rebate_leakage expected received >>= λ l. leakage_from (add total l) pairs

pub calculate_aggregate_rebate_leakage : List (Decimal × Option Decimal) → Result Decimal
unfolding leakage_from
calculate_aggregate_rebate_leakage pairs = do
  total ← leakage_from (pos 0) pairs
  round_currency total

alert_for : Decimal → Date → Date → Decimal → ℤ → Option (Decimal × Decimal) → Bool
alert_for spend today period_end buffer_pct buffer_days none = false
alert_for spend today period_end buffer_pct buffer_days (some (next, _)) =
    let days_to_close = days_between period_end today in
    if ltb_ℤ days_to_close (pos 0) || ltb_ℤ buffer_days days_to_close
    then false
    else leb_ℤ (mul next buffer_pct) spend

pub is_threshold_alert_due : Decimal → List RebateBand → Date → Date → Decimal → ℤ → Result Bool
unfolding calculate_progress_to_next_tier alert_for
is_threshold_alert_due spend bands today period_end buffer_pct buffer_days = do
  next ← calculate_progress_to_next_tier spend bands
  ok (alert_for spend today period_end buffer_pct buffer_days next)

-- The defaults 85% and 30 days.
abbrev pub default_buffer_pct : Decimal
default_buffer_pct = decimal 85 2

pub classify_rebate_status : Decimal → Option Decimal → Bool → Bool → Result RebateStatus
unfolding calculate_rebate_leakage
classify_rebate_status expected (some received) closed alert = do
  leakage ← calculate_rebate_leakage expected (some received)
  ok (if leb_ℤ leakage (decimal 1 4) then reconciled else leakage_detected)
classify_rebate_status expected none closed alert = ok (
    if closed
    then period_closed_awaiting_payment
    else if alert
    then threshold_approaching
    else on_track)

pub is_period_due_for_close : Date → Date → Bool
is_period_due_for_close period_end today = leb period_end today

-- A row `(amount, quantity, transaction_date)`.
pub record PurchaseRow : Type 0 where
  pub amount : Decimal
  pub quantity : Decimal
  pub transaction_date : Date

pub record TransactionAggregate : Type 0 where
  pub total_spend : Decimal
  pub total_volume : Decimal
  pub transaction_count : ℕ

pub in_period : Date → Date → List PurchaseRow → List PurchaseRow
in_period start end = filter (λ t. leb start t.transaction_date && leb t.transaction_date end)

pub aggregate_transactions_for_period : List PurchaseRow → Date → Date → Result TransactionAggregate
unfolding in_period sum
aggregate_transactions_for_period transactions start end = do
  let rows = in_period start end transactions
  spend ← round_currency (sum (map (λ t. t.amount) rows))
  ok (record {
    total_spend = spend;
    total_volume = sum (map (λ t. t.quantity) rows);
    transaction_count = length rows;
  })
