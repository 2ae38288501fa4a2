-- ===== src/Rebate/Alerts.antt =====
-- When the threshold alert of a rebate is due.
use procure_foundation.Prelude.{◌≡◌, ◌≤◌, ◌↔◌, ap, true, Option, none, some, arith}
use procure_foundation.Prelude.Int.{ℤ, ◌≤ℤ◌}
use procure_foundation.Result.{ok, ok-injective}
use procure_foundation.Decimal.{Decimal, mul}
use procure_foundation.Calendar.{Date, days_between}
use procure_foundation.Rebate.{
  RebateBand, calculate_progress_to_next_tier, alert_for, is_threshold_alert_due,
}
use mathlib.Core.List.{List}

-- There is a next tier, today is at most `buffer_days` before the period's end and not after it,
-- and the spend has reached the given share of the tier's threshold.
abbrev pub IsClose : Decimal → Date → Date → Decimal → ℤ → Option (Decimal × Decimal) → Type 0
IsClose spend today period_end buffer_pct buffer_days none = ⊥
IsClose spend today period_end buffer_pct buffer_days (some (t, _)) =
    (today ≤ period_end)
    × (days_between period_end today ≤ℤ buffer_days)
    × (mul t buffer_pct ≤ℤ spend)

alert_for_iff :
    (spend : Decimal) (today period_end : Date) (pct : Decimal) (days : ℤ)
    (next : Option (Decimal × Decimal))
    → (alert_for spend today period_end pct days next ≡ true)
      ↔ IsClose spend today period_end pct days next
unfolding alert_for
alert_for_iff spend today period_end pct days none = ground arith
alert_for_iff spend today period_end pct days (some (t, r)) = ground arith

-- The alert is due exactly where there is a next tier, today is at most `buffer_days` before the
-- period's end and not after it, and the spend has reached the given share of the tier's threshold.
pub is_threshold_alert_due_iff :
    (spend : Decimal) (bands : List RebateBand) (today period_end : Date) (buffer_pct : Decimal)
    (buffer_days : ℤ) (next : Option (Decimal × Decimal))
    → calculate_progress_to_next_tier spend bands ≡ ok next
    → (is_threshold_alert_due spend bands today period_end buffer_pct buffer_days ≡ ok true)
      ↔ IsClose spend today period_end buffer_pct buffer_days next
unfolding is_threshold_alert_due
is_threshold_alert_due_iff spend bands today period_end pct days next e =
    let h = alert_for_iff spend today period_end pct days next in
    rw e (λ k. h.0 (ok-injective k), λ k. ap ok (h.1 k))
