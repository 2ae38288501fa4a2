-- ===== src/Contract/Tests.antt =====
-- Runs of the contract functions, and the theorems at concrete contracts.
use procure_foundation.Prelude.{
  ◌≡◌, ◌≤◌, ◌<◌, ◌⊎◌, ◌+◌, ◌*◌, refl, true, false, none, some, List, [], ◌∷◌, ◌++◌, arith,
}
use procure_foundation.Prelude.Int.{ℤ, pos}
use procure_foundation.Prelude.Order.{sorted_by, insert_by}
use procure_foundation.Result.{ok, err, value_error}
use procure_foundation.Decimal.{decimal, arithmetic}
use procure_foundation.Calendar.Civil.{CivilDate, make_date, days_before_month, month_length}
use procure_foundation.Contract.{
  notice_period_open, fixed_percentage, cpi_linked, expiry, calculate_notice_deadline, add_months,
  min, calculate_next_renewal_date, classify_contract_status, determine_due_alerts, expiry_alerts,
  notice_alerts, has_alert, calculate_escalated_price, grow,
}
use procure_foundation.Contract.Renewal.{IsDate, calculate_next_renewal_date_lem}
use procure_foundation.Contract.Alerts.{determine_due_alerts-again}

abbrev january : CivilDate
january = record { year = 2024; month = 1; day = 31 }

leap_day : add_months january 1 ≡ ok (record { year = 2024; month = 2; day = 29 })
unfolding add_months make_date days_before_month
leap_day = refl

no_negative_notice : calculate_notice_deadline 739_000 (ℤ.negsuc 0) ≡ err value_error
unfolding calculate_notice_deadline
no_negative_notice = refl

two_years_at_ten :
    calculate_escalated_price (decimal 100 0) fixed_percentage (some (decimal 1 1)) none 2
    ≡ ok (decimal 121 0)
unfolding calculate_escalated_price grow arithmetic
two_years_at_ten = refl

no_index : calculate_escalated_price (decimal 100 0) cpi_linked none none 1 ≡ err value_error
unfolding calculate_escalated_price grow
no_index = refl

abbrev thresholds : List ℤ
thresholds = pos 30 ∷ pos 180 ∷ pos 90 ∷ pos 60 ∷ []

two_alerts :
    determine_due_alerts 739_000 739_080 739_050 [] thresholds
    ≡ expiry (pos 180) ∷ expiry (pos 90) ∷ []
unfolding determine_due_alerts expiry_alerts notice_alerts has_alert sorted_by insert_by
two_alerts = refl

calculate_next_renewal_date_lem_example :
    let renewal = calculate_next_renewal_date january true (some (pos 13)) in
    ((24_302 < 9999 * 12 + 12)
      × ((d : CivilDate) × (renewal ≡ ok (some d))
          × IsDate d
          × (d.year * 12 + d.month ≡ 24_302)
          × (d.day ≡ min 31 (month_length d.year d.month))))
    ⊎ ((9999 * 12 + 12 ≤ 24_302) × (renewal ≡ err value_error))
calculate_next_renewal_date_lem_example =
    calculate_next_renewal_date_lem january 12
      (omega arith, omega arith, omega arith, omega arith, omega arith, omega arith)

-- A renewal in the last month that a date can have.
no_last_december : add_months (record { year = 9999; month = 11; day = 5 }) 1 ≡ err value_error
unfolding add_months make_date
no_last_december = refl

is_past_notice :
    classify_contract_status 738_950 739_000 738_900 false (pos 90) ≡ notice_period_open
unfolding classify_contract_status
is_past_notice = refl

determine_due_alerts-again_example :
    let due = determine_due_alerts 739_000 739_080 739_050 [] thresholds in
    determine_due_alerts 739_000 739_080 739_050 (due ++ []) thresholds ≡ []
determine_due_alerts-again_example =
    determine_due_alerts-again 739_000 739_080 739_050 [] thresholds
