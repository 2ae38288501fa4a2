-- ===== src/Contract.antt =====
-- backend/app/analytics/contract_calculations.py: the notice deadline, the renewal date, the status
-- and the alerts of a contract, and its escalated prices.
pub mod Renewal
pub mod Status
pub mod Alerts
mod Tests
use procure_foundation.Prelude.{
  ℕ, zero, suc, ◌+◌, ◌-◌, ◌/◌, ◌%◌, Bool, true, false, not, ◌&&◌, Option, none, some, List, [], ◌∷◌,
  ◌++◌, map, filter, ltb, leb, ◌==◌, if◌then◌else◌,
}
use procure_foundation.Prelude.Int.{ℤ, pos, negsuc, neg, leb_ℤ, eqb_ℤ}
use procure_foundation.Prelude.Order.{max_by, sorted_by}
use procure_foundation.Result.{Result, ok, err, value_error, overflow_error, ◌>>=◌}
use procure_foundation.Decimal.{Decimal, add, mul, power, decimal, round_currency}
use procure_foundation.Calendar.{Date, days_between}
use procure_foundation.Calendar.Civil.{CivilDate, ordinal, make_date}

pub data ContractStatus : Type 0 where
  active notice_period_open expiring_soon expired auto_renewing : ContractStatus

pub data EscalationType : Type 0 where
  no_escalation fixed_percentage cpi_linked tiered negotiated : EscalationType

-- `expiry_date - timedelta(days=n)`: the result is a date of the year 1 or later.
abbrev days_before : Date → ℕ → Result Date
days_before expiry n = if ltb n expiry then ok (expiry - n) else err overflow_error

unfoldable pub calculate_notice_deadline : Date → ℤ → Result Date
calculate_notice_deadline expiry_date (negsuc _) = err value_error
calculate_notice_deadline expiry_date (pos n) = days_before expiry_date n

abbrev pub is_notice_window_open : Date → Date → Date → Bool
is_notice_window_open today notice_deadline expiry_date =
    leb today notice_deadline && leb today expiry_date

-- The difference of the first days of two months.
abbrev pub days_to : Result CivilDate → Result CivilDate → Result ℕ
days_to next first = do n ← next; f ← first; ok (ordinal n - ordinal f)

abbrev pub days_in_month : ℕ → ℕ → Result ℕ
days_in_month year month =
    if month == 12
    then days_to (make_date (year + 1) 1 1) (make_date year 12 1)
    else days_to (make_date year (month + 1) 1) (make_date year month 1)

abbrev pub min : ℕ → ℕ → ℕ
min a b = if ltb b a then b else a

unfoldable pub add_months : CivilDate → ℕ → Result CivilDate
add_months base months =
    let month_index = base.month - 1 + months in
    let year = base.year + month_index / 12 in
    let month = month_index % 12 + 1 in
    do length ← days_in_month year month; make_date year month (min base.day length)

-- `renewal_term_months`, which has to be given and positive.
unfoldable pub renew_after : CivilDate → Option ℤ → Result (Option CivilDate)
unfolding add_months
renew_after expiry none = err value_error
renew_after expiry (some (negsuc _)) = err value_error
renew_after expiry (some (pos zero)) = err value_error
renew_after expiry (some (pos (suc n))) = add_months expiry (suc n) >>= λ d. ok (some d)

unfoldable pub calculate_next_renewal_date : CivilDate → Bool → Option ℤ → Result (Option CivilDate)
unfolding renew_after
calculate_next_renewal_date expiry_date auto_renew renewal_term_months =
    if auto_renew then renew_after expiry_date renewal_term_months else ok none

-- By default the threshold is 90 days.
unfoldable pub classify_contract_status : Date → Date → Date → Bool → ℤ → ContractStatus
classify_contract_status today expiry_date notice_deadline auto_renew threshold =
    if ltb expiry_date today
    then expired
    else if ltb notice_deadline today
    then (if auto_renew then auto_renewing else notice_period_open)
    else if leb_ℤ (days_between expiry_date today) threshold
    then expiring_soon
    else active

-- `f"expiry_{threshold}"` and `"notice_deadline"`.
pub data AlertType : Type 0 where
  expiry : ℤ → AlertType
  notice_deadline : AlertType

abbrev pub eq_alert : AlertType → AlertType → Bool
eq_alert (expiry a) (expiry b) = eqb_ℤ a b
eq_alert notice_deadline notice_deadline = true
eq_alert _ _ = false

-- `alert in alerts`
unfoldable pub has_alert : AlertType → List AlertType → Bool
has_alert a [] = false
has_alert a (b ∷ bs) = if eq_alert a b then true else has_alert a bs

abbrev pub crosses : Date → Date → List AlertType → ℤ → Bool
crosses today expiry_date fired threshold =
    leb_ℤ (days_between expiry_date today) threshold && not (has_alert (expiry threshold) fired)

unfoldable pub expiry_alerts : Date → Date → List AlertType → List ℤ → List AlertType
unfolding has_alert sorted_by
expiry_alerts today expiry_date fired thresholds =
    map expiry (filter (crosses today expiry_date fired) (sorted_by neg thresholds))

unfoldable pub notice_alerts : Date → Date → List AlertType → List AlertType
unfolding has_alert
notice_alerts today deadline fired =
    if (today == deadline) && not (has_alert notice_deadline fired)
    then notice_deadline ∷ []
    else []

-- The set of alerts that have fired is a list here, of which only membership is asked.
unfoldable pub determine_due_alerts : Date → Date → Date → List AlertType → List ℤ → List AlertType
unfolding expiry_alerts notice_alerts
determine_due_alerts today expiry_date deadline fired thresholds =
    expiry_alerts today expiry_date fired thresholds ++ notice_alerts today deadline fired

-- `(Decimal(1) + rate) ** periods_elapsed`, for a count of periods that is not negative.
unfoldable pub grow : Decimal → Option Decimal → ℕ → Result Decimal
grow base_price none periods = err value_error
grow base_price (some rate) periods = do
  factor ← power (add (decimal 1 0) rate) periods
  round_currency (mul base_price factor)

unfoldable pub calculate_escalated_price :
    Decimal → EscalationType → Option Decimal → Option Decimal → ℕ → Result Decimal
unfolding grow
calculate_escalated_price base_price no_escalation rate index periods = round_currency base_price
calculate_escalated_price base_price fixed_percentage rate index periods =
    grow base_price rate periods
calculate_escalated_price base_price cpi_linked rate index periods = grow base_price index periods
calculate_escalated_price base_price tiered rate index periods = err value_error
calculate_escalated_price base_price negotiated rate index periods = err value_error

pub record TieredEscalationBand : Type 0 where
  pub threshold_spend : Decimal
  pub rate_pct : Decimal

abbrev pub reached_by : Decimal → TieredEscalationBand → Bool
reached_by spend b = leb_ℤ b.threshold_spend spend

unfoldable pub price_at_best : Decimal → List TieredEscalationBand → Result Decimal
unfolding max_by
price_at_best base_price [] = round_currency base_price
price_at_best base_price (b ∷ bs) =
    round_currency
      (mul base_price (add (decimal 1 0) (max_by (λ x. x.threshold_spend) b bs).rate_pct))

unfoldable pub calculate_tiered_escalated_price :
    Decimal → Decimal → List TieredEscalationBand → Result Decimal
unfolding price_at_best
calculate_tiered_escalated_price base_price spend [] = err value_error
calculate_tiered_escalated_price base_price spend (b ∷ bs) =
    price_at_best base_price (filter (reached_by spend) (b ∷ bs))
