-- ===== src/ManagementAccounting/NetMargin.antt =====
-- Trade spend and the net margin of a customer; the ageing of invoices.
use procure_foundation.Prelude.{
  Bool, true, false, not, Option, none, some, List, [], ◌∷◌, if◌then◌else◌,
}
use procure_foundation.Prelude.Int.{ℤ, pos, ltb_ℤ, eqb_ℤ}
use procure_foundation.Result.{Result, ok, value_error, raise_if, ◌>>=◌, ◌>>◌}
use procure_foundation.Decimal.{Decimal, add, sub, mul, div, decimal, round_currency}
use procure_foundation.ManagementAccounting.Allocation.{round_hundredth}

pub data RevenueBasis : Type 0 where
  gross net_of_waterfall other_basis : RevenueBasis

-- The two preconditions on the basis.
abbrev pub refuses : RevenueBasis → Decimal → Bool
refuses gross spend = false
refuses net_of_waterfall spend = not (eqb_ℤ spend (pos 0))
refuses other_basis spend = true

pub record CustomerNetMargin : Type 0 where
  pub net_revenue : Decimal
  pub gross_margin : Decimal
  pub cost_to_serve : Decimal
  pub net_margin : Decimal
  pub net_margin_pct : Option Decimal
  pub is_net_revenue_negative : Bool

-- `net_margin / revenue * 100`, rounded.
abbrev pub margin_pct : Decimal → Decimal → Result (Option Decimal)
margin_pct net_margin revenue =
    if eqb_ℤ revenue (pos 0)
    then ok none
    else (div net_margin revenue >>= λ q.
        round_hundredth (mul q (decimal 100 0)) >>= λ r. ok (some r))

unfoldable pub margin_from :
    Decimal → Decimal → Decimal → Decimal → Decimal → Result CustomerNetMargin
margin_from revenue cogs logistics warehouse spend = do
  net_revenue ← round_currency (sub revenue spend)
  gross_margin ← round_currency (sub net_revenue cogs)
  cost_to_serve ← round_currency (add logistics warehouse)
  net_margin ← round_currency (sub gross_margin cost_to_serve)
  pct ← margin_pct net_margin revenue
  ok (record {
    net_revenue = net_revenue;
    gross_margin = gross_margin;
    cost_to_serve = cost_to_serve;
    net_margin = net_margin;
    net_margin_pct = pct;
    is_net_revenue_negative = ltb_ℤ net_revenue (pos 0);
  })

unfoldable pub calculate_customer_net_margin :
    Decimal → Decimal → Decimal → Decimal → Decimal → RevenueBasis → Result CustomerNetMargin
unfolding margin_from
calculate_customer_net_margin revenue cogs logistics warehouse spend basis =
    raise_if (refuses basis spend) value_error >> margin_from revenue cogs logistics warehouse spend

pub record AgingBuckets : Type 0 where
  pub current : Decimal
  pub days_30 : Decimal
  pub days_60 : Decimal
  pub days_90 : Decimal
  pub days_120_plus : Decimal

abbrev pub age : Decimal → ℤ → AgingBuckets → AgingBuckets
age amount days b =
    if ltb_ℤ days (pos 30)
    then record b { current = add b.current amount }
    else if ltb_ℤ days (pos 60)
    then record b { days_30 = add b.days_30 amount }
    else if ltb_ℤ days (pos 90)
    then record b { days_60 = add b.days_60 amount }
    else if ltb_ℤ days (pos 120)
    then record b { days_90 = add b.days_90 amount }
    else record b { days_120_plus = add b.days_120_plus amount }

unfoldable pub age_all : AgingBuckets → List (Decimal × ℤ) → AgingBuckets
age_all b [] = b
age_all b ((amount, days) ∷ rest) = age_all (age amount days b) rest

unfoldable pub round_buckets : AgingBuckets → Result AgingBuckets
round_buckets b = do
  a ← round_currency b.current
  c ← round_currency b.days_30
  d ← round_currency b.days_60
  e ← round_currency b.days_90
  f ← round_currency b.days_120_plus
  ok (record { current = a; days_30 = c; days_60 = d; days_90 = e; days_120_plus = f })

abbrev pub empty_buckets : AgingBuckets
empty_buckets = record {
  current = pos 0;
  days_30 = pos 0;
  days_60 = pos 0;
  days_90 = pos 0;
  days_120_plus = pos 0;
}

-- Each invoice is its amount and the days that it is overdue.
unfoldable pub classify_aging_buckets : List (Decimal × ℤ) → Result AgingBuckets
unfolding age_all round_buckets
classify_aging_buckets invoices = round_buckets (age_all empty_buckets invoices)
