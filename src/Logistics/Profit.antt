-- ===== src/Logistics/Profit.antt =====
-- The profit of a route on NUMERIC(18, 4) amounts.
use procure_foundation.Prelude.{◌≡◌, ◌+◌, ◌<◌, ℕ, refl, subst, arith}
use procure_foundation.Prelude.Int.{ℤ, ◌+ℤ◌, ◌-ℤ◌, nat_abs, nat_abs-+ℤ}
use procure_foundation.Result.{ok, >>=-eq-ok, ok-injective}
use procure_foundation.Decimal.{money, precision_bound}
use procure_foundation.Decimal.Exact.{add-money, round_currency-money}
use procure_foundation.ManagementAccounting.{RevenueBasis, calculate_customer_net_margin}
use procure_foundation.ManagementAccounting.Margin.{Amounts, calculate_customer_net_margin-IsExact}
use procure_foundation.Logistics.{RouteProfitability, calculate_true_route_profitability}

-- The amounts of a route, in ten-thousandths.
pub record Route : Type 0 where
  pub revenue : ℤ
  pub cogs : ℤ
  pub spend : ℤ
  pub trip : ℤ
  pub distance : ℤ
  pub activity : ℤ

abbrev pub size : Route → ℕ
size r =
    nat_abs r.revenue
    + nat_abs r.cogs
    + nat_abs r.spend
    + nat_abs r.trip
    + nat_abs r.distance
    + nat_abs r.activity

-- What is left of the revenue after the trade spend, the goods and the three cost pools.
abbrev pub profit : Route → ℤ
profit r = r.revenue -ℤ r.spend -ℤ r.cogs -ℤ (r.trip +ℤ r.distance +ℤ r.activity)

abbrev as_amounts : Route → Amounts
as_amounts r = record {
  revenue = r.revenue;
  cogs = r.cogs;
  logistics = r.trip +ℤ r.distance;
  warehouse = r.activity;
  spend = r.spend;
}

-- On amounts of NUMERIC(18, 4) columns whose absolute sum is below 10^24, a profit that is returned
-- is exactly the revenue less the trade spend, the cost of goods and the three cost pools, negative
-- where they exceed it, and the three pools are returned as given.
pub calculate_true_route_profitability-exact :
    (r : Route) (basis : RevenueBasis) {p : RouteProfitability}
    → size r < precision_bound
    → calculate_true_route_profitability
        (money r.revenue)
        (money r.cogs)
        (money r.spend)
        basis
        (money r.trip)
        (money r.distance)
        (money r.activity)
      ≡ ok p
    → (p.net_net_profit ≡ money (profit r))
      × (p.trip_fixed_costs ≡ money r.trip)
      × (p.distance_variable_costs ≡ money r.distance)
      × (p.activity_time_costs ≡ money r.activity)
unfolding calculate_true_route_profitability
calculate_true_route_profitability-exact r basis {p} small e =
    let h = nat_abs-+ℤ r.trip r.distance in
    let pool = add-money r.trip r.distance (omega (arith, h)) in
    let e' = rw pool at e in
    let (m, hm, e1) =
      >>=-eq-ok
        (calculate_customer_net_margin (money r.revenue) (money r.cogs)
          (money (r.trip +ℤ r.distance)) (money r.activity) (money r.spend) basis)
        _ e' in
    let (_, exact) =
      calculate_customer_net_margin-IsExact (as_amounts r) basis (omega (arith, h)) hm in
    let e2 =
      rw
        (
          round_currency-money r.trip (omega arith),
          round_currency-money r.distance (omega arith),
          round_currency-money r.activity (omega arith),
        )
        at e1 in
    subst
      (λ (t : RouteProfitability).
        (t.net_net_profit ≡ money (profit r))
        × (t.trip_fixed_costs ≡ money r.trip)
        × (t.distance_variable_costs ≡ money r.distance)
        × (t.activity_time_costs ≡ money r.activity))
      (ok-injective e2) (exact.3, refl, refl, refl)
