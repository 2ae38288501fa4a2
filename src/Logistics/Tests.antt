-- ===== src/Logistics/Tests.antt =====
-- Runs of the logistics functions, and the profit of a concrete route.
use procure_foundation.Prelude.{◌≡◌, refl, false}
use procure_foundation.Prelude.Int.{pos, negsuc}
use procure_foundation.Result.{ok, err, value_error}
use procure_foundation.Decimal.{decimal, money, arithmetic}
use procure_foundation.ManagementAccounting.{
  gross, margin_from, round_hundredth, calculate_customer_net_margin,
}
use procure_foundation.Logistics.{
  RouteProfitability, calculate_segregated_route_cost, calculate_distance_variable_cost,
  calculate_drop_latency_demurrage_cost, calculate_true_route_profitability,
}
use procure_foundation.Logistics.Profit.{Route}

-- Half a kilometre out, one between the drops and half a kilometre back: each half of a pool of
-- 0.0001 rounds to zero, so the two costs do not add up to the pool.
loses_the_pool :
    calculate_segregated_route_cost (decimal 5 1) (decimal 1 0) (decimal 5 1) (decimal 1 4)
    ≡ ok (record {
      fixed_stem_cost = pos 0;
      variable_drop_cost = pos 0;
      total_distance_km = decimal 2 0;
    })
unfolding calculate_segregated_route_cost arithmetic
loses_the_pool = refl

needs_a_multiplier :
    calculate_distance_variable_cost (decimal 10 0) (decimal 5 0) (decimal 4 0) (decimal 9 1)
    ≡ err value_error
unfolding calculate_distance_variable_cost arithmetic
needs_a_multiplier = refl

charges_the_excess :
    calculate_drop_latency_demurrage_cost (decimal 50 0) (decimal 30 0) (decimal 2 0)
    ≡ ok (decimal 40 0)
unfolding calculate_drop_latency_demurrage_cost arithmetic
charges_the_excess = refl

abbrev route : Route
route = record {
  revenue = pos 1_000_000;
  cogs = pos 700_000;
  spend = pos 100_000;
  trip = pos 150_000;
  distance = pos 50_000;
  activity = pos 100_000;
}

abbrev at_a_loss : RouteProfitability
at_a_loss = record {
  net_revenue = money (pos 900_000);
  gross_margin = money (pos 200_000);
  trip_fixed_costs = money (pos 150_000);
  distance_variable_costs = money (pos 50_000);
  activity_time_costs = money (pos 100_000);
  net_net_profit = money (negsuc 99_999);
  is_net_revenue_negative = false;
}

loses :
    calculate_true_route_profitability
      (money (pos 1_000_000))
      (money (pos 700_000))
      (money (pos 100_000))
      gross
      (money (pos 150_000))
      (money (pos 50_000))
      (money (pos 100_000))
    ≡ ok at_a_loss
unfolding calculate_true_route_profitability calculate_customer_net_margin margin_from
    round_hundredth arithmetic
loses = refl
