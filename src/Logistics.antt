-- ===== src/Logistics.antt =====
-- backend/app/analytics/logistics_engine.py: the cost pools of a trip and the profit of a route.
pub mod Profit
mod Tests
use procure_foundation.Prelude.{ℕ, zero, suc, Bool, ◌||◌, Option, if◌then◌else◌}
use procure_foundation.Prelude.Int.{ℤ, pos, leb_ℤ, ltb_ℤ}
use procure_foundation.Result.{Result, ok, value_error, raise_if, ◌>>=◌, ◌>>◌}
use procure_foundation.Decimal.{Decimal, add, sub, mul, div, decimal, from_int, round_currency}
use procure_foundation.ManagementAccounting.{
  RevenueBasis, CustomerNetMargin, calculate_customer_net_margin,
}

pub record SegregatedRouteCost : Type 0 where
  pub fixed_stem_cost : Decimal
  pub variable_drop_cost : Decimal
  pub total_distance_km : Decimal

unfoldable pub calculate_segregated_route_cost :
    Decimal → Decimal → Decimal → Decimal → Result SegregatedRouteCost
calculate_segregated_route_cost stem drop back total_trip_cost_pool = do
  raise_if (leb_ℤ stem (pos 0)) value_error
  raise_if (leb_ℤ back (pos 0)) value_error
  raise_if (ltb_ℤ drop (pos 0)) value_error
  raise_if (leb_ℤ total_trip_cost_pool (pos 0)) value_error
  let total_distance = add (add stem drop) back
  cost_per_km ← div total_trip_cost_pool total_distance
  fixed ← round_currency (mul (add stem back) cost_per_km)
  variable ← round_currency (mul drop cost_per_km)
  ok (record {
    fixed_stem_cost = fixed;
    variable_drop_cost = variable;
    total_distance_km = total_distance;
  })

unfoldable pub calculate_trip_fixed_cost : Decimal → Decimal → Decimal → Result Decimal
calculate_trip_fixed_cost driver_base_salary co_driver_base_salary vehicle_cost = do
  raise_if (leb_ℤ driver_base_salary (pos 0)) value_error
  raise_if (ltb_ℤ co_driver_base_salary (pos 0)) value_error
  raise_if (leb_ℤ vehicle_cost (pos 0)) value_error
  round_currency (add (add driver_base_salary co_driver_base_salary) vehicle_cost)

pub record DistanceVariableCost : Type 0 where
  pub stem_leg_cost : Decimal
  pub drop_leg_cost : Decimal
  pub total : Decimal

unfoldable pub calculate_distance_variable_cost :
    Decimal → Decimal → Decimal → Decimal → Result DistanceVariableCost
calculate_distance_variable_cost stem drop base_rate_per_km stop_start_multiplier = do
  raise_if (ltb_ℤ stem (pos 0) || ltb_ℤ drop (pos 0)) value_error
  raise_if (leb_ℤ base_rate_per_km (pos 0)) value_error
  raise_if (ltb_ℤ stop_start_multiplier (decimal 1 0)) value_error
  stem_leg ← round_currency (mul stem base_rate_per_km)
  drop_leg ← round_currency (mul (mul drop base_rate_per_km) stop_start_multiplier)
  total ← round_currency (add stem_leg drop_leg)
  ok (record { stem_leg_cost = stem_leg; drop_leg_cost = drop_leg; total = total })

unfoldable pub calculate_warehouse_picking_labor_cost :
    ℤ → Decimal → Decimal → Decimal → Result Decimal
calculate_warehouse_picking_labor_cost sku_line_count total_cube rate_per_line rate_per_cube = do
  raise_if (leb_ℤ sku_line_count (pos 0)) value_error
  raise_if (leb_ℤ total_cube (pos 0)) value_error
  round_currency (add (mul (from_int sku_line_count) rate_per_line) (mul total_cube rate_per_cube))

-- `max(Decimal(0), value)`
abbrev pub positive_part : Decimal → Decimal
positive_part value = if ltb_ℤ (pos 0) value then value else pos 0

unfoldable pub calculate_drop_latency_demurrage_cost : Decimal → Decimal → Decimal → Result Decimal
calculate_drop_latency_demurrage_cost at_bay free rate_per_minute = do
  raise_if (ltb_ℤ at_bay (pos 0)) value_error
  raise_if (ltb_ℤ free (pos 0)) value_error
  round_currency (mul (positive_part (sub at_bay free)) rate_per_minute)

pub record RouteProfitability : Type 0 where
  pub net_revenue : Decimal
  pub gross_margin : Decimal
  pub trip_fixed_costs : Decimal
  pub distance_variable_costs : Decimal
  pub activity_time_costs : Decimal
  pub net_net_profit : Decimal
  pub is_net_revenue_negative : Bool

unfoldable pub calculate_true_route_profitability :
    Decimal
    → Decimal
    → Decimal
    → RevenueBasis
    → Decimal
    → Decimal
    → Decimal
    → Result RouteProfitability
calculate_true_route_profitability revenue cogs trade_spend basis trip_fixed distance_variable
      activity =
    do
      margin ←
          calculate_customer_net_margin revenue cogs (add trip_fixed distance_variable) activity
            trade_spend basis
      fixed ← round_currency trip_fixed
      variable ← round_currency distance_variable
      time ← round_currency activity
      ok (record {
        net_revenue = margin.net_revenue;
        gross_margin = margin.gross_margin;
        trip_fixed_costs = fixed;
        distance_variable_costs = variable;
        activity_time_costs = time;
        net_net_profit = margin.net_margin;
        is_net_revenue_negative = margin.is_net_revenue_negative;
      })
