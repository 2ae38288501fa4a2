-- ===== src/Matching/RouteLog.antt =====
-- backend/app/matching/route_log_validation.py: whether a route log is physically possible.
use procure_foundation.Prelude.{
  ◌≡◌, ◌↔◌, ◌&&◌, Bool, Option, none, some, List, [], ◌∷◌, ◌++◌, arith, if◌then◌else◌,
}
use procure_foundation.Prelude.Int.{ℤ, pos, ◌≤ℤ◌, ◌<ℤ◌, leb_ℤ, ltb_ℤ, eqb_ℤ}
use procure_foundation.Result.{Result, ok, ◌>>=◌}
use procure_foundation.Decimal.{Decimal, div, from_int, round_currency}

-- The messages of the source, with the numbers that they quote.
pub data Violation : Type 0 where
  stops_without_distance : Violation
  negative_distance_km : Decimal → Violation
  negative_stop_count : ℤ → Violation
  overweight : Decimal → Decimal → Violation

abbrev when : Bool → Violation → List Violation
when b v = if b then v ∷ [] else []

pub validate_route_log_plausibility : Decimal → ℤ → Decimal → Decimal → List Violation
validate_route_log_plausibility distance_km stop_count total_drop_weight_kg vehicle_max_payload_kg =
    when (eqb_ℤ distance_km (pos 0) && ltb_ℤ (pos 0) stop_count) stops_without_distance
    ++ (when (ltb_ℤ distance_km (pos 0)) (negative_distance_km distance_km)
        ++ (when (ltb_ℤ stop_count (pos 0)) (negative_stop_count stop_count)
            ++ when (ltb_ℤ vehicle_max_payload_kg total_drop_weight_kg)
                (overweight total_drop_weight_kg vehicle_max_payload_kg)))

pub calculate_cost_per_drop : Decimal → ℤ → Result (Option Decimal)
calculate_cost_per_drop total_route_cost stop_count =
    if leb_ℤ stop_count (pos 0)
    then ok none
    else (div total_route_cost (from_int stop_count) >>= λ cost.
        round_currency cost >>= λ rounded. ok (some rounded))

-- A route log has no violation exactly if the distance and the number of stops are not negative, a
-- route of no distance has no stops, and the load is within the payload.
pub validate_route_log_plausibility_iff :
    (distance_km : Decimal) (stop_count : ℤ) (weight payload : Decimal)
    → (validate_route_log_plausibility distance_km stop_count weight payload ≡ []) ↔ (
        (pos 0 ≤ℤ distance_km)
        × (pos 0 ≤ℤ stop_count)
        × (pos 0 <ℤ stop_count → pos 0 <ℤ distance_km)
        × (weight ≤ℤ payload))
unfolding validate_route_log_plausibility
validate_route_log_plausibility_iff distance_km stop_count weight payload = ground arith
