-- ===== src/Rebate/Tests.antt =====
-- Runs of the rebate functions, and the theorems at concrete inputs.
use procure_foundation.Prelude.{◌≡◌, refl, false, none, some, List, [], ◌∷◌, All, ◌⊎◌}
use procure_foundation.Prelude.Int.{pos, negsuc}
use procure_foundation.Result.{ok, err, value_error}
use procure_foundation.Decimal.{sub, mul, decimal, round_currency}
use procure_foundation.Rebate.{
  RebateType, fixed_percentage, tiered, RebateBand, is_reached, calculate_expected_rebate,
  calculate_progress_to_next_tier,
}
use procure_foundation.Rebate.Tiers.{IsBest, calculate_expected_rebate-bands}
use procure_foundation.Rebate.Leakage.{Pairs}
use procure_foundation.Rebate.Periods.{Entry}

-- From 1000 at 1%, from 5000 at 2.5%.
abbrev low : RebateBand
low = record { threshold_spend = decimal 1000 0; rate_pct = decimal 1 2 }

abbrev high : RebateBand
high = record { threshold_spend = decimal 5000 0; rate_pct = decimal 25 3 }

abbrev bands : List RebateBand
bands = low ∷ high ∷ []

pays_the_high_band :
    calculate_expected_rebate (decimal 6000 0) tiered none (some bands) none ≡ ok (decimal 150 0)
unfolding calculate_expected_rebate mul decimal round_currency
pays_the_high_band = refl

rounds_to_four_places :
    calculate_expected_rebate (decimal 12345 4) fixed_percentage (some (decimal 15 3)) none none
    ≡ ok (decimal 185 4)
unfolding calculate_expected_rebate mul decimal round_currency
rounds_to_four_places = refl

-- 1% from 0 and 2% from 1000, for a spend of 2000: 40, the best rate on the whole spend. The sum of
-- the rates on the parts of the spend in each band is 30.
pays_on_the_whole_spend :
    calculate_expected_rebate
      (decimal 2000 0)
      tiered
      none
      (some (
        record { threshold_spend = pos 0; rate_pct = decimal 1 2 }
        ∷ record { threshold_spend = decimal 1000 0; rate_pct = decimal 2 2 }
        ∷ []))
      none
    ≡ ok (decimal 40 0)
unfolding calculate_expected_rebate mul decimal round_currency
pays_on_the_whole_spend = refl

refuses_no_bands :
    calculate_expected_rebate (decimal 6000 0) tiered none (some []) none ≡ err value_error
unfolding calculate_expected_rebate
refuses_no_bands = refl

next_is_high :
    calculate_progress_to_next_tier (decimal 4500 0) bands
    ≡ ok (some (decimal 5000 0, decimal 500 0))
unfolding calculate_progress_to_next_tier decimal sub round_currency
next_is_high = refl

calculate_expected_rebate-bands_example :
    let result = calculate_expected_rebate (decimal 6000 0) tiered none (some bands) none in
    (result
      ≡ calculate_expected_rebate (decimal 6000 0) RebateType.retrospective none (some bands) none)
    × ((All (λ x. is_reached (decimal 6000 0) x ≡ false) bands × (result ≡ ok (pos 0)))
        ⊎ ((best : RebateBand) × IsBest (decimal 6000 0) bands best
            × (result ≡ round_currency (mul (decimal 6000 0) best.rate_pct))))
calculate_expected_rebate-bands_example =
    calculate_expected_rebate-bands (decimal 6000 0) low (high ∷ []) none none

-- 100.0000 expected and nothing received, 50.0000 expected and 60.0000 received.
abbrev periods : Pairs
periods = (pos 1_000_000, none) ∷ (pos 500_000, some (pos 600_000)) ∷ []

abbrev entries : List Entry
entries = (pos 10, pos 1, 5) ∷ (pos 20, pos 2, 15) ∷ (negsuc 4, pos 1, 16) ∷ (pos 7, pos 1, 40) ∷ []
