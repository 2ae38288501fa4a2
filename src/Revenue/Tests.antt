-- ===== src/Revenue/Tests.antt =====
-- A complete and an incomplete waterfall.
use procure_foundation.Prelude.{◌≡◌, inl, inr, refl, none, some, [], ◌∷◌, Member, arith}
use procure_foundation.Prelude.Int.{pos, negsuc, ◌+ℤ◌, ◌-ℤ◌}
use procure_foundation.Result.{ok}
use procure_foundation.Decimal.{decimal, money, arithmetic, precision_bound}
use procure_foundation.Revenue.{
  credit_notes_issued, GrossToNetWaterfallInput, complete, incomplete, all_line_values, missing_of,
  waterfall_without, calculate_gross_to_net_waterfall,
}
use procure_foundation.Revenue.Net.{
  Figures, as_input, net, lines_of, calculate_gross_to_net_waterfall-money,
}

abbrev year : Figures
year = record {
  gross = pos 10_000_000;
  settlement = pos 200_000;
  volume = pos 300_000;
  credit = pos 0;
  claims = pos 50_000;
  retro = negsuc 9_999;
  recoveries = pos 60_000;
}

nets : net year ≡ pos 9_500_000
unfolding ◌+ℤ◌ ◌-ℤ◌
nets = refl

calculate_gross_to_net_waterfall-money_example :
    calculate_gross_to_net_waterfall (as_input year)
    ≡ ok (complete (money (pos 10_000_000)) (money (net year)) (lines_of year))
calculate_gross_to_net_waterfall-money_example =
    calculate_gross_to_net_waterfall-money year (unfold precision_bound in omega arith)

abbrev gap : GrossToNetWaterfallInput
gap = record {
  gross_sales = decimal 1000 0;
  settlement_discounts = some (pos 0);
  volume_growth_rebates = some (pos 0);
  credit_notes_issued = none;
  operational_claims_returns = some (pos 0);
  retro_pricing_adjustment = some (pos 0);
  supplier_recoveries_allowances = some (pos 0);
}

is_incomplete :
    calculate_gross_to_net_waterfall gap
    ≡ ok (incomplete (credit_notes_issued ∷ []) (decimal 1000 0))
unfolding calculate_gross_to_net_waterfall missing_of all_line_values waterfall_without arithmetic
is_incomplete = refl

is_missing : Member (credit_notes_issued, none) (all_line_values gap)
unfolding all_line_values
is_missing = inr (inr (inl refl))
