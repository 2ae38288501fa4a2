-- ===== src/Treasury/Tests.antt =====
-- A hedged and an unhedged transaction.
use procure_foundation.Prelude.{◌≡◌, refl, true, none, some}
use procure_foundation.Prelude.Int.{pos}
use procure_foundation.Result.{ok, err, value_error}
use procure_foundation.Decimal.{decimal, arithmetic}
use procure_foundation.Treasury.{FxExposure, exposure_of, calculate_fx_transaction_exposure}

-- 1000 dollars at 18.50 under a contract at 18.00.
abbrev hedged : FxExposure
hedged = record {
  is_hedged = true;
  hedging_gain_loss = some (decimal 500 0);
  unrealized_variance = none;
  fec_contract_rate = some (decimal 18 0);
}

hedges :
    calculate_fx_transaction_exposure
      (decimal 1000 0)
      (decimal 17 0)
      (decimal 185 1)
      (some (decimal 18 0))
    ≡ ok hedged
unfolding calculate_fx_transaction_exposure exposure_of arithmetic
hedges = refl

no_zero_rate :
    calculate_fx_transaction_exposure (decimal 1000 0) (pos 0) (decimal 185 1) none
    ≡ err value_error
unfolding calculate_fx_transaction_exposure
no_zero_rate = refl
