-- ===== src/Treasury.antt =====
-- backend/app/analytics/treasury_engine.py: the foreign-exchange exposure of a transaction.
pub mod Exposure
mod Tests
use procure_foundation.Prelude.{Bool, true, false, Option, none, some}
use procure_foundation.Prelude.Int.{pos, leb_ℤ}
use procure_foundation.Result.{Result, ok, value_error, raise_if, ◌>>=◌, ◌>>◌}
use procure_foundation.Decimal.{Decimal, sub, mul, round_currency}

pub record FxExposure : Type 0 where
  pub is_hedged : Bool
  pub hedging_gain_loss : Option Decimal
  pub unrealized_variance : Option Decimal
  pub fec_contract_rate : Option Decimal

abbrev pub is_not_positive : Option Decimal → Bool
is_not_positive none = false
is_not_positive (some rate) = leb_ℤ rate (pos 0)

unfoldable pub exposure_of : Option Decimal → Decimal → Decimal → Decimal → Result FxExposure
exposure_of (some fec) amount booked reported =
    round_currency (mul (sub reported fec) amount) >>= λ gain. ok (record {
      is_hedged = true;
      hedging_gain_loss = some gain;
      unrealized_variance = none;
      fec_contract_rate = some fec;
    })
exposure_of none amount booked reported =
    round_currency (mul (sub reported booked) amount) >>= λ variance. ok (record {
      is_hedged = false;
      hedging_gain_loss = none;
      unrealized_variance = some variance;
      fec_contract_rate = none;
    })

unfoldable pub calculate_fx_transaction_exposure :
    Decimal → Decimal → Decimal → Option Decimal → Result FxExposure
unfolding exposure_of
calculate_fx_transaction_exposure amount transaction_rate reporting_rate fec_contract_rate = do
  raise_if (leb_ℤ transaction_rate (pos 0)) value_error
  raise_if (leb_ℤ reporting_rate (pos 0)) value_error
  raise_if (is_not_positive fec_contract_rate) value_error
  exposure_of fec_contract_rate amount transaction_rate reporting_rate
