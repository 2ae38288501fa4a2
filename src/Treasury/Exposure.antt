-- ===== src/Treasury/Exposure.antt =====
-- Which of the two figures an exposure reports.
use procure_foundation.Prelude.{
  ◌≡◌, ◌⊎◌, inl, inr, Bool, true, false, Option, none, some, refl, subst, leb-false→lt,
}
use procure_foundation.Prelude.Int.{pos, ◌<ℤ◌, leb_ℤ}
use procure_foundation.Result.{Result, ok, raise_if, value_error, ◌>>◌, >>=-eq-ok, ok-injective}
use procure_foundation.Decimal.{Decimal, sub, mul, round_currency}
use procure_foundation.Treasury.{FxExposure, exposure_of, calculate_fx_transaction_exposure}

-- Without a contract rate: the movement of the spot rate since the booking.
abbrev pub IsUnhedged : Decimal → Decimal → Decimal → FxExposure → Type 0
IsUnhedged amount booked reported r =
    (v : Decimal) × (round_currency (mul (sub reported booked) amount) ≡ ok v)
    × (r.unrealized_variance ≡ some v)
    × (r.hedging_gain_loss ≡ none)
    × (r.is_hedged ≡ false)

-- With a contract rate: the spot rate against it.
abbrev pub IsHedged : Decimal → Decimal → Decimal → FxExposure → Type 0
IsHedged amount fec reported r =
    (v : Decimal) × (round_currency (mul (sub reported fec) amount) ≡ ok v)
    × (r.hedging_gain_loss ≡ some v)
    × (r.unrealized_variance ≡ none)
    × (r.is_hedged ≡ true)

passes :
    (b : Bool) (k : Result FxExposure) {r : FxExposure}
    → (raise_if b value_error >> k) ≡ ok r
    → (b ≡ false) × (k ≡ ok r)
passes false k e = (refl, e)
passes true k e = cc

-- An exposure is returned only for positive rates. Without a contract rate it holds the movement of
-- the spot rate since the booking, times the amount and rounded, and no hedging result; with one,
-- which is positive too, it holds the hedging result and no movement: never both.
pub calculate_fx_transaction_exposure_lem :
    (amount booked reported : Decimal) (fec : Option Decimal) {r : FxExposure}
    → calculate_fx_transaction_exposure amount booked reported fec ≡ ok r
    → (pos 0 <ℤ booked)
      × (pos 0 <ℤ reported)
      × (((fec ≡ none) × IsUnhedged amount booked reported r)
          ⊎ ((rate : Decimal) × (fec ≡ some rate)
              × (pos 0 <ℤ rate)
              × IsHedged amount rate reported r))
unfolding calculate_fx_transaction_exposure exposure_of
calculate_fx_transaction_exposure_lem amount booked reported none e =
    let (b, e1) = passes (leb_ℤ booked (pos 0)) _ e in
    let (p, e2) = passes (leb_ℤ reported (pos 0)) _ e1 in
    let (v, h, last) = >>=-eq-ok (round_currency (mul (sub reported booked) amount)) _ e2 in
    (
      leb-false→lt _ _ b,
      leb-false→lt _ _ p,
      inl (
        refl,
        subst (IsUnhedged amount booked reported) (ok-injective last) (v, h, refl, refl, refl),
      ),
    )
calculate_fx_transaction_exposure_lem amount booked reported (some rate) e =
    let (b, e1) = passes (leb_ℤ booked (pos 0)) _ e in
    let (p, e2) = passes (leb_ℤ reported (pos 0)) _ e1 in
    let (f, e3) = passes (leb_ℤ rate (pos 0)) _ e2 in
    let (v, h, last) = >>=-eq-ok (round_currency (mul (sub reported rate) amount)) _ e3 in
    let hedged =
      subst (IsHedged amount rate reported) (ok-injective last) (v, h, refl, refl, refl) in
    (leb-false→lt _ _ b, leb-false→lt _ _ p, inr (rate, refl, leb-false→lt _ _ f, hedged))
