-- ===== src/ManagementAccounting/Margin.antt =====
-- The net margin of a customer on NUMERIC(18, 4) amounts.
use procure_foundation.Prelude.{◌≡◌, ◌+◌, ◌<◌, ℕ, Bool, false, true, refl, ap, ◌∙◌, subst, arith}
use procure_foundation.Prelude.Int.{ℤ, ◌+ℤ◌, ◌-ℤ◌, nat_abs, nat_abs-+ℤ, nat_abs--ℤ}
use procure_foundation.Result.{Result, ok, value_error, raise_if, ◌>>◌, >>=-eq-ok, ok-injective}
use procure_foundation.Decimal.{add, sub, money, precision_bound, round_currency}
use procure_foundation.Decimal.Exact.{add-money, sub-money, round_currency-money}
use procure_foundation.ManagementAccounting.{
  RevenueBasis, refuses, CustomerNetMargin, margin_pct, margin_from, calculate_customer_net_margin,
}

-- The amounts of a customer, in ten-thousandths.
pub record Amounts : Type 0 where
  pub revenue : ℤ
  pub cogs : ℤ
  pub logistics : ℤ
  pub warehouse : ℤ
  pub spend : ℤ

abbrev pub size : Amounts → ℕ
size a =
    nat_abs a.revenue + nat_abs a.cogs + nat_abs a.logistics + nat_abs a.warehouse + nat_abs a.spend

abbrev pub IsExact : Amounts → CustomerNetMargin → Type 0
IsExact a r =
    (r.net_revenue ≡ money (a.revenue -ℤ a.spend))
    × (r.gross_margin ≡ money (a.revenue -ℤ a.spend -ℤ a.cogs))
    × (r.cost_to_serve ≡ money (a.logistics +ℤ a.warehouse))
    × (r.net_margin ≡ money (a.revenue -ℤ a.spend -ℤ a.cogs -ℤ (a.logistics +ℤ a.warehouse)))

rounded_sub :
    (a b : ℤ)
    → nat_abs (a -ℤ b) < precision_bound
    → round_currency (sub (money a) (money b)) ≡ ok (money (a -ℤ b))
rounded_sub a b h = ap round_currency (sub-money a b h) ∙ round_currency-money (a -ℤ b) h

rounded_add :
    (a b : ℤ)
    → nat_abs (a +ℤ b) < precision_bound
    → round_currency (add (money a) (money b)) ≡ ok (money (a +ℤ b))
rounded_add a b h = ap round_currency (add-money a b h) ∙ round_currency-money (a +ℤ b) h

margin_from-IsExact :
    (a : Amounts) {r : CustomerNetMargin}
    → size a < precision_bound
    → margin_from
        (money a.revenue)
        (money a.cogs)
        (money a.logistics)
        (money a.warehouse)
        (money a.spend)
      ≡ ok r
    → IsExact a r
unfolding margin_from
margin_from-IsExact a small e =
    let n : ℤ = a.revenue -ℤ a.spend in
    let g : ℤ = n -ℤ a.cogs in
    let c : ℤ = a.logistics +ℤ a.warehouse in
    let hn = nat_abs--ℤ a.revenue a.spend in
    let hg = nat_abs--ℤ n a.cogs in
    let hc = nat_abs-+ℤ a.logistics a.warehouse in
    let hm = nat_abs--ℤ g c in
    let e' =
      rw
        (
          rounded_sub a.revenue a.spend (omega (arith, hn)),
          rounded_sub n a.cogs (omega (arith, hn, hg)),
          rounded_add a.logistics a.warehouse (omega (arith, hc)),
          rounded_sub g c (omega (arith, hn, hg, hc, hm)),
        )
        at e in
    let (pct, _, last) = >>=-eq-ok (margin_pct (money (g -ℤ c)) (money a.revenue)) _ e' in
    subst (IsExact a) (ok-injective last) (refl, refl, refl, refl)

passes :
    (b : Bool) (k : Result CustomerNetMargin) {r : CustomerNetMargin}
    → (raise_if b value_error >> k) ≡ ok r
    → (b ≡ false) × (k ≡ ok r)
passes false k e = (refl, e)
passes true k e = cc

-- On amounts of NUMERIC(18, 4) columns whose absolute sum is below 10^24, a margin that is returned
-- is exact at each step: revenue less trade spend, less cost of goods, less the cost to serve, which
-- is logistics plus warehouse; nothing is cut off at zero. It is returned only for a basis that
-- allows the trade spend, so on the basis net of the waterfall only for a trade spend of zero.
pub calculate_customer_net_margin-IsExact :
    (a : Amounts) (basis : RevenueBasis) {r : CustomerNetMargin}
    → size a < precision_bound
    → calculate_customer_net_margin
        (money a.revenue)
        (money a.cogs)
        (money a.logistics)
        (money a.warehouse)
        (money a.spend)
        basis
      ≡ ok r
    → (refuses basis (money a.spend) ≡ false) × IsExact a r
unfolding calculate_customer_net_margin
calculate_customer_net_margin-IsExact a basis small e =
    let (allowed, e1) = passes (refuses basis (money a.spend)) _ e in
    (allowed, margin_from-IsExact a small e1)
