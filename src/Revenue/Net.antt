-- ===== src/Revenue/Net.antt =====
-- The waterfall on NUMERIC(18, 4) amounts, with all its lines and without.
use procure_foundation.Prelude.{
  ℕ, ◌≡◌, ◌≢◌, ◌↔◌, inl, inr, ◌+◌, ◌<◌, Option, none, some, List, [], ◌∷◌, refl, ap, sym, arith,
  Member,
}
use procure_foundation.Prelude.Int.{ℤ, ◌+ℤ◌, ◌-ℤ◌, nat_abs, nat_abs-+ℤ, nat_abs--ℤ}
use procure_foundation.Result.{ok, >>=-eq-ok, ok-injective}
use procure_foundation.Decimal.{Decimal, money, precision_bound, round_currency}
use procure_foundation.Decimal.Exact.{add-money, sub-money, round_currency-money}
use procure_foundation.Revenue.{
  LineName, settlement_discounts, volume_growth_rebates, credit_notes_issued,
  operational_claims_returns, retro_pricing_adjustment, supplier_recoveries_allowances,
  GrossToNetWaterfallInput, all_line_values, missing_of, GrossToNetWaterfall, complete, incomplete,
  round_lines, net_revenue_of, waterfall_without, calculate_gross_to_net_waterfall,
}

-- The figures of a complete waterfall, in ten-thousandths.
pub record Figures : Type 0 where
  pub gross : ℤ
  pub settlement : ℤ
  pub volume : ℤ
  pub credit : ℤ
  pub claims : ℤ
  pub retro : ℤ
  pub recoveries : ℤ

abbrev pub as_input : Figures → GrossToNetWaterfallInput
as_input f = record {
  gross_sales = money f.gross;
  settlement_discounts = some (money f.settlement);
  volume_growth_rebates = some (money f.volume);
  credit_notes_issued = some (money f.credit);
  operational_claims_returns = some (money f.claims);
  retro_pricing_adjustment = some (money f.retro);
  supplier_recoveries_allowances = some (money f.recoveries);
}

-- Gross sales less the four deductions, plus the two signed lines.
abbrev pub net : Figures → ℤ
net f = f.gross -ℤ f.settlement -ℤ f.volume -ℤ f.credit -ℤ f.claims +ℤ f.retro +ℤ f.recoveries

abbrev pub turnover : Figures → ℕ
turnover f =
    nat_abs f.gross
    + nat_abs f.settlement
    + nat_abs f.volume
    + nat_abs f.credit
    + nat_abs f.claims
    + nat_abs f.retro
    + nat_abs f.recoveries

abbrev pub lines_of : Figures → List (LineName × Decimal)
lines_of f =
    (settlement_discounts, money f.settlement)
    ∷ (volume_growth_rebates, money f.volume)
    ∷ (credit_notes_issued, money f.credit)
    ∷ (operational_claims_returns, money f.claims)
    ∷ (retro_pricing_adjustment, money f.retro)
    ∷ (supplier_recoveries_allowances, money f.recoveries)
    ∷ []

module _ (f : Figures) (small : turnover f < precision_bound) where
  net-money : net_revenue_of (as_input f) ≡ money (net f)
  unfolding net_revenue_of
  net-money =
      let a = nat_abs--ℤ f.gross f.settlement in
      let b = nat_abs--ℤ (f.gross -ℤ f.settlement) f.volume in
      let c = nat_abs--ℤ (f.gross -ℤ f.settlement -ℤ f.volume) f.credit in
      let d = nat_abs--ℤ (f.gross -ℤ f.settlement -ℤ f.volume -ℤ f.credit) f.claims in
      let e = nat_abs-+ℤ (f.gross -ℤ f.settlement -ℤ f.volume -ℤ f.credit -ℤ f.claims) f.retro in
      let g =
        nat_abs-+ℤ (f.gross -ℤ f.settlement -ℤ f.volume -ℤ f.credit -ℤ f.claims +ℤ f.retro)
          f.recoveries in
      rw
        (
          sub-money f.gross f.settlement (omega (arith, a)),
          sub-money (f.gross -ℤ f.settlement) f.volume (omega (arith, a, b)),
          sub-money (f.gross -ℤ f.settlement -ℤ f.volume) f.credit (omega (arith, a, b, c)),
          sub-money (f.gross -ℤ f.settlement -ℤ f.volume -ℤ f.credit) f.claims
              (omega (arith, a, b, c, d)),
          add-money (f.gross -ℤ f.settlement -ℤ f.volume -ℤ f.credit -ℤ f.claims) f.retro
              (omega (arith, a, b, c, d, e)),
          add-money (f.gross -ℤ f.settlement -ℤ f.volume -ℤ f.credit -ℤ f.claims +ℤ f.retro)
              f.recoveries (omega (arith, a, b, c, d, e, g)),
        )
        refl

  net-small : nat_abs (net f) < precision_bound
  net-small =
      let a = nat_abs--ℤ f.gross f.settlement in
      let b = nat_abs--ℤ (f.gross -ℤ f.settlement) f.volume in
      let c = nat_abs--ℤ (f.gross -ℤ f.settlement -ℤ f.volume) f.credit in
      let d = nat_abs--ℤ (f.gross -ℤ f.settlement -ℤ f.volume -ℤ f.credit) f.claims in
      let e = nat_abs-+ℤ (f.gross -ℤ f.settlement -ℤ f.volume -ℤ f.credit -ℤ f.claims) f.retro in
      let g =
        nat_abs-+ℤ (f.gross -ℤ f.settlement -ℤ f.volume -ℤ f.credit -ℤ f.claims +ℤ f.retro)
          f.recoveries in
      omega (arith, a, b, c, d, e, g)

  lines-money : round_lines (all_line_values (as_input f)) ≡ ok (lines_of f)
  unfolding round_lines all_line_values
  lines-money =
      rw
        (
          round_currency-money f.settlement (omega arith),
          round_currency-money f.volume (omega arith),
          round_currency-money f.credit (omega arith),
          round_currency-money f.claims (omega arith),
          round_currency-money f.retro (omega arith),
          round_currency-money f.recoveries (omega arith),
        )
        refl

without-money :
    (f : Figures)
    → turnover f < precision_bound
    → waterfall_without [] (as_input f) ≡ ok (complete (money f.gross) (money (net f)) (lines_of f))
unfolding waterfall_without
without-money f small =
    rw
      (
        round_currency-money f.gross (omega arith),
        net-money f small,
        round_currency-money (net f) (net-small f small),
        lines-money f small,
      )
      refl

IsLineOf : List (LineName × Option Decimal) → List LineName → Type 0
IsLineOf values names = (name : LineName) → Member name names ↔ Member (name, none) values

none-ne-some : {v : Decimal} → ◌≢◌ {A = Option Decimal} none (some v)
none-ne-some e = cc

missing_of_lem : (values : List (LineName × Option Decimal)) → IsLineOf values (missing_of values)
unfolding IsLineOf missing_of
missing_of_lem [] name = (λ h. h, λ h. h)
missing_of_lem ((other, none) ∷ rest) name =
    let h = missing_of_lem rest name in
    (
      λ m. elim m [ inl e ↦ inl (ap (λ t. (t, none)) e) | inr k ↦ inr (h.0 k) ],
      λ m. elim m [ inl e ↦ inl (ap (λ t. t.0) e) | inr k ↦ inr (h.1 k) ],
    )
missing_of_lem ((other, some v) ∷ rest) name =
    let h = missing_of_lem rest name in
    (
      λ m. inr (h.0 m),
      λ m. elim m [ inl e ↦ absurd (none-ne-some (ap (λ t. t.1) e)) | inr k ↦ h.1 k ],
    )

without-missing :
    (i : GrossToNetWaterfallInput) (missing : List LineName) (name : LineName)
    {w : GrossToNetWaterfall}
    → Member name missing
    → ((other : LineName) → Member other missing ↔ Member (other, none) (all_line_values i))
    → waterfall_without missing i ≡ ok w
    → (names : List LineName) × (gross : Decimal) × (w ≡ incomplete names gross)
      × (round_currency i.gross_sales ≡ ok gross)
      × ((other : LineName) → Member other names ↔ Member (other, none) (all_line_values i))
unfolding waterfall_without
without-missing i [] name m all e = absurd m
without-missing i (n ∷ ns) name m all e =
    let (gross, h, last) = >>=-eq-ok (round_currency i.gross_sales) _ e in
    (n ∷ ns, gross, sym (ok-injective last), h, all)

-- Where a line is missing, the waterfall that is returned has no net revenue: it lists exactly the
-- lines that are missing, beside the rounded gross sales.
pub calculate_gross_to_net_waterfall-missing :
    (i : GrossToNetWaterfallInput) (name : LineName) {w : GrossToNetWaterfall}
    → Member (name, none) (all_line_values i)
    → calculate_gross_to_net_waterfall i ≡ ok w
    → (names : List LineName) × (gross : Decimal) × (w ≡ incomplete names gross)
      × (round_currency i.gross_sales ≡ ok gross)
      × ((other : LineName) → Member other names ↔ Member (other, none) (all_line_values i))
unfolding calculate_gross_to_net_waterfall IsLineOf
calculate_gross_to_net_waterfall-missing i name {w} m e =
    without-missing i (missing_of (all_line_values i)) name
      ((missing_of_lem (all_line_values i) name).1 m) (missing_of_lem (all_line_values i)) e

-- With every line given, as amounts of NUMERIC(18, 4) columns whose absolute sum is below 10^24, the
-- waterfall is complete, its net revenue is exactly gross sales less the four deductions plus the
-- two signed lines, and it returns each line as given.
pub calculate_gross_to_net_waterfall-money :
    (f : Figures)
    → turnover f < precision_bound
    → calculate_gross_to_net_waterfall (as_input f)
      ≡ ok (complete (money f.gross) (money (net f)) (lines_of f))
unfolding calculate_gross_to_net_waterfall missing_of all_line_values
calculate_gross_to_net_waterfall-money = without-money
