-- ===== src/Rebate/Leakage.antt =====
-- Leakage on amounts of NUMERIC(18, 4) columns, and the status of a rebate period.
use procure_foundation.Prelude.{
  ℕ, ◌≡◌, ◌+◌, ◌<◌, ◌≤◌, ◌∙◌, ap, sym, inl, inr, if◌then◌else◌, Bool-cases, leb→le, Bool, Option,
  none, some, List, [], ◌∷◌, arith,
}
use procure_foundation.Prelude.Int.{
  ℤ, pos, ◌+ℤ◌, ◌-ℤ◌, leb_ℤ, nat_abs, nat_abs-+ℤ, nat_abs--ℤ, int_laws,
}
use procure_foundation.Result.{ok}
use procure_foundation.Decimal.{Decimal, money, precision_bound, sub, round_currency}
use procure_foundation.Decimal.Exact.{
  add-money, sub-money, round_currency-money, money-zero, money-le, decimal-4,
}
use procure_foundation.Rebate.{
  reconciled, leakage_detected, calculate_rebate_leakage, leakage_from,
  calculate_aggregate_rebate_leakage, classify_rebate_status,
}

-- An amount that was received, in ten-thousandths; nothing received counts as zero.
abbrev pub received_units : Option ℤ → ℤ
received_units none = pos 0
received_units (some r) = r

abbrev pub as_money : Option ℤ → Option Decimal
as_money none = none
as_money (some r) = some (money r)

-- On amounts of NUMERIC(18, 4) columns the leakage is the exact difference, and all that was
-- expected where nothing has been received.
pub calculate_rebate_leakage-money :
    (expected : ℤ) (received : Option ℤ)
    → nat_abs (expected -ℤ received_units received) < precision_bound
    → calculate_rebate_leakage (money expected) (as_money received)
      ≡ ok (money (expected -ℤ received_units received))
unfolding calculate_rebate_leakage
calculate_rebate_leakage-money expected none h =
    ap (λ t. round_currency (sub (money expected) t)) (sym money-zero)
    ∙ ap round_currency (sub-money expected (pos 0) h)
    ∙ round_currency-money _ h
calculate_rebate_leakage-money expected (some r) h =
    rw (sub-money expected r h) (round_currency-money _ h)

-- A period: what was expected, and what was received if anything was.
abbrev pub Pairs : Type 0
Pairs = List (ℤ × Option ℤ)

abbrev pub as_amounts : Pairs → List (Decimal × Option Decimal)
as_amounts [] = []
as_amounts ((e, r) ∷ ps) = (money e, as_money r) ∷ as_amounts ps

abbrev pub total_expected : Pairs → ℤ
total_expected [] = pos 0
total_expected ((e, _) ∷ ps) = e +ℤ total_expected ps

abbrev pub total_received : Pairs → ℤ
total_received [] = pos 0
total_received ((_, r) ∷ ps) = received_units r +ℤ total_received ps

-- The sum of the absolute amounts.
abbrev pub volume : Pairs → ℕ
volume [] = 0
volume ((e, r) ∷ ps) = nat_abs e + nat_abs (received_units r) + volume ps

parts-volume : (ps : Pairs) → nat_abs (total_expected ps) + nat_abs (total_received ps) ≤ volume ps
parts-volume [] = omega arith
parts-volume ((e, r) ∷ ps) = omega (
  arith,
  parts-volume ps,
  nat_abs-+ℤ e (total_expected ps),
  nat_abs-+ℤ (received_units r) (total_received ps),
)

total-volume : (ps : Pairs) → nat_abs (total_expected ps -ℤ total_received ps) ≤ volume ps
total-volume ps = omega (arith, nat_abs--ℤ (total_expected ps) (total_received ps), parts-volume ps)

leakage_from-money :
    (acc : ℤ) (ps : Pairs)
    → nat_abs acc + volume ps < precision_bound
    → leakage_from (money acc) (as_amounts ps)
      ≡ ok (money (acc +ℤ (total_expected ps -ℤ total_received ps)))
unfolding leakage_from
leakage_from-money acc [] h = ap (λ (t : ℤ). ok (money t)) (omega int_laws)
leakage_from-money acc ((e, r) ∷ ps) h =
    let d : ℤ = e -ℤ received_units r in
    let small : nat_abs d < precision_bound = omega (arith, nat_abs--ℤ e (received_units r)) in
    let grow : nat_abs (acc +ℤ d) ≤ nat_abs acc + (nat_abs e + nat_abs (received_units r)) =
      omega (arith, nat_abs-+ℤ acc d, nat_abs--ℤ e (received_units r)) in
    let small_sum : nat_abs (acc +ℤ d) < precision_bound = omega (arith, grow) in
    rw (calculate_rebate_leakage-money e r small, add-money acc d small_sum)
      (leakage_from-money (acc +ℤ d) ps (omega (arith, grow))
        ∙ ap (λ (t : ℤ). ok (money t)) (omega int_laws))

-- Over any number of periods, with amounts of NUMERIC(18, 4) columns whose absolute sum is below
-- 10^24, the aggregate leakage is the total expected less the total received. Over-payments count
-- against the rest: nothing is cut off at zero.
pub calculate_aggregate_rebate_leakage-money :
    (ps : Pairs)
    → volume ps < precision_bound
    → calculate_aggregate_rebate_leakage (as_amounts ps)
      ≡ ok (money (total_expected ps -ℤ total_received ps))
unfolding calculate_aggregate_rebate_leakage
calculate_aggregate_rebate_leakage-money ps h =
    let total : ℤ = total_expected ps -ℤ total_received ps in
    let e : leakage_from (pos 0) (as_amounts ps) ≡ ok (money total) =
      ap (λ t. leakage_from t (as_amounts ps)) (sym money-zero)
      ∙ leakage_from-money (pos 0) ps (omega arith)
      ∙ ap (λ (t : ℤ). ok (money t)) (omega int_laws) in
    let small : nat_abs total < precision_bound = omega (arith, total-volume ps) in
    rw e (round_currency-money total small)

money-leb : (a b : ℤ) → leb_ℤ (money a) (money b) ≡ leb_ℤ a b
money-leb a b =
    let (down, up) = money-le a b in
    elim (Bool-cases (leb_ℤ a b)) [
      | inl le ↦ let h = up (leb→le _ _ le) in ground arith
      | inr gt ↦ elim (Bool-cases (leb_ℤ (money a) (money b))) [
        | inl le ↦ let h = down (leb→le _ _ le) in ground arith
        | inr _ ↦ ground arith
      ]
    ]

tolerance : (e r : ℤ) → leb_ℤ (e -ℤ r) (pos 1) ≡ leb_ℤ e (r +ℤ pos 1)
unfolding ◌-ℤ◌ ◌+ℤ◌
tolerance e r = ground arith

-- A period in which an amount has been received, both amounts being of NUMERIC(18, 4) columns with
-- a difference below 10^24: it is reconciled if at most 0.0001 is missing, also where too much was
-- paid, and there is leakage otherwise; whether it is closed or an alert is due plays no part.
pub classify_rebate_status-received :
    (expected received : ℤ) (closed alert : Bool)
    → nat_abs (expected -ℤ received) < precision_bound
    → classify_rebate_status (money expected) (some (money received)) closed alert
      ≡ ok (if leb_ℤ expected (received +ℤ pos 1) then reconciled else leakage_detected)
unfolding classify_rebate_status
classify_rebate_status-received expected received closed alert h =
    let d : ℤ = expected -ℤ received in
    rw (calculate_rebate_leakage-money expected (some received) h, decimal-4 1, money-leb d (pos 1))
      (ap (λ b. ok (if b then reconciled else leakage_detected)) (tolerance expected received))
