-- ===== src/PurchaseLedger/Variance.antt =====
-- The variances of a purchase against its reference price and of a receipt against its order.
use procure_foundation.Prelude.{
  zero, suc, ◌≡◌, ◌≢◌, ◌⊎◌, ◌↔◌, ◌||◌, inl, inr, ◌+◌, ◌<◌, ◌*◌, Bool-cases, Option, none, some,
  refl, arith, subst, ap, sym, ◌∙◌, true, false,
}
use procure_foundation.Prelude.Int.{
  ℤ, pos, negsuc, pos_part, neg_part, nat_abs, ◌<ℤ◌, ◌-ℤ◌, ◌+ℤ◌, ltb_ℤ, eqb_ℤ, eq_of_parts,
  int_laws, nat_abs--ℤ,
}
use procure_foundation.Result.{ok, raise_if, value_error, >>=-eq-ok, ok-injective}
use procure_foundation.Decimal.{
  Decimal, add, sub, mul, money, round_currency, precision_bound, percentage_of, currency_unit,
}
use procure_foundation.Decimal.Exact.{add-money, sub-money, round_currency-money}
use procure_foundation.Decimal.Money.{round_currency-is_money, nat_abs-money}
use procure_foundation.Decimal.Sign.{sub_pos, sub_neg}
use procure_foundation.PurchaseLedger.{
  PriceVarianceResult, percentage_unless_zero, calculate_purchase_price_variance, complete, short,
  over, ReceiptVarianceResult, receipt_status, calculate_receipt_variance,
}

-- A percentage is there exactly where it is defined.
abbrev pub IsPercentageOf : Decimal → Option Decimal → Type 0
IsPercentageOf whole pct =
    ((whole ≡ pos 0) × (pct ≡ none)) ⊎ ((whole ≢ pos 0) × ((p : Decimal) × (pct ≡ some p)))

is_zero : (a : ℤ) → eqb_ℤ a (pos 0) ≡ true → a ≡ pos 0
is_zero a h = ground arith

is_not_zero : (a : ℤ) → eqb_ℤ a (pos 0) ≡ false → a ≢ pos 0
is_not_zero a h e = ground arith

percentage_unless_zero_lem :
    (part whole : Decimal) {pct : Option Decimal}
    → percentage_unless_zero part whole ≡ ok pct
    → IsPercentageOf whole pct
unfolding percentage_unless_zero
percentage_unless_zero_lem part whole e = elim (Bool-cases (eqb_ℤ whole (pos 0))) [
  | inl zero_whole ↦ inl (is_zero whole zero_whole, sym (ok-injective (rw zero_whole at e)))
  | inr some_whole ↦
      let (p, _, last) = >>=-eq-ok (percentage_of part whole) _ (rw some_whole at e) in
      inr (is_not_zero whole some_whole, (p, sym (ok-injective last)))
]

difference :
    (e a : ℤ) {v : Decimal}
    → nat_abs e + nat_abs a < precision_bound
    → round_currency (sub (money a) (money e)) ≡ ok v
    → add (money e) v ≡ money a
difference e a {v} small h =
    let less : nat_abs (a -ℤ e) < precision_bound = omega (arith, nat_abs--ℤ a e) in
    let exact : ok v ≡ ok (money (a -ℤ e)) =
      sym h ∙ ap round_currency (sub-money a e less) ∙ round_currency-money (a -ℤ e) less in
    let back : e +ℤ (a -ℤ e) ≡ a = omega int_laws in
    let fits : nat_abs (e +ℤ (a -ℤ e)) < precision_bound = rw back (omega arith) in
    rw (ok-injective exact) (add-money e (a -ℤ e) fits ∙ ap money back)

small_parts :
    (e a : ℤ)
    → nat_abs (money e) + nat_abs (money a) < precision_bound * currency_unit
    → nat_abs e + nat_abs a < precision_bound
unfolding precision_bound currency_unit
small_parts e a h = omega (arith, nat_abs-money e, nat_abs-money a)

-- Both costs are column values, so their difference is exact.
costs_add_up :
    (x y : Decimal) {ec ac v : Decimal}
    → round_currency x ≡ ok ec
    → round_currency y ≡ ok ac
    → round_currency (sub ac ec) ≡ ok v
    → nat_abs ec + nat_abs ac < precision_bound * currency_unit
    → add ec v ≡ ac
costs_add_up x y {ec} {ac} {v} he ha hv small =
    let (e, is_e) = round_currency-is_money x he in
    let (a, is_a) = round_currency-is_money y ha in
    let h : nat_abs (money e) + nat_abs (money a) < precision_bound * currency_unit =
      rw (is_e, is_a) at small in
    let w : round_currency (sub (money a) (money e)) ≡ ok v = rw (is_e, is_a) at hv in
    rw (is_e, is_a) (difference e a (small_parts e a h) w)

abbrev IsBalanced : PriceVarianceResult → Type 0
IsBalanced r =
    (add r.expected_cost r.variance ≡ r.actual_cost) × IsPercentageOf r.expected_cost r.variance_pct

-- Where the two costs are together below 10^24, the expected cost and the variance add up to the
-- actual cost exactly. The variance has a percentage where the expected cost is not zero, and none
-- where it is.
pub calculate_purchase_price_variance-adds_up :
    (reference_price actual_price quantity : Decimal) {r : PriceVarianceResult}
    → calculate_purchase_price_variance reference_price actual_price quantity ≡ ok r
    → nat_abs r.expected_cost + nat_abs r.actual_cost < precision_bound * currency_unit
    → (add r.expected_cost r.variance ≡ r.actual_cost)
      × IsPercentageOf r.expected_cost r.variance_pct
unfolding calculate_purchase_price_variance
calculate_purchase_price_variance-adds_up reference_price actual_price quantity {r} h small =
    let (ec, he, h1) = >>=-eq-ok (round_currency (mul reference_price quantity)) _ h in
    let (ac, ha, h2) = >>=-eq-ok (round_currency (mul actual_price quantity)) _ h1 in
    let (v, hv, h3) = >>=-eq-ok (round_currency (sub ac ec)) _ h2 in
    let (pct, hp, h4) = >>=-eq-ok (percentage_unless_zero v ec) _ h3 in
    let at_end : ac ≡ r.actual_cost = ap (λ t. t.actual_cost) (ok-injective h4) in
    let at_start : ec ≡ r.expected_cost = ap (λ t. t.expected_cost) (ok-injective h4) in
    subst IsBalanced (ok-injective h4)
      (costs_add_up _ _ he ha hv (rw (at_start, at_end) small), percentage_unless_zero_lem v ec hp)

trichotomy :
    (a b : ℤ) → (a <ℤ b → ⊥) → (b <ℤ a → ⊥) → pos_part a + neg_part b ≡ pos_part b + neg_part a
trichotomy a b h k = grind arith

signs :
    (a b v : ℤ)
    → ((pos 0 <ℤ v) ↔ (b <ℤ a))
    → ((v <ℤ pos 0) ↔ (a <ℤ b))
    → ((a <ℤ b) × (receipt_status v ≡ short) × (v <ℤ pos 0))
      ⊎ ((b <ℤ a) × (receipt_status v ≡ over) × (pos 0 <ℤ v))
      ⊎ ((a ≡ b) × (receipt_status v ≡ complete) × (v ≡ pos 0))
signs a b (pos zero) p n =
    let least : (a <ℤ b → ⊥) × (b <ℤ a → ⊥) =
      (λ h. let k = n.1 h in omega arith, λ h. let k = p.1 h in omega arith) in
    inr (inr (eq_of_parts a b (trichotomy a b least.0 least.1), refl, refl))
signs a b (pos (suc v)) p n = inr (inl (p.0 (omega arith), ground arith, omega arith))
signs a b (negsuc v) p n = inl (n.0 (omega arith), ground arith, omega arith)

-- How a quantity received compares with the quantity ordered.
abbrev pub IsReceipt : Decimal → Decimal → ReceiptVarianceResult → Type 0
IsReceipt ordered received r =
    ((received <ℤ ordered) × (r.status ≡ short) × (r.variance_quantity <ℤ pos 0))
    ⊎ ((ordered <ℤ received) × (r.status ≡ over) × (pos 0 <ℤ r.variance_quantity))
    ⊎ ((received ≡ ordered) × (r.status ≡ complete) × (r.variance_quantity ≡ pos 0))

compared :
    (ordered received : Decimal)
    → let v = sub received ordered in
      ((received <ℤ ordered) × (receipt_status v ≡ short) × (v <ℤ pos 0))
      ⊎ ((ordered <ℤ received) × (receipt_status v ≡ over) × (pos 0 <ℤ v))
      ⊎ ((received ≡ ordered) × (receipt_status v ≡ complete) × (v ≡ pos 0))
compared ordered received =
    signs received ordered (sub received ordered) (sub_pos received ordered)
      (sub_neg received ordered)

-- A receipt is short, over or complete exactly as less, more or the same was received than
-- ordered, with a variance of that sign, and its percentage is there unless nothing was ordered.
pub calculate_receipt_variance_status :
    (ordered received : Decimal) {r : ReceiptVarianceResult}
    → calculate_receipt_variance ordered received ≡ ok r
    → IsReceipt ordered received r × IsPercentageOf ordered r.variance_pct
unfolding calculate_receipt_variance
calculate_receipt_variance_status ordered received h =
    let (_, _, h1) =
      >>=-eq-ok (raise_if (ltb_ℤ ordered (pos 0) || ltb_ℤ received (pos 0)) value_error) _ h in
    let (pct, hp, h2) = >>=-eq-ok (percentage_unless_zero (sub received ordered) ordered) _ h1 in
    subst (λ r. IsReceipt ordered received r × IsPercentageOf ordered r.variance_pct)
      (ok-injective h2)
      (compared ordered received, percentage_unless_zero_lem (sub received ordered) ordered hp)
