-- ===== src/Snapshots/Boundary.antt =====
-- What the storage boundary of a days metric lets through.
use procure_foundation.Prelude.{
  ℕ, zero, suc, ◌≡◌, ◌*◌, ◌^◌, ◌<◌, refl, ap, sym, ◌∙◌, Bool, true, false, not, ltb, Option, none,
  some, arith, if◌then◌else◌,
}
use procure_foundation.Prelude.Int.{ℤ, pos, nat_abs, nat_abs-scale, scale, ltb_ℤ}
use procure_foundation.Decimal.{Decimal, absolute, decimal, precision_bound, fix}
use procure_foundation.Decimal.Exact.{fix_exact}
use procure_foundation.ManagementAccounting.{WorkingCapitalMetrics}
use procure_foundation.Snapshots.WorkingCapital.{
  out_of_range, unless, apply_ccc, apply_days_metric_storage_boundary,
}

-- A number of tenths of a day, to which the metrics are rounded.
abbrev pub tenths : ℤ → Decimal
tenths z = scale (10 ^ 59) z

abbrev pub as_metric : Option ℤ → Option Decimal
as_metric none = none
as_metric (some z) = some (tenths z)

-- A result of `quantize` has at most 28 digits.
abbrev pub IsDays : Option ℤ → Type 0
IsDays none = Unit
IsDays (some z) = nat_abs z < precision_bound

-- A column NUMERIC(9, 1) holds nine digits.
abbrev pub fits : ℤ → Bool
fits z = ltb (nat_abs z) (10 ^ 9)

abbrev pub stored : Option ℤ → Option ℤ
stored none = none
stored (some z) = if fits z then some z else none

-- The cycle is stored where it fits and all three of its components are stored.
abbrev pub stored_cycle : Option ℤ → Option ℤ → Option ℤ → Option ℤ → Option ℤ
stored_cycle (some _) (some _) (some _) ccc = stored ccc
stored_cycle _ _ _ ccc = none

fix_tenths : (n : ℕ) → n < precision_bound → fix (n * 10 ^ 59) 1 ≡ n * 10 ^ 59
fix_tenths zero h = unfold fix in refl
fix_tenths (suc n) h = fix_exact (suc n) 59 h (omega arith)

absolute-tenths :
    (z : ℤ) → nat_abs z < precision_bound → absolute (tenths z) ≡ pos (nat_abs z * 10 ^ 59)
unfolding absolute
absolute-tenths z h = ap pos (rw (nat_abs-scale (10 ^ 59) z) (fix_tenths (nat_abs z) h))

beyond : (n : ℕ) → ltb_ℤ (pos (999999999 * 10 ^ 59)) (pos (n * 10 ^ 59)) ≡ not (ltb n (10 ^ 9))
beyond n = ground arith

out_of_range-fits :
    (z : ℤ) → nat_abs z < precision_bound → out_of_range (some (tenths z)) ≡ not (fits z)
unfolding out_of_range decimal
out_of_range-fits z h =
    ap (λ t. ltb_ℤ (pos (999999999 * 10 ^ 59)) t) (absolute-tenths z h) ∙ beyond (nat_abs z)

unless-not {ℓ} :
    {A : Type ℓ} (b : Bool) (f : ℤ → A) (z : ℤ)
    → unless (not b) (some (f z)) ≡ (if b then some (f z) else none)
unless-not true f z = refl
unless-not false f z = refl

as_metric-if :
    (b : Bool) (z : ℤ)
    → as_metric (if b then some z else none) ≡ (if b then some (tenths z) else none)
as_metric-if true z = refl
as_metric-if false z = refl

out_of_range-stored :
    (o : Option ℤ)
    → IsDays o
    → unless (out_of_range (as_metric o)) (as_metric o) ≡ as_metric (stored o)
out_of_range-stored none h = unfold out_of_range in refl
out_of_range-stored (some z) h =
    ap (λ b. unless b (some (tenths z))) (out_of_range-fits z h)
    ∙ unless-not (fits z) tenths z
    ∙ sym (as_metric-if (fits z) z)

apply_ccc-stored :
    (dso dio dpo ccc : Option ℤ) (a b c : Bool)
    → IsDays ccc
    → (apply_ccc (as_metric dso) (as_metric dio) (as_metric dpo) (as_metric ccc) a b c).0
      ≡ as_metric (stored_cycle dso dio dpo ccc)
unfolding apply_ccc
apply_ccc-stored none dio dpo ccc a b c h = refl
apply_ccc-stored (some _) none dpo ccc a b c h = refl
apply_ccc-stored (some _) (some _) none ccc a b c h = refl
apply_ccc-stored (some _) (some _) (some _) ccc a b c h = out_of_range-stored ccc h

abbrev pub metrics_of :
    Option ℤ → Option ℤ → Option ℤ → Option ℤ → Option Decimal → WorkingCapitalMetrics
metrics_of dso dio dpo ccc ratio = record {
  dso = as_metric dso;
  dio = as_metric dio;
  dpo = as_metric dpo;
  ccc = as_metric ccc;
  working_capital_ratio = ratio;
}

-- Of metrics in tenths of a day with at most 28 digits, the boundary stores exactly those of at
-- most nine digits, unchanged, and the others as unknown; the cycle moreover only where its three
-- components are stored. The ratio is left alone.
pub apply_days_metric_storage_boundary-fits :
    (dso dio dpo ccc : Option ℤ) (ratio : Option Decimal)
    → IsDays dso
    → IsDays dio
    → IsDays dpo
    → IsDays ccc
    → (apply_days_metric_storage_boundary (metrics_of dso dio dpo ccc ratio)).0
      ≡ metrics_of
          (stored dso)
          (stored dio)
          (stored dpo)
          (stored_cycle (stored dso) (stored dio) (stored dpo) ccc)
          ratio
unfolding apply_days_metric_storage_boundary
apply_days_metric_storage_boundary-fits dso dio dpo ccc ratio h i j k =
    rw (out_of_range-stored dso h, out_of_range-stored dio i, out_of_range-stored dpo j)
      (ap
        (λ o. record {
          dso = as_metric (stored dso);
          dio = as_metric (stored dio);
          dpo = as_metric (stored dpo);
          ccc = o;
          working_capital_ratio = ratio;
        })
        (apply_ccc-stored (stored dso) (stored dio) (stored dpo) ccc _ _ _ k))
