-- ===== src/ManagementAccounting/Aging.antt =====
-- The ageing buckets on NUMERIC(18, 4) amounts.
use procure_foundation.Prelude.{
  ℕ, ◌≡◌, ◌+◌, ◌<◌, ◌≤◌, Bool, ◌&&◌, Bool-cases, inl, inr, List, [], ◌∷◌, refl, ap, sym, ◌∙◌, arith,
  if◌then◌else◌,
}
use procure_foundation.Prelude.Int.{ℤ, pos, ◌+ℤ◌, nat_abs, nat_abs-+ℤ, leb_ℤ, ltb_ℤ, int_laws}
use procure_foundation.Result.{ok}
use procure_foundation.Decimal.{Decimal, money, precision_bound, add}
use procure_foundation.Decimal.Exact.{add-money, round_currency-money, money-zero}
use procure_foundation.ManagementAccounting.{
  AgingBuckets, age, age_all, round_buckets, empty_buckets, classify_aging_buckets,
}

-- An invoice: its amount in ten-thousandths and the days that it is overdue.
abbrev pub Invoice : Type 0
Invoice = ℤ × ℤ

abbrev pub as_rows : List Invoice → List (Decimal × ℤ)
as_rows [] = []
as_rows ((a, d) ∷ is) = (money a, d) ∷ as_rows is

abbrev pub volume : List Invoice → ℕ
volume [] = 0
volume ((a, _) ∷ is) = nat_abs a + volume is

pub data Bucket : Type 0 where
  under_30 from_30 from_60 from_90 from_120 : Bucket

-- The days of a bucket: from the lower bound on, below the upper one.
abbrev pub is_in : Bucket → ℤ → Bool
is_in under_30 d = ltb_ℤ d (pos 30)
is_in from_30 d = leb_ℤ (pos 30) d && ltb_ℤ d (pos 60)
is_in from_60 d = leb_ℤ (pos 60) d && ltb_ℤ d (pos 90)
is_in from_90 d = leb_ℤ (pos 90) d && ltb_ℤ d (pos 120)
is_in from_120 d = leb_ℤ (pos 120) d

abbrev pub bucket_total : Bucket → List Invoice → ℤ
bucket_total b [] = pos 0
bucket_total b ((a, d) ∷ is) = if is_in b d then a +ℤ bucket_total b is else bucket_total b is

abbrev pub column : Bucket → AgingBuckets → Decimal
column under_30 t = t.current
column from_30 t = t.days_30
column from_60 t = t.days_60
column from_90 t = t.days_90
column from_120 t = t.days_120_plus

column-age :
    (b : Bucket) (a : Decimal) (d : ℤ) (t : AgingBuckets)
    → column b (age a d t) ≡ (if is_in b d then add (column b t) a else column b t)
column-age b a d t = ground arith

column-age_all :
    (b : Bucket) (acc : ℤ) (t : AgingBuckets) (is : List Invoice)
    → column b t ≡ money acc
    → nat_abs acc + volume is < precision_bound
    → column b (age_all t (as_rows is)) ≡ money (acc +ℤ bucket_total b is)
unfolding age_all
column-age_all b acc t [] e h = e ∙ ap money (omega int_laws)
column-age_all b acc t ((a, d) ∷ is) e h =
    let up = nat_abs-+ℤ acc a in
    let step = column-age b (money a) d t in
    elim (Bool-cases (is_in b d)) [
      | inl inside ↦
          let now : column b (age (money a) d t) ≡ money (acc +ℤ a) =
            step ∙ rw (inside, e) (add-money acc a (omega (arith, up))) in
          rw inside (
            column-age_all b (acc +ℤ a) (age (money a) d t) is now (omega (arith, up))
            ∙ ap money (omega int_laws))
      | inr outside ↦
          let now : column b (age (money a) d t) ≡ money acc = step ∙ rw outside e in
          rw outside (column-age_all b acc (age (money a) d t) is now (omega arith))
    ]

bucket_total-volume : (b : Bucket) (is : List Invoice) → nat_abs (bucket_total b is) ≤ volume is
bucket_total-volume b [] = omega arith
bucket_total-volume b ((a, d) ∷ is) =
    let h = nat_abs-+ℤ a (bucket_total b is) in
    let k = bucket_total-volume b is in
    elim (Bool-cases (is_in b d)) [
      | inl inside ↦ rw inside (omega (arith, h, k))
      | inr outside ↦ rw outside (omega (arith, k))
    ]

from_zero : (a : ℤ) → pos 0 +ℤ a ≡ a
from_zero a = omega int_laws

-- The buckets in ten-thousandths.
abbrev pub buckets_of : List Invoice → AgingBuckets
buckets_of is = record {
  current = money (bucket_total under_30 is);
  days_30 = money (bucket_total from_30 is);
  days_60 = money (bucket_total from_60 is);
  days_90 = money (bucket_total from_90 is);
  days_120_plus = money (bucket_total from_120 is);
}

-- On amounts of NUMERIC(18, 4) columns whose absolute sum is below 10^24, each bucket holds exactly
-- the sum of the invoices whose days overdue are in its range: below 30, from 30 to 59, 60 to 89, 90
-- to 119, and from 120 on.
pub classify_aging_buckets-money :
    (is : List Invoice)
    → volume is < precision_bound
    → classify_aging_buckets (as_rows is) ≡ ok (buckets_of is)
unfolding classify_aging_buckets round_buckets
classify_aging_buckets-money is h =
    let total = λ (b : Bucket) (e : column b empty_buckets ≡ money (pos 0)).
      column-age_all b (pos 0) empty_buckets is e (omega arith)
      ∙ ap money (from_zero (bucket_total b is)) in
    let small = λ (b : Bucket).
      round_currency-money (bucket_total b is) (omega (arith, bucket_total-volume b is)) in
    let z = sym money-zero in
    rw
      (
        total under_30 z,
        total from_30 z,
        total from_60 z,
        total from_90 z,
        total from_120 z,
        small under_30,
        small from_30,
        small from_60,
        small from_90,
        small from_120,
      )
      refl
