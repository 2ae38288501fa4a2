-- ===== src/Calendar.antt =====
-- Dates of `datetime`: a date is its ordinal, the number of days from 31 December of the year 0.
pub mod Civil
use procure_foundation.Prelude.{ℕ}
use procure_foundation.Prelude.Int.{ℤ, sub_ℕ}

abbrev pub Date : Type 0
Date = ℕ

-- `(a - b).days`
abbrev pub days_between : Date → Date → ℤ
days_between a b = sub_ℕ a b
