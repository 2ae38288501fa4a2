-- ===== src/Snapshots/Corrections.antt =====
-- Which working capital snapshots are active: those with no `corrects_id`.
use procure_foundation.Prelude.{
  ℕ, ◌≡◌, ◌≤◌, ◌⊎◌, refl, ap, sym, subst, ◌∙◌, Bool, true, false, not, ◌&&◌, Bool-cases, inl, inr,
  Option, none, some, List, [], ◌∷◌, length, ◌==◌, arith,
}
use procure_foundation.Result.{Result, ok, conflict, raise_if, ◌>>◌, >>=-eq-ok, ok-injective}
use procure_foundation.Calendar.{Date}
use procure_foundation.ManagementAccounting.{
  WorkingCapitalMetrics, calculate_working_capital_metrics,
}
use procure_foundation.Snapshots.WorkingCapital.{
  WorkingCapitalSnapshot, WorkingCapitalInput, WorkingCapitalTables, active_on, corrected_id,
  new_snapshot, is_original, is_given, scalar_one_or_none, ingest_working_capital_snapshot,
}

raise_if-ok :
    {A : Type 0} (b : Bool) (k : Result A) {r : A}
    → (raise_if b conflict >> k) ≡ ok r
    → (b ≡ false) × (k ≡ ok r)
raise_if-ok false k e = (refl, e)
raise_if-ok true k e = cc

-- What a submission that succeeds has found and added.
record Added (user_id : ℕ) (input : WorkingCapitalInput) (is_correction : Bool)
    (t u : WorkingCapitalTables) : Type 0 where
  existing : Option WorkingCapitalSnapshot
  metrics : WorkingCapitalMetrics
  id : ℕ
  found : scalar_one_or_none (active_on input.as_of_date t.snapshots) ≡ ok existing
  allowed : (is_given existing && not is_correction) ≡ false
  added :
      u.snapshots
      ≡ new_snapshot id user_id input metrics (corrected_id is_correction existing) ∷ t.snapshots

ingest-Added :
    (user_id : ℕ) (input : WorkingCapitalInput) (is_correction : Bool) (t : WorkingCapitalTables)
    {u : WorkingCapitalTables}
    → ingest_working_capital_snapshot user_id input is_correction t ≡ ok u
    → Added user_id input is_correction t u
unfolding ingest_working_capital_snapshot
ingest-Added user_id input is_correction t e =
    let (existing, found, e1) =
      >>=-eq-ok (scalar_one_or_none (active_on input.as_of_date t.snapshots)) _ e in
    let (allowed, e2) = raise_if-ok (is_given existing && not is_correction) _ e1 in
    let (metrics, _, e3) =
      >>=-eq-ok
        (calculate_working_capital_metrics input.accounts_receivable input.accounts_payable
          input.inventory_value input.annualized_revenue input.annualized_cogs input.cash_balance)
        _ e2 in
    record {
      existing = existing;
      metrics = metrics;
      id = _;
      found = found;
      allowed = allowed;
      added = sym (ap (λ x. x.snapshots) (ok-injective e3));
    }

corrected-not_original :
    (existing : Option WorkingCapitalSnapshot) (s : WorkingCapitalSnapshot)
    → existing ≡ some s
    → is_original (corrected_id true existing) ≡ false
corrected-not_original existing s e = rw e refl

-- A row that corrects another is active on no date.
inactive :
    (date : Date) (s : WorkingCapitalSnapshot) (rows : List WorkingCapitalSnapshot)
    → is_original s.corrects_id ≡ false
    → active_on date (s ∷ rows) ≡ active_on date rows
inactive date s rows h = elim (Bool-cases (s.as_of_date == date)) [
  | inl e ↦ rw (e, h) refl
  | inr e ↦ rw e refl
]

-- A submission that corrects the active snapshot of its date leaves the active snapshots of every
-- date as they were: the corrected one stays active, and the correction never is.
pub ingest_working_capital_snapshot-correction :
    (user_id : ℕ) (input : WorkingCapitalInput) (t u : WorkingCapitalTables)
    (s : WorkingCapitalSnapshot) (date : Date)
    → active_on input.as_of_date t.snapshots ≡ s ∷ []
    → ingest_working_capital_snapshot user_id input true t ≡ ok u
    → active_on date u.snapshots ≡ active_on date t.snapshots
ingest_working_capital_snapshot-correction user_id input t u s date one e =
    let a = ingest-Added user_id input true t e in
    let found : ok (some s) ≡ ok (a.existing) = rw one at (a.found) in
    let given = corrected-not_original a.existing s (sym (ok-injective found)) in
    ap (active_on date) a.added ∙ inactive date _ t.snapshots given

-- What submissions reach from empty tables.
pub data Reachable : WorkingCapitalTables → Type 0 where
  by_start : Reachable (record { snapshots = []; audit_log = [] })
  by_ingestion :
      (user_id : ℕ) (input : WorkingCapitalInput) (is_correction : Bool)
      {t u : WorkingCapitalTables}
      → Reachable t
      → ingest_working_capital_snapshot user_id input is_correction t ≡ ok u
      → Reachable u

original-none :
    (existing : Option WorkingCapitalSnapshot) (is_correction : Bool)
    → (is_given existing && not is_correction) ≡ false
    → (is_original (corrected_id is_correction existing) ≡ false) ⊎ (existing ≡ none)
original-none none is_correction h = inr refl
original-none (some s) true h = inl refl
original-none (some s) false h = cc

scalar-none : (rows : List WorkingCapitalSnapshot) → scalar_one_or_none rows ≡ ok none → rows ≡ []
scalar-none [] h = refl
scalar-none (x ∷ []) h = cc
scalar-none (x ∷ y ∷ rest) h = cc

first_on_date :
    (date : Date) (s : WorkingCapitalSnapshot) (rows : List WorkingCapitalSnapshot)
    → active_on s.as_of_date rows ≡ []
    → length (active_on date rows) ≤ 1
    → length (active_on date (s ∷ rows)) ≤ 1
first_on_date date s rows none_yet h = elim (Bool-cases (s.as_of_date == date)) [
  | inl e ↦
      let same : s.as_of_date ≡ date = ground arith in
      let k : active_on date rows ≡ [] = subst (λ d. active_on d rows ≡ []) same none_yet in
      elim (Bool-cases (is_original s.corrects_id)) [
        | inl o ↦ rw (e, o, k) (omega arith)
        | inr o ↦ rw (e, o) h
      ]
  | inr e ↦ rw e h
]

-- In all tables that submissions reach from empty ones, at most one snapshot is active on a date.
pub Reachable-one_active :
    (t : WorkingCapitalTables) (date : Date) → Reachable t → length (active_on date t.snapshots) ≤ 1
Reachable-one_active t date by_start = omega arith
Reachable-one_active u date (by_ingestion user_id input is_correction {t} reach e) =
    let a = ingest-Added user_id input is_correction t e in
    let new = new_snapshot a.id user_id input a.metrics (corrected_id is_correction a.existing) in
    let before = Reachable-one_active t date reach in
    rw (a.added) (elim (original-none a.existing is_correction a.allowed) [
      | inl corrects ↦ rw (inactive date new t.snapshots corrects) before
      | inr nothing ↦
          first_on_date date new t.snapshots
            (scalar-none (active_on input.as_of_date t.snapshots) (a.found ∙ ap ok nothing)) before
    ])
