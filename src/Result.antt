-- ===== src/Result.antt =====
-- The exceptions of the Python code as values: what `raise` carries, and a chain of calls that
-- stops at the first exception.
use procure_foundation.Prelude.{◌≡◌, refl, ◌⊎◌, inl, inr, Bool, true, false}

-- `ValueError` and `KeyError`; the signals `InvalidOperation` and `DivisionByZero` of `decimal`; `OverflowError`
-- of `datetime`; `ConflictError`, `NotFoundError`, `ValidationFailedError` and
-- `PermissionDeniedError` of backend/app/core/exceptions.py; `UnknownSupplierError` and
-- `InvalidConsolidationTransitionError` of backend/app/analytics/domain_graph.py;
-- `MultipleResultsFound` of the database library; `UnrecognizedPackFormatError` of
-- backend/app/matching/pack_parser.py.
pub data Error : Type 0 where
  value_error invalid_operation division_by_zero overflow_error : Error
  conflict not_found validation_failed permission_denied : Error
  unknown_supplier invalid_consolidation_transition multiple_results : Error
  unrecognized_pack_format key_error : Error

pub data Result {ℓ} (Value : Type ℓ) : Type ℓ where
  err : Error → Result Value
  ok : Value → Result Value

infixl 5 ◌>>=◌ ◌>>◌
abbrev pub ◌>>=◌ {ℓ κ} :
    {Value : Type ℓ} {Next : Type κ} → Result Value → (Value → Result Next) → Result Next
err raised >>= rest = err raised
ok value >>= rest = rest value

-- `if c: raise e`
abbrev pub raise_if : Bool → Error → Result (Unit {0})
raise_if false raised = ok tt
raise_if true raised = err raised

-- A statement and those that follow it.
abbrev pub ◌>>◌ {ℓ} : {Next : Type ℓ} → Result (Unit {0}) → Result Next → Result Next
check >> rest = check >>= λ _. rest

pub Result-cases {ℓ} :
    {A : Type ℓ} (r : Result A) → ((a : A) × (r ≡ ok a)) ⊎ ((e : Error) × (r ≡ err e))
Result-cases (ok a) = inl (a, refl)
Result-cases (err e) = inr (e, refl)

-- A chain that ends well has come through its first call.
pub >>=-eq-ok {ℓ κ} :
    {Value : Type ℓ} {Next : Type κ} (first : Result Value) (rest : Value → Result Next)
    {end : Next}
    → (first >>= rest) ≡ ok end
    → (value : Value) × (first ≡ ok value) × (rest value ≡ ok end)
>>=-eq-ok (err raised) rest h = cc
>>=-eq-ok (ok value) rest h = (value, refl, h)

pub ok-injective {ℓ} : {Value : Type ℓ} {x y : Value} → ok x ≡ ok y → x ≡ y
ok-injective same = cc
