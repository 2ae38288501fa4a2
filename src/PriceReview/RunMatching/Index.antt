-- ===== src/PriceReview/RunMatching/Index.antt =====
-- What `new_by_sku` holds.
use procure_foundation.Prelude.{
  ◌≡◌, refl, sym, ap, ◌∙◌, ◌⊎◌, inl, inr, true, Bool-cases, Option, none, some, List, [], ◌∷◌, All,
  All-map, Member,
}
use procure_foundation.Result.{ok}
use procure_foundation.Matching.Text.{Text, eq_text_refl, eq_text→eq}
use procure_foundation.PriceReview.RunMatching.{
  StagedRow, eq_sku, set_row, set_rows, new_by_sku, get_row,
}

pub eq_sku→eq : (s t : Option Text) → eq_sku s t ≡ true → s ≡ t
eq_sku→eq none none h = refl
eq_sku→eq (some s) (some t) h = ap some (eq_text→eq s t h)
eq_sku→eq none (some t) h = cc
eq_sku→eq (some s) none h = cc

pub eq_sku_refl : (s : Option Text) → eq_sku s s ≡ true
eq_sku_refl none = refl
eq_sku_refl (some s) = eq_text_refl s

-- An entry of the index of a list of rows: a row of the list, under its SKU.
abbrev pub IsEntry : List StagedRow → Option Text × StagedRow → Type 0
IsEntry rows (key, row) = (row.supplier_sku ≡ key) × Member row rows

abbrev Index : Type 0
Index = List (Option Text × StagedRow)

set_row-IsEntry :
    (all : List StagedRow) (entries : Index) (row : StagedRow)
    → Member row all
    → All (IsEntry all) entries
    → All (IsEntry all) (set_row entries row.supplier_sku row)
unfolding set_row
set_row-IsEntry all [] row m h = ((refl, m), tt)
set_row-IsEntry all ((key, old) ∷ entries) row m h =
    elim (Bool-cases (eq_sku key row.supplier_sku)) [
      | inl same ↦ rw same ((sym (eq_sku→eq key row.supplier_sku same), m), h.1)
      | inr other ↦ rw other (h.0, set_row-IsEntry all entries row m h.1)
    ]

set_rows-IsEntry :
    (all : List StagedRow) (entries : Index) (rows : List StagedRow)
    → All (λ row. Member row all) rows
    → All (IsEntry all) entries
    → All (IsEntry all) (set_rows entries rows)
unfolding set_rows
set_rows-IsEntry all entries [] m h = h
set_rows-IsEntry all entries (row ∷ rows) m h =
    set_rows-IsEntry all (set_row entries row.supplier_sku row) rows m.1
      (set_row-IsEntry all entries row m.0 h)

all_Members : {A : Type 0} (xs : List A) → All (λ x. Member x xs) xs
all_Members [] = tt
all_Members (x ∷ xs) = (inl refl, All-map (λ y (m : Member y xs). inr m) xs (all_Members xs))

pub new_by_sku-IsEntry : (rows : List StagedRow) → All (IsEntry rows) (new_by_sku rows)
new_by_sku-IsEntry rows = set_rows-IsEntry rows [] rows (all_Members rows) tt

-- Whether a key stands in the index.
abbrev pub IsKey : Option Text → Index → Type 0
IsKey sku [] = ⊥
IsKey sku ((key, row) ∷ entries) = (key ≡ sku) ⊎ IsKey sku entries

set_row-IsKey :
    (entries : Index) (sku : Option Text) (row : StagedRow) → IsKey sku (set_row entries sku row)
unfolding set_row
set_row-IsKey [] sku row = inl refl
set_row-IsKey ((key, old) ∷ entries) sku row = elim (Bool-cases (eq_sku key sku)) [
  | inl same ↦ rw same (inl (eq_sku→eq key sku same))
  | inr other ↦ rw other (inr (set_row-IsKey entries sku row))
]

set_row-keeps :
    (entries : Index) (sku other : Option Text) (row : StagedRow)
    → IsKey other entries
    → IsKey other (set_row entries sku row)
unfolding set_row
set_row-keeps [] sku other row m = absurd m
set_row-keeps ((key, old) ∷ entries) sku other row m = elim (Bool-cases (eq_sku key sku)) [
  | inl same ↦ rw same m
  | inr differs ↦
      rw differs (elim m [
        | inl here ↦ inl here
        | inr later ↦ inr (set_row-keeps entries sku other row later)
      ])
]

set_rows-keeps :
    (entries : Index) (rows : List StagedRow) (sku : Option Text)
    → IsKey sku entries
    → IsKey sku (set_rows entries rows)
unfolding set_rows
set_rows-keeps entries [] sku m = m
set_rows-keeps entries (row ∷ rows) sku m =
    set_rows-keeps (set_row entries row.supplier_sku row) rows sku
      (set_row-keeps entries row.supplier_sku sku row m)

set_rows-IsKey :
    (entries : Index) (rows : List StagedRow)
    → All (λ row. IsKey row.supplier_sku (set_rows entries rows)) rows
unfolding set_rows
set_rows-IsKey entries [] = tt
set_rows-IsKey entries (row ∷ rows) =
    let next = set_row entries row.supplier_sku row in
    (
      set_rows-keeps next rows row.supplier_sku (set_row-IsKey entries row.supplier_sku row),
      set_rows-IsKey next rows,
    )

pub new_by_sku-IsKey :
    (rows : List StagedRow) → All (λ row. IsKey row.supplier_sku (new_by_sku rows)) rows
new_by_sku-IsKey rows = set_rows-IsKey [] rows

-- A key that stands in the index is found, with a row of the list that has this SKU.
pub get_row-ok :
    (all : List StagedRow) (entries : Index) (sku : Text)
    → All (IsEntry all) entries
    → IsKey (some sku) entries
    → (row : StagedRow) × (get_row entries sku ≡ ok row) × IsEntry all (some sku, row)
unfolding get_row
get_row-ok all [] sku h m = absurd m
get_row-ok all ((key, row) ∷ entries) sku h m = elim (Bool-cases (eq_sku key (some sku))) [
  | inl same ↦ rw same (row, refl, (h.0.0 ∙ eq_sku→eq key (some sku) same, h.0.1))
  | inr other ↦ rw other (elim m [
    | inl here ↦ let same : eq_sku key (some sku) ≡ true = rw here (eq_sku_refl (some sku)) in cc
    | inr later ↦ get_row-ok all entries sku h.1 later
  ])
]
