-- ===== src/Snapshots/Valuation/Active.antt =====
-- Which inventory snapshots are active after a submission.
use mathlib.Core.List.{append_assoc}
use Prim.Native.String.{String}
use procure_foundation.Prelude.{
  ℕ, suc, ◌≡◌, ◌-◌, refl, ap, sym, ◌∙◌, Bool, true, false, not, ◌&&◌, Option, none, some, List, [],
  ◌∷◌, ◌++◌, map, length, length-append, ◌==◌, append_one, arith, if◌then◌else◌,
}
use procure_foundation.Result.{ok, conflict, raise_if, ◌>>◌, ok-injective}
use procure_foundation.Calendar.{Date}
use procure_foundation.Snapshots.Valuation.{
  ValuationRecord, InventorySnapshot, ValuationTables, ValuationResult, active_at, snapshot_of,
  insert_all, is_any, ingest_inventory_valuation,
}

eq_refl : (n : ℕ) → (n == n) ≡ true
eq_refl n = ground arith

module _ (user_id : ℕ) (storage_key : Option String) (location_id : ℕ) (date : Date) where
  -- A record that corrects a row is not active, one that corrects none is.
  insert_correcting :
      (ids : List ℕ) (id n : ℕ) (r : ValuationRecord) (table : List InventorySnapshot)
      → active_at location_id date
          (snapshot_of user_id storage_key n location_id date (some id) r ∷ table)
        ≡ active_at location_id date table
  insert_correcting ids id n r table = rw (eq_refl location_id, eq_refl date) refl

  insert_new :
      (n : ℕ) (r : ValuationRecord) (table : List InventorySnapshot)
      → active_at location_id date
          (snapshot_of user_id storage_key n location_id date none r ∷ table)
        ≡ snapshot_of user_id storage_key n location_id date none r
          ∷ active_at location_id date table
  insert_new n r table = rw (eq_refl location_id, eq_refl date) refl

  insert_all-active :
      (ids : List ℕ) (records : List ValuationRecord) (table : List InventorySnapshot)
      → (extra : List InventorySnapshot) × (active_at location_id date
            (insert_all user_id storage_key location_id date ids records table)
          ≡ extra ++ active_at location_id date table)
        × (length extra ≡ length records - length ids)
  unfolding insert_all
  insert_all-active ids [] table = ([], refl, omega arith)
  insert_all-active [] (r ∷ records) table =
      let row = snapshot_of user_id storage_key (suc (length table)) location_id date none r in
      let (extra, e, count) = insert_all-active [] records (row ∷ table) in
      (
        append_one extra row,
        e
            ∙ ap (λ t. extra ++ t) (insert_new (suc (length table)) r table)
            ∙ sym (append_assoc extra (row ∷ []) _),
        omega (arith, length-append extra (row ∷ []), count),
      )
  insert_all-active (id ∷ ids) (r ∷ records) table =
      let row = snapshot_of user_id storage_key (suc (length table)) location_id date (some id) r in
      let (extra, e, count) = insert_all-active ids records (row ∷ table) in
      (
        extra,
        e ∙ ap (λ t. extra ++ t) (insert_correcting ids id (suc (length table)) r table),
        omega (arith, count),
      )

length-map : {A B : Type 0} (f : A → B) (xs : List A) → length (map f xs) ≡ length xs
length-map f [] = refl
length-map f (x ∷ xs) = ap suc (length-map f xs)

no_conflict :
    {A : Type 0} (b : Bool) {x y : A} → (raise_if b conflict >> ok x) ≡ ok y → (b ≡ false) × (x ≡ y)
no_conflict false h = (refl, ok-injective h)
no_conflict true h = cc

-- The keys that the loop gets: those of the active rows, or none where there are none.
ids_used :
    (ids : List ℕ) (is_correction : Bool)
    → (is_any ids && not is_correction) ≡ false
    → (if is_correction then ids else []) ≡ ids
ids_used [] true h = refl
ids_used [] false h = refl
ids_used (id ∷ ids) true h = refl
ids_used (id ∷ ids) false h = cc

-- After a submission for a location and a date, a correction or not, the snapshots active there are
-- those that were active before, preceded by as many others as there are more submitted records
-- than those: a correction by no more records than there are active snapshots changes nothing.
pub ingest_inventory_valuation-active :
    (user_id location_id : ℕ) (date : Date) (records : List ValuationRecord)
    (storage_key file_hash : Option String) (is_correction : Bool) (t u : ValuationTables)
    (result : ValuationResult)
    → ingest_inventory_valuation user_id location_id date records storage_key file_hash
        is_correction t
      ≡ ok (u, result)
    → let before = active_at location_id date t.snapshots in
      (extra : List InventorySnapshot) × (active_at location_id date u.snapshots ≡ extra ++ before)
      × (length extra ≡ length records - length before)
unfolding ingest_inventory_valuation
ingest_inventory_valuation-active user_id location_id date records storage_key file_hash
      is_correction t u result h =
    let before = active_at location_id date t.snapshots in
    let ids = map (λ (s : InventorySnapshot). s.id) before in
    let (allowed, same) = no_conflict (is_any ids && not is_correction) h in
    let used = if is_correction then ids else [] in
    let (extra, e, count) =
      insert_all-active user_id storage_key location_id date used records t.snapshots in
    (
      extra,
      sym (
            ap (λ (x : ValuationTables × ValuationResult). active_at location_id date x.0.snapshots)
              same)
          ∙ e,
      count
          ∙ ap (λ ids'. length records - length ids') (ids_used ids is_correction allowed)
          ∙ ap (λ n. length records - n) (length-map (λ (s : InventorySnapshot). s.id) before),
    )
