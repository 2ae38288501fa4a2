-- ===== src/Consolidation/Review.antt =====
-- Reviews of a consolidation flag one after another.
use Prim.Native.String.{String}
use procure_foundation.Prelude.{
  ℕ, ◌≡◌, ◌+◌, ◌≤◌, ◌<◌, Option, List, [], ◌∷◌, length, arith, ap, subst,
}
use procure_foundation.Result.{Result, ok, ◌>>=◌, >>=-eq-ok, ok-injective}
use procure_foundation.Consolidation.Model.{
  ConsolidationStatus, flagged, under_review, consolidation_recommended, rejected, other,
  ConsolidationReviewAction, mark_under_review, recommend_consolidation, reject,
  SupplierConsolidationFlag, determine_consolidation_flag_transition, review_consolidation_flag,
}

-- Who reviews, when, how, and with which notes.
pub record Review : Type 0 where
  pub user_id : ℕ
  pub now : ℕ
  pub action : ConsolidationReviewAction
  pub notes : Option String

abbrev pub review : Review → SupplierConsolidationFlag → Result SupplierConsolidationFlag
review r = review_consolidation_flag r.user_id r.now r.action r.notes

abbrev pub reviews : List Review → SupplierConsolidationFlag → Result SupplierConsolidationFlag
reviews [] flag = ok flag
reviews (r ∷ rs) flag = review r flag >>= reviews rs

-- How many reviews may still succeed.
abbrev pub reviews_left : ConsolidationStatus → ℕ
reviews_left flagged = 2
reviews_left under_review = 1
reviews_left consolidation_recommended = 0
reviews_left rejected = 0
reviews_left (other status) = 0

transition-lt :
    (status : ConsolidationStatus) (action : ConsolidationReviewAction) (new : ConsolidationStatus)
    → determine_consolidation_flag_transition status action ≡ ok new
    → reviews_left new < reviews_left status
unfolding determine_consolidation_flag_transition
transition-lt flagged mark_under_review new h = ground arith
transition-lt flagged recommend_consolidation new h = ground arith
transition-lt flagged reject new h = ground arith
transition-lt under_review mark_under_review new h = cc
transition-lt under_review recommend_consolidation new h = ground arith
transition-lt under_review reject new h = ground arith
transition-lt consolidation_recommended action new h = cc
transition-lt rejected action new h = cc
transition-lt (other status) action new h = cc

review-lt :
    (r : Review) (flag done : SupplierConsolidationFlag)
    → review r flag ≡ ok done
    → reviews_left done.status < reviews_left flag.status
unfolding review_consolidation_flag
review-lt r flag done h =
    let (new, e, e1) =
      >>=-eq-ok (determine_consolidation_flag_transition flag.status r.action) _ h in
    subst (λ (f : SupplierConsolidationFlag). reviews_left f.status < reviews_left flag.status)
      (ok-injective e1) (transition-lt flag.status r.action new e)

-- Of any reviews of a flag that all succeed there are at most as many as its status leaves: two
-- from flagged, one from under review, and none from a decision or from an unknown status; the
-- status that they lead to leaves that many fewer.
pub reviews_bound :
    (rs : List Review) (flag : SupplierConsolidationFlag) {done : SupplierConsolidationFlag}
    → reviews rs flag ≡ ok done
    → length rs + reviews_left done.status ≤ reviews_left flag.status
reviews_bound [] flag h =
    let e = ap (λ (f : SupplierConsolidationFlag). reviews_left f.status) (ok-injective h) in
    omega (arith, e)
reviews_bound (r ∷ rs) flag h =
    let (next, e, rest) = >>=-eq-ok (review r flag) (reviews rs) h in
    omega (arith, review-lt r flag next e, reviews_bound rs next rest)
