-- ===== src/Consolidation/Model.antt =====
-- The flags of backend/app/db/models/opportunity_flags.py, and the state machine of
-- backend/app/analytics/domain_graph.py.
use Prim.Native.String.{String}
use procure_foundation.Prelude.{ℕ, Option, some}
use procure_foundation.Result.{Result, ok, err, invalid_consolidation_transition, ◌>>=◌}
use procure_foundation.Decimal.{Decimal}
use procure_foundation.Matching.Text.{Text}
use procure_foundation.Matching.Scorer.{MatchMethod}

-- The vocabulary of `SupplierConsolidationFlag.status`; the column itself holds any string.
pub data ConsolidationStatus : Type 0 where
  flagged under_review consolidation_recommended rejected : ConsolidationStatus
  other : String → ConsolidationStatus

pub data ConsolidationReviewAction : Type 0 where
  mark_under_review recommend_consolidation reject : ConsolidationReviewAction

pub record SupplierConsolidationFlag : Type 0 where
  pub id : ℕ
  pub public_id : String
  pub supplier_a_id : ℕ
  pub supplier_b_id : ℕ
  pub description_a : Text
  pub description_b : Text
  pub similarity_score : ℕ
  pub combined_spend : Option Decimal
  pub match_method : MatchMethod
  pub status : ConsolidationStatus
  pub review_notes : Option String
  pub reviewed_by_user_id : Option ℕ
  pub reviewed_at : Option ℕ

-- `_ACTION_TARGET_STATUS`
abbrev pub action_target_status : ConsolidationReviewAction → ConsolidationStatus
action_target_status mark_under_review = under_review
action_target_status recommend_consolidation = consolidation_recommended
action_target_status reject = rejected

-- `_ALLOWED_TRANSITIONS`, and an error for a status that it does not have.
unfoldable pub determine_consolidation_flag_transition :
    ConsolidationStatus → ConsolidationReviewAction → Result ConsolidationStatus
determine_consolidation_flag_transition flagged action = ok (action_target_status action)
determine_consolidation_flag_transition under_review mark_under_review =
    err invalid_consolidation_transition
determine_consolidation_flag_transition under_review recommend_consolidation =
    ok consolidation_recommended
determine_consolidation_flag_transition under_review reject = ok rejected
determine_consolidation_flag_transition consolidation_recommended action =
    err invalid_consolidation_transition
determine_consolidation_flag_transition rejected action = err invalid_consolidation_transition
determine_consolidation_flag_transition (other status) action = err invalid_consolidation_transition

unfoldable pub review_consolidation_flag :
    ℕ
    → ℕ
    → ConsolidationReviewAction
    → Option String
    → SupplierConsolidationFlag
    → Result SupplierConsolidationFlag
unfolding determine_consolidation_flag_transition
review_consolidation_flag user_id now action notes flag = do
  new_status ← determine_consolidation_flag_transition flag.status action
  ok (record flag {
    status = new_status;
    review_notes = notes;
    reviewed_by_user_id = some user_id;
    reviewed_at = some now;
  })
