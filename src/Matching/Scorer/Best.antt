-- ===== src/Matching/Scorer/Best.antt =====
-- Which candidate `find_best_match` chooses.
use procure_foundation.Prelude.{
  ℕ, ◌≡◌, ◌≤◌, ◌<◌, refl, ap, ◌⊎◌, inl, inr, Bool-cases, ltb, none, some, List, [], ◌∷◌, ◌++◌, All,
  All-map, All-append, ltb→lt, ltb-false→le, arith,
}
use procure_foundation.Matching.Text.{Text}
use procure_foundation.Matching.Scorer.{
  MatchMethod, unmatched, no_candidate, CandidateItem, MatchResult, no_plausible_match_floor,
  classify_status, score_pair, best_of, find_best_match,
}

module _ (combined_description_score : Text → Text → ℕ) (old_item : CandidateItem) where
  abbrev pub score_of : CandidateItem → ℕ
  score_of item = (score_pair combined_description_score old_item item).0

  abbrev pub entry_of : CandidateItem → ℕ × MatchMethod × Text
  entry_of item = (score_of item, (score_pair combined_description_score old_item item).1, item.key)

  abbrev pub IsBelow : ℕ → CandidateItem → Type 0
  IsBelow s item = score_of item < s

  abbrev pub IsAtMost : ℕ → CandidateItem → Type 0
  IsAtMost s item = score_of item ≤ s

  -- The first of the items with the greatest score.
  pub record IsFirstBest (items : List CandidateItem) (best : CandidateItem) : Type 0 where
    pub before : List CandidateItem
    pub after : List CandidateItem
    pub splits : items ≡ before ++ best ∷ after
    pub before_below : All (IsBelow (score_of best)) before
    pub after_at_most : All (IsAtMost (score_of best)) after

  first-IsFirstBest :
      (x : CandidateItem) (items : List CandidateItem)
      → All (IsAtMost (score_of x)) items
      → IsFirstBest (x ∷ items) x
  first-IsFirstBest x items least = record {
    before = [];
    after = items;
    splits = refl;
    before_below = tt;
    after_at_most = least;
  }

  IsFirstBest-cons :
      (x best : CandidateItem) (items : List CandidateItem)
      → score_of x < score_of best
      → IsFirstBest items best
      → IsFirstBest (x ∷ items) best
  IsFirstBest-cons x best items h b = record {
    before = x ∷ b.before;
    after = b.after;
    splits = ap (◌∷◌ x) b.splits;
    before_below = (h, b.before_below);
    after_at_most = b.after_at_most;
  }

  -- From a best item so far, the loop keeps it or finds a better one.
  best_of_lem :
      (top : CandidateItem) (items : List CandidateItem)
      → ((best_of combined_description_score old_item (some (entry_of top)) items
            ≡ some (entry_of top))
          × All (IsAtMost (score_of top)) items)
        ⊎ ((best : CandidateItem) × (best_of combined_description_score old_item
                (some (entry_of top))
                items
              ≡ some (entry_of best))
            × (score_of top < score_of best)
            × IsFirstBest items best)
  unfolding best_of
  best_of_lem top [] = inl (refl, tt)
  best_of_lem top (x ∷ items) = elim (Bool-cases (ltb (score_of top) (score_of x))) [
    | inl lt ↦ rw lt (elim (best_of_lem x items) [
      | inl (e, least) ↦ inr (x, e, ground arith, first-IsFirstBest x items least)
      | inr (best, e, h, b) ↦ inr (best, e, ground arith, IsFirstBest-cons x best items h b)
    ])
    | inr ge ↦ rw ge (elim (best_of_lem top items) [
      | inl (e, least) ↦ inl (e, (ground arith, least))
      | inr (best, e, h, b) ↦ inr (best, e, h, IsFirstBest-cons x best items (ground arith) b)
    ])
  ]

  first_best :
      (x : CandidateItem) (items : List CandidateItem)
      → (best : CandidateItem) × (best_of combined_description_score old_item none (x ∷ items)
          ≡ some (entry_of best))
        × IsFirstBest (x ∷ items) best
  unfolding best_of
  first_best x items = elim (best_of_lem x items) [
    | inl (e, least) ↦ (x, e, first-IsFirstBest x items least)
    | inr (best, e, h, b) ↦ (best, e, IsFirstBest-cons x best items h b)
  ]

  abbrev pub no_match : MatchResult
  no_match = record {
    old_key = old_item.key;
    new_key = none;
    confidence = 0;
    method = unmatched;
    status = no_candidate;
  }

  abbrev pub match_with : CandidateItem → MatchResult
  match_with best = record {
    old_key = old_item.key;
    new_key = some best.key;
    confidence = score_of best;
    method = (score_pair combined_description_score old_item best).1;
    status = classify_status (score_of best);
  }

  all-IsBelow :
      (items : List CandidateItem) (best : CandidateItem) (n : ℕ)
      → score_of best < n
      → IsFirstBest items best
      → All (IsBelow n) items
  all-IsBelow items best n h b = rw (b.splits) (
      All-append (IsBelow n) b.before _
        (All-map (λ x (k : score_of x < score_of best). omega arith) b.before b.before_below)
        (h, All-map (λ x (k : score_of x ≤ score_of best). omega arith) b.after b.after_at_most))

-- For every way to score descriptions: either each candidate scores below 0.45 and there is no
-- match, with confidence 0; or the match is the first of the candidates with the greatest score,
-- which is at least 0.45, with that score, its method and the status of the score.
pub find_best_match-IsFirstBest :
    (description_score : Text → Text → ℕ) (old_item : CandidateItem) (items : List CandidateItem)
    → let result = find_best_match description_score old_item items in
      (All (IsBelow description_score old_item no_plausible_match_floor) items
        × (result ≡ no_match description_score old_item))
      ⊎ ((best : CandidateItem) × IsFirstBest description_score old_item items best
          × (no_plausible_match_floor ≤ score_of description_score old_item best)
          × (result ≡ match_with description_score old_item best))
unfolding find_best_match
find_best_match-IsFirstBest description_score old_item [] = inl (tt, refl)
find_best_match-IsFirstBest description_score old_item (x ∷ items) =
    let (best, e, b) = first_best description_score old_item x items in
    let s = score_of description_score old_item best in
    elim (Bool-cases (ltb s no_plausible_match_floor)) [
      | inl lt ↦ inl (
        all-IsBelow description_score old_item (x ∷ items) best no_plausible_match_floor
            (ltb→lt _ _ lt) b,
        rw (e, lt) refl,
      )
      | inr ge ↦ inr (best, b, ltb-false→le _ _ ge, rw (e, ge) refl)
    ]
