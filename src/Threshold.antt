-- ===== src/Threshold.antt =====
-- The Neyman-Pearson threshold: `threshold_from_selected_h0_scores` of
-- src/mlcache/calibration/query_level.py, and the acceptance test that serving uses.
pub mod Sorting
pub mod Budget
pub mod Maximal
pub mod Store
pub mod Latest
use mlcache.Prelude.{
  ℕ, zero, suc, min, Bool, Option, none, some, List, [], ◌∷◌, leb, if◌then◌else◌, length, get_elem?,
  count_if,
}
use mlcache.Float.{FloatOps}
use mlcache.Types.{TieMode}

module _ {F : Type 0} ⦃fl : FloatOps F⦄ where
  -- `_predict_score`: the score is above the threshold, or meets it under GE.
  abbrev pub predict_score : TieMode → F → F → Bool
  predict_score TieMode.gt score threshold = fl.lt threshold score
  predict_score TieMode.ge score threshold = fl.le threshold score

  -- `sorted(..., reverse=True)`.
  abbrev pub insert_desc : F → List F → List F
  insert_desc x [] = x ∷ []
  insert_desc x (y ∷ ys) = let rest = insert_desc x ys in if fl.le y x then x ∷ y ∷ ys else y ∷ rest

  unfoldable pub sort_desc : List F → List F
  sort_desc [] = []
  sort_desc (x ∷ xs) = insert_desc x (sort_desc xs)

  -- `sum(1 for value in values if value >= boundary)`
  abbrev pub at_least : F → List F → ℕ
  at_least boundary = count_if (λ v. fl.le boundary v)

  -- The threshold at the boundary score of the last accept that the budget allows: ties at the
  -- boundary are accepted only if all of them fit.
  unfoldable pub at_boundary : TieMode → ℕ → F → List F → F
  at_boundary TieMode.ge allowed boundary values =
      if leb (at_least boundary values) allowed then boundary else fl.next_up boundary
  at_boundary TieMode.gt allowed boundary values =
      if leb (at_least boundary values) allowed then fl.next_down boundary else boundary

  unfoldable pub no_accepts : TieMode → F → F
  no_accepts TieMode.ge first = fl.next_up first
  no_accepts TieMode.gt first = first

  -- The threshold from the descending scores `first ∷ rest`, with `allowed` accepts. The index
  -- `allowed - 1` is in range, since `allowed` is at most the number of scores.
  unfoldable pub threshold_at : TieMode → ℕ → F → List F → F
  threshold_at tie_mode zero first rest = no_accepts tie_mode first
  threshold_at tie_mode (suc k) first rest = elim (get_elem? (first ∷ rest) k) [
    | none ↦ first
    | some boundary ↦ at_boundary tie_mode (suc k) boundary (first ∷ rest)
  ]

  -- `max(0, min(floor(target * n), n))`
  abbrev pub allowed_accepts : F → ℕ → ℕ
  allowed_accepts target n = min (fl.floor (fl.mul target (fl.of_ℕ n))) n

  threshold_of_sorted : TieMode → F → List F → Option F
  threshold_of_sorted tie_mode target [] = none
  threshold_of_sorted tie_mode target (first ∷ rest) =
      some (threshold_at tie_mode (allowed_accepts target (length (first ∷ rest))) first rest)

  unfoldable pub threshold_from_selected_h0_scores : List F → F → TieMode → Option F
  unfolding threshold_of_sorted sort_desc
  threshold_from_selected_h0_scores scores target tie_mode =
      threshold_of_sorted tie_mode target (sort_desc scores)

  -- `_accept_count`
  abbrev pub accept_count : List F → F → TieMode → ℕ
  accept_count scores threshold tie_mode = count_if (λ s. predict_score tie_mode s threshold) scores
