-- ===== src/QueryLevel.antt =====
-- src/mlcache/calibration/query_level.py: the records of labeled candidates of a query, and the
-- selection of one of them. What only observers read of the records is left out.
pub mod Policy
pub mod Store
pub mod Selection
pub mod Gate
pub mod Accounting
pub mod Bounded
use mlcache.Prelude.{
  ℕ, zero, suc, ◌+◌, ◌-◌, ◌*◌, ◌%◌, ◌≤◌, ◌<◌, min, max, String, ◌≡◌, refl, sym, ap, ◌∙◌, subst, ◌≢◌,
  ◌↔◌, ◌⊎◌, inl, inr, ite, if_pos, if_neg, Bool, true, false, not, ◌&&◌, ◌||◌, Option, none, some,
  List, [], ◌∷◌, ◌++◌, map, arith, ltb, leb, ◌==◌, if◌then◌else◌, ltb→lt, leb→le, Bool-cases,
  Option-cases, is_some, if_true, if_false, str_dec, length, get_elem?, set, take, drop, count_if,
  All, get_elem?-some, get_elem?-All, length-append, length-drop, length-map, count_if-le,
  All-append, All-map, Error, Result, ok, raise, value_error, key_error, index_error, runtime_error,
}
pub mod Calibrate
use mlcache.Dict.{Dict}
use mlcache.Float.{FloatOps}
use mlcache.Types.{CacheKey, OracleDecisionStatus, TieMode, Value}

pub record QueryLevelCalibrationConfig (F : Type 0) : Type 0 where
  pub target_false_accept_rate : F
  pub tie_mode : TieMode
  pub wilson_confidence_z : F
  pub fpr_wilson_margin : F
  pub min_selected_h0 : ℕ
  pub require_finite_threshold : Bool

pub record QueryCalibrationCandidate (F : Type 0) : Type 0 where
  pub score : F
  -- 0 for a false hit, 1 for a true one.
  pub label : Option ℕ
  pub candidate_rank : Option ℕ
  pub candidate_key : Option CacheKey

pub record QueryCalibrationRecord (F : Type 0) : Type 0 where
  pub query_id : String
  pub candidates : List (QueryCalibrationCandidate F)
  pub query : Option String

pub record QueryCalibrationDecision (F : Type 0) : Type 0 where
  pub query_id : String
  pub status : OracleDecisionStatus
  pub selected_candidate : Option (QueryCalibrationCandidate F)

pub record QueryCalibrationDataset (F : Type 0) : Type 0 where
  pub decisions : List (QueryCalibrationDecision F)
  pub h0_scores : List F
  pub all_pair_h0_scores : List F
  pub total_queries : ℕ
  pub skipped_queries : ℕ
  pub abstained_queries : ℕ

-- A `CandidateSelectionFn`, which may raise.
abbrev pub Selection : Type 0 → Type 0
Selection F = List (QueryCalibrationCandidate F) → Result (Option (QueryCalibrationCandidate F))

-- `_is_h0`
abbrev pub is_h0 : Option ℕ → Bool
is_h0 none = false
is_h0 (some l) = l == 0

module _ {F : Type 0} where
  -- The rank in the key of `select_max_score`; one that is missing comes after all others.
  abbrev pub rank_or_last : ℕ → QueryCalibrationCandidate F → ℕ
  rank_or_last n c = elim c.candidate_rank [ none ↦ n + 1 | some r ↦ r ]

module _ {F : Type 0} ⦃fl : FloatOps F⦄ where
  -- The tests of the configuration.
  unfoldable pub validate_config : QueryLevelCalibrationConfig F → Result (Unit {0})
  validate_config c =
      if not (
        fl.lt (fl.of_ℕ 0) c.target_false_accept_rate
        && fl.lt c.target_false_accept_rate (fl.of_ℕ 1))
      then raise value_error
      else if c.min_selected_h0 == 0
      then raise value_error
      else if fl.le c.wilson_confidence_z (fl.of_ℕ 0)
      then raise value_error
      else if fl.lt c.fpr_wilson_margin (fl.of_ℕ 0)
      then raise value_error
      else ok tt

  -- Python's `==` on floats.
  abbrev pub feq : F → F → Bool
  feq a b = fl.le a b && fl.le b a

  -- `key(d) > key(c)` for the keys `(score, -rank)` among `n` candidates.
  abbrev pub key_greater : ℕ → QueryCalibrationCandidate F → QueryCalibrationCandidate F → Bool
  key_greater n d c =
      if feq d.score c.score
      then ltb (rank_or_last n d) (rank_or_last n c)
      else fl.lt c.score d.score

  -- Python's `max` with a key: the first of the greatest.
  unfoldable pub max_from :
      ℕ
      → QueryCalibrationCandidate F
      → List (QueryCalibrationCandidate F)
      → QueryCalibrationCandidate F
  max_from n c [] = c
  max_from n c (d ∷ ds) = max_from n (if key_greater n d c then d else c) ds

  unfoldable pub select_max_score :
      List (QueryCalibrationCandidate F) → Option (QueryCalibrationCandidate F)
  select_max_score [] = none
  select_max_score (c ∷ cs) = some (max_from (length (c ∷ cs)) c cs)
