-- ===== src/Feedback/Shadow.antt =====
-- src/mlcache/feedback/shadow_collector.py: the configuration and the state of
-- `DefaultShadowTopKCollector`, and the choice of the pairs. The builder of features, the judge and
-- the stores are arguments. Metadata of examples is left out.
pub mod Collect
pub mod Conserved
pub mod Accounts
pub mod Rounds
pub mod Sent
pub mod Balanced
pub mod Monitored
use mlcache.Prelude.{
  ℕ, zero, suc, ◌+◌, ◌-◌, ◌*◌, ◌%◌, ◌≤◌, ◌<◌, min, max, String, ◌≡◌, refl, sym, ap, ◌∙◌, subst, ◌≢◌,
  ◌↔◌, ◌⊎◌, inl, inr, ite, if_pos, if_neg, Bool, true, false, not, ◌&&◌, ◌||◌, Option, none, some,
  List, [], ◌∷◌, ◌++◌, map, arith, ltb, leb, ◌==◌, if◌then◌else◌, ltb→lt, leb→le, Bool-cases,
  Option-cases, is_some, if_true, if_false, str_dec, length, get_elem?, set, take, drop, count_if,
  All, get_elem?-some, get_elem?-All, length-append, length-drop, length-map, count_if-le,
  All-append, All-map, Error, Result, ok, raise, value_error, key_error, index_error, runtime_error,
}
use mlcache.Prelude.{text_eq}
use mlcache.Dict.{Dict}
use mlcache.Float.{FloatOps}
use mlcache.Types.{CacheKey, CacheLookup, OracleDecision}
use mlcache.Oracle.{VectorSearchResult}
use mlcache.Oracle.Feedback.{JudgeLabel}

pub record ShadowCollectionConfig (F : Type 0) : Type 0 where
  pub enabled : Bool
  pub top_k : ℕ
  pub max_pairs_per_request : Option ℕ
  pub calibration_every_n : ℕ
  pub calibration_fraction : Option F
  pub collect_uncertain : Bool
  pub include_served_candidate : Bool
  pub include_unserved_candidates : Bool
  pub skip_self_pairs : Bool
  pub skip_duplicate_candidates : Bool
  pub raise_on_failure : Bool

-- The counters of one request, and those of the collector.
pub record Counts : Type 0 where
  pub pairs_observed : ℕ
  pub judge_calls : ℕ
  pub h0_added : ℕ
  pub h1_added : ℕ
  pub uncertain : ℕ
  pub skipped : ℕ
  pub failures : ℕ

-- How many pairs of a label were split, and how many of them went to calibration.
pub record Splits : Type 0 where
  pub h0_split_count : ℕ
  pub h1_split_count : ℕ
  pub h0_calib_count : ℕ
  pub h1_calib_count : ℕ

pub record PairFeatures (F : Type 0) : Type 0 where
  pub concat : List F
  pub hadamard : List F
  pub abs_diff : List F
  pub cosine : Option F
  -- `values.get("main")`
  pub main : Option (List F)

-- An entry of `prepared`.
pub record Prepared (F : Type 0) : Type 0 where
  pub rank : ℕ
  pub candidate : VectorSearchResult F
  pub features : PairFeatures F

abbrev pub no_counts : Counts
no_counts = record {
  pairs_observed = 0;
  judge_calls = 0;
  h0_added = 0;
  h1_added = 0;
  uncertain = 0;
  skipped = 0;
  failures = 0;
}

-- `_commit_local_counts`
abbrev pub plus : Counts → Counts → Counts
plus a b = record {
  pairs_observed = a.pairs_observed + b.pairs_observed;
  judge_calls = a.judge_calls + b.judge_calls;
  h0_added = a.h0_added + b.h0_added;
  h1_added = a.h1_added + b.h1_added;
  uncertain = a.uncertain + b.uncertain;
  skipped = a.skipped + b.skipped;
  failures = a.failures + b.failures;
}

abbrev pub member : CacheKey → List CacheKey → Bool
member k [] = false
member k (j ∷ js) = text_eq k j || member k js

abbrev pub is_empty : {A : Type 0} → List A → Bool
is_empty [] = true
is_empty (x ∷ xs) = false

abbrev pub label_to_int : JudgeLabel → Option ℕ
label_to_int JudgeLabel.reusable = some 1
label_to_int JudgeLabel.not_reusable = some 0
label_to_int JudgeLabel.uncertain = none

-- The test against `max_pairs_per_request`.
abbrev pub enough_pairs : Option ℕ → ℕ → Bool
enough_pairs none n = false
enough_pairs (some m) n = leb m n

module _ {F : Type 0} where
  abbrev pub features_to_tuple : PairFeatures F → List F
  features_to_tuple f =
      if not (is_empty f.concat)
      then f.concat
      else if not (is_empty f.hadamard)
      then f.hadamard
      else if not (is_empty f.abs_diff)
      then f.abs_diff
      else elim f.cosine [ some c ↦ c ∷ [] | none ↦ elim f.main [ some m ↦ m | none ↦ [] ] ]

  -- `strip` is `str.strip`.
  abbrev pub is_self_pair : (String → String) → CacheLookup F → VectorSearchResult F → Bool
  is_self_pair strip request c = elim c.query [
    | none ↦ false
    | some q ↦ text_eq (strip request.query) (strip q)
  ]

  abbrev pub is_served : OracleDecision F → VectorSearchResult F → Bool
  is_served served c = elim served.cache_key [ none ↦ false | some k ↦ text_eq c.cache_key k ]

  -- The tests after that for duplicates.
  abbrev pub unwanted :
      (String → String)
      → ShadowCollectionConfig F
      → CacheLookup F
      → OracleDecision F
      → VectorSearchResult F
      → Bool
  unwanted strip c request served candidate =
      (c.skip_self_pairs && is_self_pair strip request candidate)
      || ((is_served served candidate && not c.include_served_candidate)
          || (not (is_served served candidate) && not c.include_unserved_candidates))

  -- `_should_skip_candidate`, with the keys seen so far before and after.
  abbrev pub should_skip_candidate :
      (String → String)
      → ShadowCollectionConfig F
      → CacheLookup F
      → OracleDecision F
      → VectorSearchResult F
      → List CacheKey
      → Bool × List CacheKey
  should_skip_candidate strip c request served candidate seen =
      if not c.skip_duplicate_candidates
      then (unwanted strip c request served candidate, seen)
      else if member candidate.cache_key seen
      then (true, seen)
      else (unwanted strip c request served candidate, candidate.cache_key ∷ seen)

  unfoldable pub validate_config : ⦃fl : FloatOps F⦄ → ShadowCollectionConfig F → Result (Unit {0})
  validate_config ⦃fl⦄ c =
      if c.top_k == 0
      then raise value_error
      else if c.calibration_every_n == 0
      then raise value_error
      else elim c.calibration_fraction [
        | none ↦ ok tt
        | some f ↦ if fl.lt (fl.of_ℕ 0) f && fl.lt f (fl.of_ℕ 1) then ok tt else raise value_error
      ]

  -- `_next_split` for one label: the two counters of the label after it, and whether the pair goes
  -- to calibration.
  abbrev pub to_calibration : ⦃fl : FloatOps F⦄ → ShadowCollectionConfig F → ℕ → ℕ → Bool
  to_calibration ⦃fl⦄ c seen calib = elim c.calibration_fraction [
    | none ↦ seen % c.calibration_every_n == 0
    | some f ↦ fl.lt (fl.of_ℕ calib) (fl.mul f (fl.of_ℕ seen))
  ]

  unfoldable pub next_split :
      ⦃fl : FloatOps F⦄ → ShadowCollectionConfig F → JudgeLabel → Splits → Bool × Splits
  next_split c JudgeLabel.reusable s =
      let b = to_calibration c (s.h1_split_count + 1) s.h1_calib_count in
      (
        b,
        record s {
          h1_split_count = s.h1_split_count + 1;
          h1_calib_count = (if b then s.h1_calib_count + 1 else s.h1_calib_count);
        },
      )
  next_split c _ s =
      let b = to_calibration c (s.h0_split_count + 1) s.h0_calib_count in
      (
        b,
        record s {
          h0_split_count = s.h0_split_count + 1;
          h0_calib_count = (if b then s.h0_calib_count + 1 else s.h0_calib_count);
        },
      )
