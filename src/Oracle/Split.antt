-- ===== src/Oracle/Split.antt =====
-- src/mlcache/oracle/trainable.py: how the rows of the training store become a split.
use mlcache.Prelude.{
  ℕ, ◌+◌, ◌-◌, max, String, Bool, true, false, ◌||◌, Option, none, some, List, [], ◌∷◌, ltb,
  if◌then◌else◌, str_dec, length, take, drop,
}
use mlcache.Dict.{Dict, assign}
use mlcache.Float.{FloatOps}
use mlcache.Types.{Value, integer, text}
use mlcache.Oracle.{Rows}
use mlcache.Oracle.Activation.{TrainCalibEvalSplit}

-- `_RefitRows`
pub record RefitRows (F : Type 0) : Type 0 where
  pub h0_rows : Rows F
  pub h1_rows : Rows F
  pub h0_train : Rows F
  pub h1_train : Rows F
  pub h0_calibration : Rows F
  pub h1_calibration : Rows F
  pub explicit_split : Bool

abbrev pub is_empty : {A : Type 0} → List A → Bool
is_empty [] = true
is_empty (x ∷ xs) = false

module _ {F : Type 0} (fl : FloatOps F) where
  -- `max(1, int(n * 0.7))` and `max(1, int(n * 0.2))`
  unfoldable pub train_count : ℕ → ℕ
  train_count n = max 1 (fl.floor (fl.mul (fl.of_ℕ n) (fl.decimal 7 1)))

  unfoldable pub calib_count : ℕ → ℕ
  calib_count n = max 1 (fl.floor (fl.mul (fl.of_ℕ n) (fl.decimal 2 1)))

module _ {F : Type 0} where
  -- `rows[:train], rows[train:train + calib], rows[train + calib:]`
  abbrev pub cut : ℕ → ℕ → Rows F → Rows F × Rows F × Rows F
  cut train calib rows = (take train rows, take calib (drop train rows), drop (train + calib) rows)

module _ {F : Type 0} ⦃fl : FloatOps F⦄ where
  -- `_split_rows`; a calibration part is at most all of the rows, so `-` is exact.
  unfoldable pub split_rows : Rows F → Rows F × Rows F × Rows F
  split_rows [] = ([], [], [])
  split_rows (a ∷ []) = (a ∷ [], [], [])
  split_rows (a ∷ b ∷ []) = (a ∷ [], b ∷ [], [])
  split_rows (a ∷ b ∷ c ∷ rows) =
      let n = length rows + 3 in
      let calib = calib_count fl n in
      let train = (if ltb n (train_count fl n + calib) then n - calib else train_count fl n) in
      cut train calib (a ∷ b ∷ c ∷ rows)

  abbrev pub split_metadata : Dict String (Value F) → String → ℕ → ℕ → Dict String (Value F)
  split_metadata metadata source n_h0 n_h1 = assign str_dec "n_h1_total" (integer n_h1) (
      assign str_dec "n_h0_total" (integer n_h0) (
        assign str_dec "split_source" (text source)
          (assign str_dec "source" (text "decide_auto_refit") metadata)))

  -- `_build_refit_split` from the two splits.
  abbrev pub split_of :
      Rows F × Rows F × Rows F
      → Rows F × Rows F × Rows F
      → Dict String (Value F)
      → Option (TrainCalibEvalSplit F)
  split_of (h0_train, h0_calib, h0_eval) (h1_train, h1_calib, h1_eval) metadata =
      if is_empty h0_train || (is_empty h1_train || is_empty h0_calib)
      then none
      else some (record {
        h0_train = h0_train;
        h1_train = h1_train;
        h0_calib = h0_calib;
        h1_calib = h1_calib;
        h0_eval = h0_eval;
        h1_eval = h1_eval;
        metadata = metadata;
      })

  unfoldable pub build_refit_split :
      Rows F → Rows F → Dict String (Value F) → Option (TrainCalibEvalSplit F)
  build_refit_split h0_rows h1_rows metadata =
      if is_empty h0_rows || is_empty h1_rows
      then none
      else split_of (split_rows h0_rows) (split_rows h1_rows)
          (split_metadata metadata "legacy_resplit" (length h0_rows) (length h1_rows))

  unfoldable pub build_explicit_refit_split :
      RefitRows F → Dict String (Value F) → Option (TrainCalibEvalSplit F)
  build_explicit_refit_split r metadata =
      split_of (r.h0_train, r.h0_calibration, []) (r.h1_train, r.h1_calibration, [])
        (split_metadata metadata "split_judge_training_store" (length r.h0_rows) (length r.h1_rows))
