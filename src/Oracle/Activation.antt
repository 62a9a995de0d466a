-- ===== src/Oracle/Activation.antt =====
-- src/mlcache/oracle/trainable.py: the gate that a new threshold has to pass, with its diagnostics.
use mlcache.Prelude.{
  ℕ, zero, suc, ◌+◌, String, Bool, not, ◌&&◌, Option, none, some, List, [], ◌∷◌, ltb, if◌then◌else◌,
  is_some, str_dec, count_if, Result, ok,
}
use mlcache.Prelude.{◌>>=◌}
use mlcache.Dict.{Dict, assign}
use mlcache.Float.{FloatOps}
use mlcache.Types.{TieMode, Value, integer, number, boolean, text, null}
use mlcache.Threshold.{predict_score}
use mlcache.Wilson.{wilson_upper_bound}
use mlcache.Refit.{ConservativeRefitConfig}
use mlcache.Refit.Policy.{merge, number_or_null}
use mlcache.Oracle.{Models, Rows}

pub record ActivationGateResult (F : Type 0) : Type 0 where
  pub passed : Bool
  pub reason : Option String
  pub metadata : Dict String (Value F)

-- The parts of a split that a fit reads.
pub record TrainCalibEvalSplit (F : Type 0) : Type 0 where
  pub h0_train : Rows F
  pub h1_train : Rows F
  pub h0_calib : Rows F
  pub h1_calib : Rows F
  pub h0_eval : Rows F
  pub h1_eval : Rows F
  pub metadata : Dict String (Value F)

pub record GateCounts : Type 0 where
  pub n_h0_train : ℕ
  pub n_h1_train : ℕ
  pub n_h0_calib : ℕ
  pub n_h1_calib : ℕ
  pub require_train_gates : Bool
  pub require_calibration_h1 : Bool

module _ {F : Type 0} ⦃fl : FloatOps F⦄ where
  -- The tests on the numbers of rows.
  abbrev pub count_reason : ConservativeRefitConfig F → GateCounts → Option String
  count_reason c n =
      if n.require_train_gates && ltb (n.n_h0_train + n.n_h1_train) c.min_train_total
      then some "min_train_total_not_met"
      else if n.require_train_gates && ltb n.n_h0_train c.min_train_h0
      then some "min_train_h0_not_met"
      else if n.require_train_gates && ltb n.n_h1_train c.min_train_h1
      then some "min_train_h1_not_met"
      else if ltb n.n_h0_calib c.min_calibration_h0
      then some "min_calibration_h0_not_met"
      else if n.require_calibration_h1 && ltb n.n_h1_calib c.min_calibration_h1
      then some "min_calibration_h1_not_met"
      else none

  -- The test on the Wilson bound of the false accepts.
  abbrev pub wilson_reason : Option F → F → Option String
  wilson_reason none bound = some "wilson_upper_fpr_unavailable"
  wilson_reason (some upper) bound =
      if fl.lt bound upper then some "wilson_upper_fpr_exceeds_bound" else none

  abbrev pub threshold_reason :
      ConservativeRefitConfig F → F → Option F → F → Option String → Option String
  threshold_reason c threshold upper bound (some reason) = some reason
  threshold_reason c threshold upper bound none =
      if c.require_finite_threshold && not (fl.is_finite threshold)
      then some "threshold_not_finite"
      else wilson_reason upper bound

  abbrev pub text_or_null : Option String → Value F
  text_or_null none = null
  text_or_null (some s) = text s

  abbrev pub empirical_fpr : ℕ → ℕ → Value F
  empirical_fpr accepts zero = null
  empirical_fpr accepts (suc n) = number (fl.div (fl.of_ℕ accepts) (fl.of_ℕ (suc n)))

  -- The end of the gate, with the Wilson bound computed.
  unfoldable pub gate_result :
      ConservativeRefitConfig F → F → F → ℕ → GateCounts → Option F → ActivationGateResult F
  gate_result c threshold bound accepts n upper =
      let reason = threshold_reason c threshold upper bound (count_reason c n) in
      record {
        passed = not (is_some reason);
        reason = reason;
        metadata =
            ("train_total", integer (n.n_h0_train + n.n_h1_train))
            ∷ ("n_h0_train", integer n.n_h0_train)
            ∷ ("n_h1_train", integer n.n_h1_train)
            ∷ ("n_h0_calib", integer n.n_h0_calib)
            ∷ ("n_h1_calib", integer n.n_h1_calib)
            ∷ ("calibration_h0_accepts", integer accepts)
            ∷ ("empirical_calibration_fpr", empirical_fpr accepts n.n_h0_calib)
            ∷ ("wilson_upper_fpr", number_or_null upper)
            ∷ ("allowed_fpr_bound", number bound)
            ∷ ("threshold_is_finite", boolean (fl.is_finite threshold))
            ∷ ("activation_gate_passed", boolean (not (is_some reason)))
            ∷ ("activation_gate_reason", text_or_null reason)
            ∷ [];
      }

  -- `_activation_gate_from_counts`
  unfoldable pub activation_gate_from_counts :
      ConservativeRefitConfig F
      → F
      → TieMode
      → F
      → List F
      → GateCounts
      → Result (ActivationGateResult F)
  activation_gate_from_counts c target tie threshold scores n =
      let accepts = count_if (λ s. predict_score tie s threshold) scores in
      wilson_upper_bound accepts n.n_h0_calib c.wilson_confidence_z >>= λ upper.
      ok (gate_result c threshold (fl.add target c.fpr_wilson_margin) accepts n upper)

  abbrev pub gate_metadata :
      Dict String (Value F) → ActivationGateResult F → F → Option F → Dict String (Value F)
  gate_metadata base gate candidate active =
      assign str_dec "active_threshold" (number_or_null active) (
        assign str_dec "activation_gate_reason" (text_or_null gate.reason) (
          assign str_dec "activation_gate_passed" (boolean gate.passed)
            (assign str_dec "candidate_threshold" (number candidate) (merge base gate.metadata))))

module _ {F : Type 0} {X : Type 0} {Sc : Type 0} ⦃fl : FloatOps F⦄ (m : Models F X Sc) where
  -- `[scorer.score(row_features(row)) for row in rows]`
  unfoldable pub score_rows : Sc → Rows F → Result (List F)
  score_rows sc [] = ok []
  score_rows sc (r ∷ rs) =
      m.score sc (m.row_features r) >>= λ s. score_rows sc rs >>= λ ss. ok (s ∷ ss)
