-- ===== src/Oracle/Activated.antt =====
-- src/mlcache/oracle/trainable.py: what a fit and a recalibration leave in the oracle.
use mlcache.Prelude.{bind_ok, ok_injective}
use mlcache.Prelude.{
  ◌+◌, String, ◌≡◌, refl, sym, ap, ◌∙◌, subst, ◌⊎◌, inl, inr, true, false, Option, none, some, List,
  [], ◌∷◌, Bool-cases, if_true, if_false, ok,
}
use mlcache.Dict.{Dict}
use mlcache.Float.{FloatOps}
use mlcache.Types.{Value}
use mlcache.Oracle.{Models, Rows, TrainableOracle, reset_monitor_counts}
use mlcache.Oracle.Activation.{
  TrainCalibEvalSplit, GateCounts, activation_gate_from_counts, score_rows,
}
use mlcache.Oracle.Certified.{Certified, gate-Certified}
use mlcache.Oracle.Fit.{
  Fitted, Recalibrated, fit_counts, recalibration_counts, install_fit, install_recalibration,
  prepare_fit, fit_in_current_thread, prepare_recalibration, recalibrate_threshold_from_rows,
  accept_fit, refuse_fit, accept_recalibration, refuse_recalibration,
}

module _ {F : Type 0} {X : Type 0} {Sc : Type 0} ⦃fl : FloatOps F⦄ (m : Models F X Sc) where
  -- The threshold is calibrated on this scorer's scores of these rows and certified for them.
  abbrev pub IsCertified : TrainableOracle F Sc → Sc → F → Rows F → (List F → GateCounts) → Type 0
  IsCertified o sc t rows counts =
      (scores : List F) × (score_rows m sc rows ≡ ok scores)
      × (m.calibrate scores o.target_false_accept_rate o.tie_mode sc ≡ ok t)
      × Certified o.config o.target_false_accept_rate o.tie_mode t scores (counts scores)

  -- Serving goes on with what it had.
  abbrev pub Unchanged : TrainableOracle F Sc → TrainableOracle F Sc → Type 0
  Unchanged o p =
      (p.scorer ≡ o.scorer)
      × (p.threshold ≡ o.threshold)
      × (p.threshold_version ≡ o.threshold_version)

  -- The scorer that this fit made, with a certified threshold, serves, and all counters start over.
  abbrev pub Activated :
      TrainCalibEvalSplit F → TrainableOracle F Sc → TrainableOracle F Sc → Type 0
  Activated split o p =
      (t : F) × (p.threshold ≡ some t)
      × (m.fit split.h0_train split.h1_train o.target_false_accept_rate o.scorer ≡ ok p.scorer)
      × IsCertified o p.scorer t split.h0_calib (λ _. fit_counts split)
      × (p.threshold_version ≡ o.threshold_version + 1)
      × (p.semantic_hits_disabled ≡ false)
      × (p.new_h0_since_fit + p.new_h1_since_fit + p.new_h0_since_calibration
            + p.decisions_since_fit + p.decisions_since_calibration + p.monitor_h0_count
            + p.monitor_h1_count + p.monitor_false_accepts + p.monitor_true_accepts
          ≡ 0)

  prepare_fit-Certified :
      (o : TrainableOracle F Sc) (split : TrainCalibEvalSplit F) (f : Fitted F Sc)
      → prepare_fit m o split ≡ ok f
      → f.gate.passed ≡ true
      → (m.fit split.h0_train split.h1_train o.target_false_accept_rate o.scorer ≡ ok f.scorer)
        × IsCertified o f.scorer f.threshold split.h0_calib (λ _. fit_counts split)
  unfolding prepare_fit
  prepare_fit-Certified o split f h p =
      let (sc, made, h1) =
        bind_ok (m.fit split.h0_train split.h1_train o.target_false_accept_rate o.scorer) _ f h in
      let (scores, es, h2) = bind_ok (score_rows m sc split.h0_calib) _ f h1 in
      let (t, et, h3) =
        bind_ok (m.calibrate scores o.target_false_accept_rate o.tie_mode sc) _ f h2 in
      let (g, eg, h4) =
        bind_ok
          (activation_gate_from_counts o.config o.target_false_accept_rate o.tie_mode t scores
            (fit_counts split))
          _ f h3 in
      let q = ok_injective h4 in
      let gp : g.passed ≡ true = ap (λ (x : Fitted F Sc). x.gate.passed) q ∙ p in
      subst
        (λ (x : Fitted F Sc).
          (m.fit split.h0_train split.h1_train o.target_false_accept_rate o.scorer ≡ ok x.scorer)
          × IsCertified o x.scorer x.threshold split.h0_calib (λ _. fit_counts split))
        q
        (
          made,
          (
            scores,
            es,
            et,
            gate-Certified o.config o.target_false_accept_rate o.tie_mode t scores
                (fit_counts split) g eg gp,
          ),
        )

  install_fit_cases :
      (o : TrainableOracle F Sc) (split : TrainCalibEvalSplit F) (f : Fitted F Sc)
      → prepare_fit m o split ≡ ok f
      → Activated split o (install_fit f o) ⊎ Unchanged o (install_fit f o)
  unfolding install_fit reset_monitor_counts
  install_fit_cases o split f h = elim (Bool-cases f.gate.passed) [
    | inl e ↦
        let (made, certified) = prepare_fit-Certified o split f h e in
        inl (
          subst (Activated split o) (sym (if_true (accept_fit f o) (refuse_fit f o) e))
            (f.threshold, refl, made, certified, refl, refl, refl))
    | inr e ↦ inr (
        subst (Unchanged o) (sym (if_false (accept_fit f o) (refuse_fit f o) e)) (refl, refl, refl))
  ]

  -- A fit that returns either puts its new scorer and threshold to use or leaves the scorer, the
  -- threshold and its version as they are. If it puts them to use, the scorer is the one that the
  -- fit made of the old one and the training rows, and the threshold is the one calibrated on that
  -- scorer's scores of the calibration rows. The threshold has passed the gate on these scores:
  -- the split has the rows that the configuration asks for, the threshold is finite if that is
  -- asked for, and the Wilson bound of its false accepts is not above the target with its margin;
  -- the version goes up by one, semantic hits are enabled, and the counters since the fit and the
  -- calibration and those of the monitor are 0.
  pub fit_in_current_thread-Activated :
      (split : TrainCalibEvalSplit F) (o p : TrainableOracle F Sc)
      → fit_in_current_thread m split o ≡ ok p
      → Activated split o p ⊎ Unchanged o p
  unfolding fit_in_current_thread
  fit_in_current_thread-Activated split o p h =
      let (f, e, g) = bind_ok (prepare_fit m o split) _ p h in
      subst (λ x. Activated split o x ⊎ Unchanged o x) (ok_injective g)
        (install_fit_cases o split f e)

  -- The threshold is new and certified for the scorer, which is the one of before.
  abbrev pub NewThreshold : Rows F → TrainableOracle F Sc → F → TrainableOracle F Sc → Type 0
  NewThreshold rows o t p =
      (p.threshold ≡ some t)
      × (p.scorer ≡ o.scorer)
      × IsCertified o o.scorer t rows recalibration_counts
      × (p.threshold_version ≡ o.threshold_version + 1)
      × (p.semantic_hits_disabled ≡ false)
      × (p.new_h0_since_calibration + p.decisions_since_calibration ≡ 0)
      × (p.new_h0_since_fit ≡ o.new_h0_since_fit)
      × (p.new_h1_since_fit ≡ o.new_h1_since_fit)
      × (p.decisions_since_fit ≡ o.decisions_since_fit)

  abbrev pub Recalibration :
      Rows F → TrainableOracle F Sc → Option F × TrainableOracle F Sc → Type 0
  Recalibration rows o (t, p) = elim t [ none ↦ Unchanged o p | some a ↦ NewThreshold rows o a p ]

  prepare_recalibration-Certified :
      (o : TrainableOracle F Sc) (rows : Rows F) (metadata : Dict String (Value F))
      (r : Recalibrated F)
      → prepare_recalibration m o rows metadata ≡ ok r
      → r.gate.passed ≡ true
      → IsCertified o o.scorer r.threshold rows recalibration_counts
  unfolding prepare_recalibration
  prepare_recalibration-Certified o rows metadata r h p =
      let (scores, es, h2) = bind_ok (score_rows m o.scorer rows) _ r h in
      let (t, et, h3) =
        bind_ok (m.calibrate scores o.target_false_accept_rate o.tie_mode o.scorer) _ r h2 in
      let (g, eg, h4) =
        bind_ok
          (activation_gate_from_counts o.config o.target_false_accept_rate o.tie_mode t scores
            (recalibration_counts scores))
          _ r h3 in
      let q = ok_injective h4 in
      let gp : g.passed ≡ true = ap (λ (x : Recalibrated F). x.gate.passed) q ∙ p in
      subst (λ (x : Recalibrated F). IsCertified o o.scorer x.threshold rows recalibration_counts) q
        (
          scores,
          es,
          et,
          gate-Certified o.config o.target_false_accept_rate o.tie_mode t scores
              (recalibration_counts scores) g eg gp,
        )

  install_recalibration_lem :
      (o : TrainableOracle F Sc) (rows : Rows F) (metadata : Dict String (Value F))
      (r : Recalibrated F)
      → prepare_recalibration m o rows metadata ≡ ok r
      → Recalibration rows o (install_recalibration r o)
  unfolding install_recalibration reset_monitor_counts
  install_recalibration_lem o rows metadata r h = elim (Bool-cases r.gate.passed) [
    | inl e ↦
        subst (Recalibration rows o)
          (sym (
            if_true (some r.threshold, accept_recalibration r o) (none, refuse_recalibration r o)
              e))
          (
            refl,
            refl,
            prepare_recalibration-Certified o rows metadata r h e,
            refl,
            refl,
            refl,
            refl,
            refl,
            refl,
          )
    | inr e ↦
        subst (Recalibration rows o)
          (sym (
            if_false (some r.threshold, accept_recalibration r o) (none, refuse_recalibration r o)
              e))
          (refl, refl, refl)
  ]

  -- A recalibration that returns a threshold has put it to use, and one that returns none leaves
  -- the scorer, the threshold and its version as they are. In the first case the scorer is the old
  -- one, and the threshold is the one calibrated on that scorer's scores of the rows and has
  -- passed the gate on these scores: the rows are enough, the threshold is finite if that is asked
  -- for, and the Wilson bound of its false accepts is not above the target with its margin; the
  -- version goes up by one, semantic hits are enabled, the counters since the calibration are 0
  -- and those since the fit are kept.
  pub recalibrate-Certified :
      (rows : Rows F) (metadata : Dict String (Value F)) (o : TrainableOracle F Sc)
      (out : Option F × TrainableOracle F Sc)
      → recalibrate_threshold_from_rows m rows metadata o ≡ ok out
      → Recalibration rows o out
  unfolding recalibrate_threshold_from_rows
  recalibrate-Certified [] metadata o out h =
      subst (Recalibration [] o) (ok_injective h) (refl, refl, refl)
  recalibrate-Certified (row ∷ rows) metadata o out h =
      let (r, e, g) = bind_ok (prepare_recalibration m o (row ∷ rows) metadata) _ out h in
      subst (Recalibration (row ∷ rows) o) (ok_injective g)
        (install_recalibration_lem o (row ∷ rows) metadata r e)
