-- ===== src/Oracle/Certified.antt =====
-- src/mlcache/oracle/trainable.py: what a threshold has shown when the activation gate lets it by.
use mlcache.Prelude.{bind_ok, ok_injective}
use mlcache.Prelude.{
  ◌+◌, ◌≤◌, String, ◌≡◌, refl, ap, ◌∙◌, subst, true, false, not, Option, none, some, List, arith,
  is_some, count_if, ok,
}
use mlcache.Float.{FloatOps}
use mlcache.Types.{TieMode}
use mlcache.Threshold.{predict_score}
use mlcache.Wilson.{wilson_upper_bound}
use mlcache.Refit.{ConservativeRefitConfig}
use mlcache.Oracle.Activation.{
  ActivationGateResult, GateCounts, activation_gate_from_counts, gate_result, count_reason,
  threshold_reason,
}

passed-reason : (r : Option String) → not (is_some r) ≡ true → r ≡ none
passed-reason none h = refl
passed-reason (some r) h = absurd (ground arith)

module _ {F : Type 0} ⦃fl : FloatOps F⦄ where
  -- The counts that the gate asks for.
  abbrev pub EnoughRows : ConservativeRefitConfig F → GateCounts → Type 0
  EnoughRows c n =
      (c.min_calibration_h0 ≤ n.n_h0_calib)
      × (n.require_calibration_h1 ≡ true → c.min_calibration_h1 ≤ n.n_h1_calib)
      × (n.require_train_gates ≡ true
          → (c.min_train_total ≤ n.n_h0_train + n.n_h1_train)
            × (c.min_train_h0 ≤ n.n_h0_train)
            × (c.min_train_h1 ≤ n.n_h1_train))

  -- The rows are enough, the threshold is finite if the configuration asks for it, and the Wilson
  -- bound of the false accepts of the scores at the threshold is not above the target with margin.
  pub Certified : ConservativeRefitConfig F → F → TieMode → F → List F → GateCounts → Type 0
  Certified c target tie t scores n =
      EnoughRows c n
      × (c.require_finite_threshold ≡ true → fl.is_finite t ≡ true)
      × (u : F) × (wilson_upper_bound (count_if (λ s. predict_score tie s t) scores) n.n_h0_calib
            c.wilson_confidence_z
          ≡ ok (some u))
      × (fl.lt (fl.add target c.fpr_wilson_margin) u ≡ false)

  count_reason-EnoughRows :
      (c : ConservativeRefitConfig F) (n : GateCounts) → count_reason c n ≡ none → EnoughRows c n
  count_reason-EnoughRows c n h = ground arith

  threshold_reason-none :
      (c : ConservativeRefitConfig F) (t bound : F) (upper : Option F) (r : Option String)
      → threshold_reason c t upper bound r ≡ none
      → (r ≡ none)
        × (c.require_finite_threshold ≡ true → fl.is_finite t ≡ true)
        × (u : F) × (upper ≡ some u)
        × (fl.lt bound u ≡ false)
  threshold_reason-none c t bound upper (some r) h = absurd (ground arith)
  threshold_reason-none c t bound none none h = absurd (ground arith)
  threshold_reason-none c t bound (some u) none h = (refl, ground arith, u, refl, ground arith)

  pub gate-Certified :
      (c : ConservativeRefitConfig F) (target : F) (tie : TieMode) (t : F) (scores : List F)
      (n : GateCounts) (g : ActivationGateResult F)
      → activation_gate_from_counts c target tie t scores n ≡ ok g
      → g.passed ≡ true
      → Certified c target tie t scores n
  unfolding activation_gate_from_counts gate_result Certified
  gate-Certified c target tie t scores n g h p =
      let (upper, e, f) =
        bind_ok
          (wilson_upper_bound (count_if (λ s. predict_score tie s t) scores) n.n_h0_calib
            c.wilson_confidence_z)
          _ g h in
      let reason =
        threshold_reason c t upper (fl.add target c.fpr_wilson_margin) (count_reason c n) in
      let q : not (is_some reason) ≡ true = ap (λ o. o.passed) (ok_injective f) ∙ p in
      let (r, fin, u, eu, b) =
        threshold_reason-none c t (fl.add target c.fpr_wilson_margin) upper (count_reason c n)
          (passed-reason reason q) in
      (
        count_reason-EnoughRows c n r,
        fin,
        u,
        subst
            (λ y.
              wilson_upper_bound (count_if (λ s. predict_score tie s t) scores) n.n_h0_calib
                c.wilson_confidence_z
              ≡ ok y)
            eu e,
        b,
      )
