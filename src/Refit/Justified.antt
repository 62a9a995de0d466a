-- ===== src/Refit/Justified.antt =====
-- src/mlcache/policies/refit.py: what stands behind the decisions of the conservative policy.
use mlcache.Prelude.{◌≡◌, subst, ◌⊎◌, true, false, arith, is_some, ok}
use mlcache.Float.{FloatOps}
use mlcache.Refit.{
  RefitAction, noop, recalibrate_threshold, refit_scorer, RefitPolicyContext, RefitPolicyDecision,
  ConservativeRefitConfig, has_enough_fit_data, has_enough_calibration_data, requires_full_refit,
  calibration_cooldown_elapsed, refit_cooldown_elapsed,
}
use mlcache.Refit.Policy.{by_signal, choose, decide}

module _ {F : Type 0} ⦃fl : FloatOps F⦄ where
  -- What a context has to show for a new threshold, and for a new fit.
  pub MayRecalibrate : ConservativeRefitConfig F → RefitPolicyContext F → Type 0
  MayRecalibrate c x =
      (x.fit_in_progress ≡ false)
      × (is_some x.current_threshold ≡ true)
      × (requires_full_refit x ≡ false)
      × (has_enough_calibration_data c x ≡ true)
      × (calibration_cooldown_elapsed c x ≡ true)

  pub MayRefit : ConservativeRefitConfig F → RefitPolicyContext F → Type 0
  MayRefit c x =
      (x.fit_in_progress ≡ false)
      × (has_enough_fit_data c x ≡ true)
      × (refit_cooldown_elapsed c x ≡ true)

  pub Justified : ConservativeRefitConfig F → RefitPolicyContext F → RefitAction → Type 0
  Justified c x a =
      (a ≡ noop)
      ⊎ (((a ≡ recalibrate_threshold) × MayRecalibrate c x) ⊎ ((a ≡ refit_scorer) × MayRefit c x))

  -- The signals ask for a refit or a recalibration with its data and its cooldown only.
  by_signal_cases :
      (c : ConservativeRefitConfig F)
      → (x : RefitPolicyContext F)
      → ((by_signal c x).0 ≡ noop)
        ⊎ ((((by_signal c x).0 ≡ recalibrate_threshold)
              × (has_enough_calibration_data c x ≡ true)
              × (calibration_cooldown_elapsed c x ≡ true))
            ⊎ (((by_signal c x).0 ≡ refit_scorer)
                × (has_enough_fit_data c x ≡ true)
                × (refit_cooldown_elapsed c x ≡ true)))
  unfolding by_signal
  by_signal_cases c x = ground arith

  choose-Justified :
      (c : ConservativeRefitConfig F) (x : RefitPolicyContext F) → Justified c x (choose c x).0
  unfolding choose Justified MayRecalibrate MayRefit
  choose-Justified c x = ground (arith, by_signal_cases c x)

  -- A decision of the policy is to do nothing, to recalibrate or to refit, and for the last two
  -- the context has what the action needs: no fit is running; for a new threshold there is one
  -- already, no scorer, embedding or traffic change asks for a refit, and the calibration data and
  -- cooldown suffice; for a new fit the training data and the refit cooldown suffice. So the
  -- policy never disables the semantic hits.
  pub decide-Justified :
      (c : ConservativeRefitConfig F)
      → (x : RefitPolicyContext F) → (d : RefitPolicyDecision F) → decide c x ≡ ok d
      → Justified c x d.action
  unfolding decide
  decide-Justified c x d h =
      let q : (choose c x).0 ≡ d.action = ground arith in
      subst (Justified c x) q (choose-Justified c x)
