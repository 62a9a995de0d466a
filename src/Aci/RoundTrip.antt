-- ===== src/Aci/RoundTrip.antt =====
-- src/mlcache/adaptive/aci_controller.py: a controller that is saved and loaded again.
use mlcache.Prelude.{
  ℕ, ◌-◌, ◌≤◌, ◌≡◌, refl, sym, ap, ◌∙◌, subst, Option, none, some, List, arith, Bool-cases, str_dec,
  length, drop, ok,
}
use mlcache.Float.{FloatOps}
use mlcache.Dict.{get}
use mlcache.Types.{TieMode}
use mlcache.Aci.{Controller, trim}
use mlcache.Aci.Bounds.{IsValid}
use mlcache.Aci.State.{
  state_dict, load_state_dict, as_option, option_value, tie_mode_of, tie_mode_value,
}

trim_all {ℓ} : {A : Type ℓ} (n : ℕ) (xs : List A) → length xs ≤ n → trim n xs ≡ xs
trim_all n xs h = let e : length xs - n ≡ 0 = omega arith in ap (λ k. drop k xs) e

tie_mode_of-value : (t : TieMode) → tie_mode_of (tie_mode_value t) ≡ ok t
unfolding tie_mode_of tie_mode_value
tie_mode_of-value TieMode.ge = refl
tie_mode_of-value TieMode.gt = refl

module _ {F : Type 0} ⦃fl : FloatOps F⦄ where
  as_option-value : (x : Option F) → as_option (option_value x) ≡ ok x
  unfolding as_option option_value
  as_option-value none = refl
  as_option-value (some x) = refl

  trimmed : Controller F → Controller F
  trimmed c = record c {
    buffer = trim c.config.buffer_size c.buffer;
    buffer_origin = trim c.config.buffer_size c.buffer_origin;
    ctrl_outcomes = trim c.config.wilson_window c.ctrl_outcomes;
  }

  load_state_dict-trimmed : (c : Controller F) → load_state_dict (state_dict c) ≡ ok (trimmed c)
  unfolding load_state_dict state_dict trimmed get str_dec Bool-cases
  load_state_dict-trimmed c =
      rw (tie_mode_of-value c.config.tie_mode, as_option-value c.fallback_threshold) refl

  trimmed_lem : (c : Controller F) → IsValid c → trimmed c ≡ c
  unfolding trimmed
  trimmed_lem c v =
      let n = c.config.buffer_size in
      let w = c.config.wilson_window in
      let f : length c.buffer_origin ≤ n = subst (λ k. k ≤ n) (sym v.origins) v.buffer_fits in
      ap
        (λ xs. record c {
          buffer = xs;
          buffer_origin = trim n c.buffer_origin;
          ctrl_outcomes = trim w c.ctrl_outcomes;
        })
        (trim_all n c.buffer v.buffer_fits)
      ∙ ap (λ bs. record c { buffer_origin = bs; ctrl_outcomes = trim w c.ctrl_outcomes })
          (trim_all n c.buffer_origin f)
      ∙ ap (λ ns. record c { ctrl_outcomes = ns }) (trim_all w c.ctrl_outcomes v.outcomes_fit)

  -- A valid controller that is saved by `state_dict` and loaded by `load_state_dict` is the same
  -- controller: its configuration, its windows and all its counters.
  pub load_state_dict-state_dict :
      (c : Controller F) → IsValid c → load_state_dict (state_dict c) ≡ ok c
  load_state_dict-state_dict c v = load_state_dict-trimmed c ∙ ap ok (trimmed_lem c v)
