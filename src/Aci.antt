-- ===== src/Aci.antt =====
-- src/mlcache/adaptive/aci_controller.py: the adaptive conformal inference controller.
pub mod Bounds
pub mod Gate
pub mod State
pub mod RoundTrip
use mlcache.Prelude.{
  ℕ, ◌+◌, ◌-◌, String, Bool, true, false, not, ◌&&◌, Option, none, some, List, [], ◌∷◌, ◌++◌, ltb,
  leb, ◌==◌, if◌then◌else◌, length, drop, count_if, Result, ok, raise, value_error,
}
use mlcache.Prelude.{◌>>=◌}
use mlcache.Float.{FloatOps, fmin, fmax}
use mlcache.Types.{TieMode}
use mlcache.Threshold.{predict_score, threshold_from_selected_h0_scores}
use mlcache.Wilson.{wilson_upper_bound}

-- `deque(maxlen=n)`: an append past the length drops the oldest.
abbrev pub trim {ℓ} : {A : Type ℓ} → ℕ → List A → List A
trim n xs = drop (length xs - n) xs

abbrev pub push {ℓ} : {A : Type ℓ} → ℕ → List A → A → List A
push n xs x = trim n (xs ++ x ∷ [])

-- `b` where the optional argument is not given.
abbrev pub or_else {ℓ} : {A : Type ℓ} → Option A → Option A → Option A
or_else none b = b
or_else (some a) b = some a

-- `sum(...)`
abbrev pub total : List ℕ → ℕ
total [] = 0
total (n ∷ ns) = n + total ns

pub record Config (F : Type 0) : Type 0 where
  pub alpha_target : F
  pub gamma : F
  pub alpha_min : F
  pub alpha_max : F
  pub buffer_size : ℕ
  pub min_buffer_size : ℕ
  pub tie_mode : TieMode
  pub wilson_gate : Bool
  pub wilson_z : F
  pub wilson_window : ℕ

pub record Controller (F : Type 0) : Type 0 where
  pub config : Config F
  pub fallback_threshold : Option F
  pub alpha_t : F
  pub buffer : List F
  pub buffer_origin : List Bool
  -- 1 for a false hit.
  pub ctrl_outcomes : List ℕ
  pub update_count : ℕ
  pub h0_seen : ℕ
  pub blocked_loosen_count : ℕ

module _ {F : Type 0} ⦃fl : FloatOps F⦄ where
  abbrev pub in_unit : F → Bool
  in_unit x = fl.lt (fl.of_ℕ 0) x && fl.lt x (fl.of_ℕ 1)

  -- The tests of the constructor, in its order.
  abbrev pub config_ok : Config F → Bool
  config_ok c =
      in_unit c.alpha_target
      && (not (fl.le c.gamma (fl.of_ℕ 0))
          && ((fl.lt (fl.of_ℕ 0) c.alpha_min
                && (fl.le c.alpha_min c.alpha_max && fl.lt c.alpha_max (fl.of_ℕ 1)))
              && ((fl.le c.alpha_min c.alpha_target && fl.le c.alpha_target c.alpha_max)
                  && (ltb 0 c.buffer_size
                      && (ltb 0 c.min_buffer_size
                          && (not (fl.le c.wilson_z (fl.of_ℕ 0)) && ltb 0 c.wilson_window))))))

  unfoldable pub init : Config F → Option F → Result (Controller F)
  init c fallback =
      if config_ok c
      then ok (record {
        config = c;
        fallback_threshold = fallback;
        alpha_t = c.alpha_target;
        buffer = [];
        buffer_origin = [];
        ctrl_outcomes = [];
        update_count = 0;
        h0_seen = 0;
        blocked_loosen_count = 0;
      })
      else raise value_error

  -- The loop of `seed`.
  unfoldable pub seed_scores : Controller F → List F → Controller F
  seed_scores c [] = c
  seed_scores c (v ∷ vs) =
      seed_scores
        (record c {
          buffer = push c.config.buffer_size c.buffer v;
          buffer_origin = push c.config.buffer_size c.buffer_origin false;
        })
        vs

  unfoldable pub seed : Controller F → List F → Option F → Controller F
  seed c h0_scores fallback =
      let d = seed_scores c h0_scores in
      record d { fallback_threshold = or_else fallback d.fallback_threshold }

  abbrev pub buffer_ready : Controller F → Bool
  buffer_ready c = leb c.config.min_buffer_size (length c.buffer)

  abbrev pub threshold_source : Controller F → String
  threshold_source c = if buffer_ready c then "adaptive" else "fallback"

  -- `selected_h0_quantile_threshold`
  unfoldable pub selected_h0_quantile_threshold : List F → F → TieMode → Result (Option F)
  selected_h0_quantile_threshold scores alpha tie_mode =
      if in_unit alpha
      then ok (threshold_from_selected_h0_scores scores alpha tie_mode)
      else raise value_error

  abbrev pub fallback_or_inf : Controller F → F
  fallback_or_inf c = elim c.fallback_threshold [ none ↦ fl.inf | some t ↦ t ]

  abbrev pub finite_or_fallback : Controller F → Option F → F
  finite_or_fallback c none = fallback_or_inf c
  finite_or_fallback c (some tau) = if fl.is_finite tau then tau else fallback_or_inf c

  unfoldable pub threshold : Controller F → Result F
  threshold c =
      if buffer_ready c
      then (do
        tau ← selected_h0_quantile_threshold c.buffer c.alpha_t c.config.tie_mode
        ok (finite_or_fallback c tau))
      else ok (fallback_or_inf c)

  unfoldable pub should_accept : Controller F → F → Result Bool
  should_accept c score = do tau ← threshold c; ok (predict_score c.config.tie_mode score tau)

  unfoldable pub wilson_ucb : Controller F → Result (Option F)
  wilson_ucb c =
      if length c.ctrl_outcomes == 0
      then ok none
      else wilson_upper_bound (total c.ctrl_outcomes) (length c.ctrl_outcomes) c.config.wilson_z

  -- The buffers and counters after one H0 event, before `alpha_t` moves.
  abbrev pub observed : Controller F → F → Bool → Controller F
  observed c score accepted = record c {
    h0_seen = c.h0_seen + 1;
    buffer = push c.config.buffer_size c.buffer score;
    buffer_origin = push c.config.buffer_size c.buffer_origin true;
    ctrl_outcomes = push c.config.wilson_window c.ctrl_outcomes (if accepted then 1 else 0);
  }

  -- `alpha_t + gamma * (alpha_target - err)`
  abbrev pub proposal : Controller F → Bool → F
  proposal c accepted =
      fl.add c.alpha_t
        (fl.mul c.config.gamma (fl.sub c.config.alpha_target (fl.of_ℕ (if accepted then 1 else 0))))

  -- The clamped move to `proposed`.
  abbrev pub moved : Controller F → F → Controller F
  moved c proposed = record c {
    alpha_t = fmin c.config.alpha_max (fmax c.config.alpha_min proposed);
    update_count = c.update_count + 1;
  }

  abbrev pub blocked : Controller F → Controller F
  blocked c = moved (record c { blocked_loosen_count = c.blocked_loosen_count + 1 }) c.alpha_t

  -- The gate on an upward move: it passes only under a bound within the target.
  unfoldable pub gated : Controller F → F → Option F → Controller F
  gated c proposed none = blocked c
  gated c proposed (some ucb) =
      if fl.lt c.config.alpha_target ucb then blocked c else moved c proposed

  unfoldable pub update_h0 : Controller F → F → Bool → Result (Controller F)
  update_h0 c score accepted =
      let d = observed c score accepted in
      let proposed = proposal c accepted in
      if d.config.wilson_gate && fl.lt d.alpha_t proposed
      then (do ucb ← wilson_ucb d; ok (gated d proposed ucb))
      else ok (moved d proposed)

  unfoldable pub update : Controller F → F → Option ℕ → Bool → Result (Controller F)
  update c score none accepted = ok c
  update c score (some label) accepted =
      if label == 1
      then ok c
      else if label == 0
      then update_h0 c score accepted
      else raise value_error

  -- The number of `True` flags, and `post_seed_buffer_fraction`.
  abbrev pub post_seed_buffer_fraction : Controller F → Option F
  post_seed_buffer_fraction c =
      if length c.buffer_origin == 0
      then none
      else some (
          fl.div (fl.of_ℕ (count_if (λ flag. flag) c.buffer_origin))
            (fl.of_ℕ (length c.buffer_origin)))
