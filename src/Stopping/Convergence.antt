-- ===== src/Stopping/Convergence.antt =====
-- When the stopping controller stops, and that it stays stopped.
use mlcache.Prelude.{
  ◌+◌, ◌≤◌, ◌<◌, ◌≡◌, refl, sym, ap, ◌∙◌, subst, inl, inr, true, false, List, [], ◌∷◌, ◌++◌, arith,
  leb, Bool-cases, if_true, if_false, length, ok,
}
use mlcache.Float.{FloatOps}
use mlcache.Stopping.{
  OnlineStoppingConfig, OnlineMetrics, Controller, init, reset, is_check_batch,
  has_enough_monitor_data, check, is_stable, observe_running, observe, observe_all,
}

module _ {F : Type 0} where
  -- The controller has stopped exactly when the count of stable checks has reached the patience.
  pub record IsValid (c : Controller F) : Type 0 where
    pub patient : 0 < c.config.patience
    pub counted : c.status.stopped ≡ leb c.config.patience c.stable_checks

  pub init-IsValid :
      (config : OnlineStoppingConfig F) {c : Controller F} → init config ≡ ok c → IsValid c
  unfolding init
  init-IsValid config h = ground arith

  pub reset-IsValid : (c : Controller F) → IsValid c → IsValid (reset c)
  unfolding reset
  reset-IsValid c v = ground arith

module _ {F : Type 0} ⦃fl : FloatOps F⦄ where
  running-IsValid :
      (c : Controller F) (m : OnlineMetrics F)
      → IsValid c
      → c.status.stopped ≡ false
      → IsValid (observe_running c m)
  unfolding observe_running
  running-IsValid c m v r = ground arith

  observe_stopped :
      (c : Controller F) (m : OnlineMetrics F) → c.status.stopped ≡ true → observe c m ≡ c
  unfolding observe
  observe_stopped c m e = if_true _ _ e

  -- The controller that `observe_running` is called on.
  abbrev noted : Controller F → OnlineMetrics F → Controller F
  noted c m = record c { history = c.history ++ m ∷ [] }

  observe_on :
      (c : Controller F) (m : OnlineMetrics F)
      → c.status.stopped ≡ false
      → observe c m ≡ observe_running (noted c m) m
  unfolding observe
  observe_on c m e = if_false _ _ e

  -- `observe` keeps a controller valid, on every branch: the patience is positive, and the
  -- controller has stopped exactly when its count of stable checks has reached the patience.
  pub observe-IsValid : (c : Controller F) (m : OnlineMetrics F) → IsValid c → IsValid (observe c m)
  observe-IsValid c m v = elim (Bool-cases c.status.stopped) [
    | inl e ↦ subst IsValid (sym (observe_stopped c m e)) v
    | inr e ↦
        subst IsValid (sym (observe_on c m e))
          (running-IsValid (noted c m) m (record { patient = v.patient; counted = v.counted }) e)
  ]

  -- A controller that has stopped ignores whatever it observes from then on.
  observe_all_stopped :
      (c : Controller F) (ms : List (OnlineMetrics F))
      → c.status.stopped ≡ true
      → observe_all c ms ≡ c
  unfolding observe_all
  observe_all_stopped c [] e = refl
  observe_all_stopped c (m ∷ ms) e =
      ap (λ d. observe_all d ms) (observe_stopped c m e) ∙ observe_all_stopped c ms e

  -- The check of this observation runs, on enough data and a full window, and is stable.
  abbrev pub StableAt : Controller F → OnlineMetrics F → Type 0
  StableAt c m =
      let history = c.history ++ m ∷ [] in
      (is_check_batch c.config m ≡ true)
      × (has_enough_monitor_data c.config m ≡ true)
      × (c.config.window ≤ length history)
      × (is_stable c.config (check c.config history m) ≡ true)

  -- Each observation of the list is a stable check where it is made.
  abbrev pub AllStable : Controller F → List (OnlineMetrics F) → Type 0
  AllStable c [] = Unit
  AllStable c (m ∷ ms) = StableAt c m × AllStable (observe c m) ms

  stable_step :
      (c : Controller F) (m : OnlineMetrics F)
      → c.status.stopped ≡ false
      → StableAt c m
      → ((observe c m).stable_checks ≡ c.stable_checks + 1) × ((observe c m).config ≡ c.config)
  stable_step c m r h =
      subst (λ d. (d.stable_checks ≡ c.stable_checks + 1) × (d.config ≡ c.config))
        (sym (observe_on c m r)) (unfold observe_running in ground (arith, h.0, h.1, h.2, h.3))

  -- From a valid controller, as many stable checks in a row as are missing to the patience stop
  -- it.
  pub stable_run-stops :
      (c : Controller F) (ms : List (OnlineMetrics F))
      → IsValid c
      → AllStable c ms
      → c.config.patience ≤ c.stable_checks + length ms
      → (observe_all c ms).status.stopped ≡ true
  unfolding observe observe_all
  stable_run-stops c [] v all enough = ground (arith, v.counted)
  stable_run-stops c (m ∷ ms) v all enough = elim (Bool-cases c.status.stopped) [
    | inl e ↦ subst (λ d. d.status.stopped ≡ true) (sym (observe_all_stopped c (m ∷ ms) e)) e
    | inr e ↦
        let (count, same) = stable_step c m e all.0 in
        stable_run-stops (observe c m) ms (observe-IsValid c m v) all.1
          (rw (count, same) (omega arith))
  ]
