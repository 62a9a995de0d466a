-- ===== src/Stopping.antt =====
-- src/mlcache/online/stopping.py: when online updates stop.
pub mod Convergence
use mlcache.Prelude.{
  ℕ, ◌+◌, ◌-◌, ◌%◌, String, Bool, true, false, not, ◌&&◌, Option, none, some, List, [], ◌∷◌, ◌++◌,
  map, ltb, leb, ◌==◌, if◌then◌else◌, length, drop, Result, ok, raise, value_error,
}
use mlcache.Dict.{Dict}
use mlcache.Float.{FloatOps, fmin, fmax}
use mlcache.Types.{Value}

pub record OnlineStoppingConfig (F : Type 0) : Type 0 where
  pub check_every : ℕ
  pub window : ℕ
  pub patience : ℕ
  pub eps_tpr : F
  pub eps_fpr : F
  pub eps_tau : F
  pub fpr_margin : F
  pub min_monitor_h0 : ℕ
  pub min_monitor_h1 : ℕ

pub record OnlineMetrics (F : Type 0) : Type 0 where
  pub batch_index : ℕ
  pub monitor_tpr : F
  pub monitor_fpr : F
  pub threshold : F
  pub target_false_accept_rate : F
  pub monitor_h0_count : Option ℕ
  pub monitor_h1_count : Option ℕ

pub record StopStatus (F : Type 0) : Type 0 where
  pub stopped : Bool
  pub reason : Option String
  pub metadata : Dict String (Value F)

pub record Controller (F : Type 0) : Type 0 where
  pub config : OnlineStoppingConfig F
  pub history : List (OnlineMetrics F)
  pub stable_checks : ℕ
  pub status : StopStatus F

-- What a check of the window computes.
pub record Check (F : Type 0) : Type 0 where
  pub tpr_delta : F
  pub fpr_delta : F
  pub tau_delta : F
  pub fpr_limit : F
  pub fpr_ok : Bool

-- `count is None or count >= bound`
abbrev pub enough : Option ℕ → ℕ → Bool
enough none bound = true
enough (some n) bound = leb bound n

abbrev pub running : {F : Type 0} → StopStatus F
running = record { stopped = false; reason = none; metadata = [] }

module _ {F : Type 0} where
  unfoldable pub init : OnlineStoppingConfig F → Result (Controller F)
  init config =
      if leb config.check_every 0
      then raise value_error
      else if leb config.window 1
      then raise value_error
      else if leb config.patience 0
      then raise value_error
      else ok (record { config = config; history = []; stable_checks = 0; status = running })

  unfoldable pub reset : Controller F → Controller F
  reset c = record c { history = []; stable_checks = 0; status = running }

  abbrev pub is_check_batch : OnlineStoppingConfig F → OnlineMetrics F → Bool
  is_check_batch config m = m.batch_index % config.check_every == 0

  abbrev pub has_enough_monitor_data : OnlineStoppingConfig F → OnlineMetrics F → Bool
  has_enough_monitor_data config m =
      enough m.monitor_h0_count config.min_monitor_h0
      && enough m.monitor_h1_count config.min_monitor_h1

  -- `_pending_status`: the metadata shows the counters as they stand.
  abbrev pub pending : Controller F → String → Controller F
  pending c reason = record c {
    status = record {
      stopped = false;
      reason = some reason;
      metadata =
          ("stable_checks", Value.integer c.stable_checks)
          ∷ ("history_size", Value.integer (length c.history))
          ∷ [];
    };
  }

module _ {F : Type 0} ⦃fl : FloatOps F⦄ where
  finite : List F → List F
  finite [] = []
  finite (v ∷ vs) = let rest = finite vs in if fl.is_finite v then v ∷ rest else rest

  largest : F → List F → F
  largest best [] = best
  largest best (v ∷ vs) = largest (fmax best v) vs

  smallest : F → List F → F
  smallest best [] = best
  smallest best (v ∷ vs) = smallest (fmin best v) vs

  span : List F → F
  span [] = fl.inf
  span (v ∷ vs) = fl.sub (largest v vs) (smallest v vs)

  -- `_range`
  unfoldable pub range : List F → F
  unfolding finite largest smallest span
  range values = span (finite values)

  -- `self._history[-window:]`
  abbrev pub last_window : ℕ → List (OnlineMetrics F) → List (OnlineMetrics F)
  last_window n history = drop (length history - n) history

  unfoldable pub check : OnlineStoppingConfig F → List (OnlineMetrics F) → OnlineMetrics F → Check F
  check config history m =
      let window = last_window config.window history in
      let limit = fl.add m.target_false_accept_rate config.fpr_margin in
      record {
        tpr_delta = range (map (λ x. x.monitor_tpr) window);
        fpr_delta = range (map (λ x. x.monitor_fpr) window);
        tau_delta = range (map (λ x. x.threshold) window);
        fpr_limit = limit;
        fpr_ok = fl.le m.monitor_fpr limit;
      }

  abbrev pub is_stable : OnlineStoppingConfig F → Check F → Bool
  is_stable config k =
      k.fpr_ok
      && (fl.le k.tpr_delta config.eps_tpr
          && (fl.le k.fpr_delta config.eps_fpr && fl.le k.tau_delta config.eps_tau))

  abbrev pub status_metadata : OnlineStoppingConfig F → ℕ → Check F → Dict String (Value F)
  status_metadata config n k =
      ("stable_checks", Value.integer n)
      ∷ ("patience", Value.integer config.patience)
      ∷ ("window", Value.integer config.window)
      ∷ ("tpr_delta", Value.number k.tpr_delta)
      ∷ ("fpr_delta", Value.number k.fpr_delta)
      ∷ ("tau_delta", Value.number k.tau_delta)
      ∷ ("fpr_limit", Value.number k.fpr_limit)
      ∷ ("fpr_ok", Value.boolean k.fpr_ok)
      ∷ []

  -- The end of `observe`, with the number of stable checks after this one.
  abbrev pub conclude : Controller F → ℕ → Check F → Controller F
  conclude c n k = record c {
    stable_checks = n;
    status =
        if leb c.config.patience n
        then record {
          stopped = true;
          reason = some "online_metrics_converged";
          metadata = status_metadata c.config n k;
        }
        else record {
          stopped = false;
          reason = some "not_converged";
          metadata = status_metadata c.config n k;
        };
  }

  -- `observe` on a controller that runs, with the metrics already in its history.
  unfoldable pub observe_running : Controller F → OnlineMetrics F → Controller F
  observe_running c m =
      if not (is_check_batch c.config m)
      then pending c "waiting_for_check_interval"
      else if not (has_enough_monitor_data c.config m)
      then pending (record c { stable_checks = 0 }) "insufficient_monitor_data"
      else if ltb (length c.history) c.config.window
      then pending c "insufficient_window"
      else (let k = check c.config c.history m in
          conclude c (if is_stable c.config k then c.stable_checks + 1 else 0) k)

  -- The controller after `observe`; its status is what the method returns.
  unfoldable pub observe : Controller F → OnlineMetrics F → Controller F
  observe c m =
      if c.status.stopped then c else observe_running (record c { history = c.history ++ m ∷ [] }) m

  unfoldable pub observe_all : Controller F → List (OnlineMetrics F) → Controller F
  observe_all c [] = c
  observe_all c (m ∷ ms) = observe_all (observe c m) ms
