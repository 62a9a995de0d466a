-- ===== src/Oracle/Monitor.antt =====
-- src/mlcache/oracle/trainable.py: the monitor's counters, on which the refit policy relies.
use mlcache.Prelude.{bind_ok, ok_injective}
use mlcache.Prelude.{
  ℕ, ◌≤◌, String, ◌≡◌, refl, sym, subst, inl, inr, Bool, true, false, Option, none, some, List, [],
  ◌∷◌, arith, ltb, Bool-cases, if_true, if_false, length, Result, ok, raise, if◌then◌else◌,
}
use mlcache.Dict.{Dict}
use mlcache.Float.{FloatOps}
use mlcache.Types.{OracleDecision, CacheLookup, CacheMetadata, Value}
use mlcache.Refit.{
  RefitAction, noop, recalibrate_threshold, refit_scorer, disable_semantic_hits,
  RefitPolicyDecision,
}
use mlcache.Refit.Policy
use mlcache.Oracle.{
  Models, Rows, VectorSearchResult, TrainableOracle, OracleRuntimeSnapshot, snapshot_runtime_state,
  resolve_top_k, reset_monitor_counts, monitor_fpr_upper_bound,
}
use mlcache.Oracle.Fit.{
  Recalibrated, install_recalibration, prepare_recalibration, recalibrate_threshold_from_rows,
  accept_recalibration, refuse_recalibration,
}
use mlcache.Oracle.Score.{score_request}
use mlcache.Oracle.Feedback.{
  JudgeLabel, reusable, not_reusable, uncertain, OracleJudgeFeedback, record_label,
  record_judge_feedback, ShadowCollectionResult, record_shadow_collection, served_as,
  finalize_decision,
}
use mlcache.Oracle.Split.{RefitRows}
use mlcache.Oracle.Decide.{
  Job, Maintained, noted, after_recalibration, after_split, recalibration_rows, execute_action,
  try_auto_refit, or_failed, maybe_auto_refit, refit_context, apply_feedback,
  collect_judge_feedback, decide_without_collector, decide_with_shadow_collection, decide,
  disable_hits, Threads, shadow_result, apply_shadow,
}

module _ {F : Type 0} {Sc : Type 0} where
  -- A judged pair that was accepted is a judged pair.
  unfoldable pub IsValid : TrainableOracle F Sc → Type 0
  IsValid o =
      (o.monitor_false_accepts ≤ o.monitor_h0_count) × (o.monitor_true_accepts ≤ o.monitor_h1_count)

  record_label-IsValid :
      (l : JudgeLabel) (accepted : Bool) (o : TrainableOracle F Sc)
      → IsValid o
      → IsValid (record_label l accepted o)
  unfolding IsValid
  record_label-IsValid reusable true o (p, q) = (p, omega arith)
  record_label-IsValid reusable false o (p, q) = (p, omega arith)
  record_label-IsValid not_reusable true o (p, q) = (omega arith, q)
  record_label-IsValid not_reusable false o (p, q) = (omega arith, q)
  record_label-IsValid uncertain accepted o h = h

  apply_feedback-IsValid :
      (f : Option (OracleJudgeFeedback F)) (o : TrainableOracle F Sc)
      → IsValid o
      → IsValid (apply_feedback f o)
  unfolding record_judge_feedback
  apply_feedback-IsValid none o v = v
  apply_feedback-IsValid (some f) o v = elim (Bool-cases o.judge_for_feedback) [
    | inl e ↦
        subst IsValid (sym (if_true (record_judge_feedback f o) o e))
          (record_label-IsValid f.label f.scorer_decision.accepted o v)
    | inr e ↦ subst IsValid (sym (if_false (record_judge_feedback f o) o e)) v
  ]

-- A judged candidate that is served is one of the pairs that were added.
abbrev pub ServedIn : ℕ → ℕ → Option Bool → Type 0
ServedIn h0 h1 none = Unit {0}
ServedIn h0 h1 (some true) = 1 ≤ h1
ServedIn h0 h1 (some false) = 1 ≤ h0

abbrev pub CountsServed : ShadowCollectionResult → Type 0
CountsServed r = ServedIn r.h0_added r.h1_added r.served_candidate_label

module _ {F : Type 0} {Sc : Type 0} where
  record_shadow_collection-IsValid :
      (r : ShadowCollectionResult) (d : OracleDecision F) (o : TrainableOracle F Sc)
      → CountsServed r
      → IsValid o
      → IsValid (record_shadow_collection r d o)
  unfolding record_shadow_collection IsValid
  record_shadow_collection-IsValid r d o c (p, q) =
      let (t, f) = served r.served_candidate_label d.accepted c in
      (omega (arith, p, f), omega (arith, q, t))
    where
      served :
          (l : Option Bool) (accepted : Bool)
          → ServedIn r.h0_added r.h1_added l
          → (served_as true accepted l ≤ r.h1_added) × (served_as false accepted l ≤ r.h0_added)
      served none a c = (omega arith, omega arith)
      served (some l) false c = (omega arith, omega arith)
      served (some true) true c = (c, omega arith)
      served (some false) true c = (omega arith, c)

  apply_shadow-IsValid :
      (answer : Result ShadowCollectionResult) (d : OracleDecision F) (o : TrainableOracle F Sc)
      → ((r : ShadowCollectionResult) → answer ≡ ok r → CountsServed r)
      → IsValid o
      → IsValid (apply_shadow (shadow_result answer) d o)
  apply_shadow-IsValid (ok r) d o c v = record_shadow_collection-IsValid r d o (c r refl) v
  apply_shadow-IsValid (raise e) d o c v = v

module _ {F : Type 0} {Sc : Type 0} ⦃fl : FloatOps F⦄ where
  install_recalibration-IsValid :
      (r : Recalibrated F) (o : TrainableOracle F Sc)
      → IsValid o
      → IsValid (install_recalibration r o).1
  unfolding install_recalibration IsValid reset_monitor_counts
  install_recalibration-IsValid r o h = elim (Bool-cases r.gate.passed) [
    | inl e ↦
        subst (λ (p : Option F × TrainableOracle F Sc). IsValid p.1)
          (sym (
            if_true (some r.threshold, accept_recalibration r o) (none, refuse_recalibration r o)
              e))
          (omega arith, omega arith)
    | inr e ↦
        subst (λ (p : Option F × TrainableOracle F Sc). IsValid p.1)
          (sym (
            if_false (some r.threshold, accept_recalibration r o) (none, refuse_recalibration r o)
              e))
          h
  ]

  after_recalibration-IsValid :
      (d : RefitPolicyDecision F) (t : Option F) (o : TrainableOracle F Sc)
      → IsValid o
      → IsValid (after_recalibration d (t, o)).oracle
  unfolding IsValid
  after_recalibration-IsValid d none o h = h
  after_recalibration-IsValid d (some t) o h = h

  after_split-IsValid :
      (d : RefitPolicyDecision F) (running : Bool) (s : _) (o : TrainableOracle F Sc)
      (r : Maintained F Sc)
      → after_split d running s o ≡ ok r
      → IsValid o
      → IsValid r.oracle
  unfolding IsValid
  after_split-IsValid d running none o r h v =
      subst (λ (x : Maintained F Sc). IsValid x.oracle) (ok_injective h) v
  after_split-IsValid d true (some s) o r h v = absurd (ground arith)
  after_split-IsValid d false (some s) o r h v =
      subst (λ (x : Maintained F Sc). IsValid x.oracle) (ok_injective h) v

module _ {F : Type 0} {X : Type 0} {Sc : Type 0} ⦃fl : FloatOps F⦄ (m : Models F X Sc) where
  recalibrate-IsValid :
      (rows : Rows F) (metadata : Dict String (Value F)) (o : TrainableOracle F Sc)
      (out : Option F × TrainableOracle F Sc)
      → recalibrate_threshold_from_rows m rows metadata o ≡ ok out
      → IsValid o
      → IsValid out.1
  unfolding recalibrate_threshold_from_rows
  recalibrate-IsValid [] metadata o out h v =
      subst (λ (p : Option F × TrainableOracle F Sc). IsValid p.1) (ok_injective h) v
  recalibrate-IsValid (row ∷ rows) metadata o out h v =
      let (r, e, g) = bind_ok (prepare_recalibration m o (row ∷ rows) metadata) _ out h in
      subst (λ (p : Option F × TrainableOracle F Sc). IsValid p.1) (ok_injective g)
        (install_recalibration-IsValid r o v)

  execute_action-IsValid :
      (a : RefitAction) (d : RefitPolicyDecision F) (rows : RefitRows F) (threads : Threads)
      (o : TrainableOracle F Sc) (r : Maintained F Sc)
      → execute_action m a d rows threads o ≡ ok r
      → IsValid o
      → IsValid r.oracle
  unfolding execute_action disable_hits IsValid
  execute_action-IsValid noop d rows threads o r h v =
      subst (λ (x : Maintained F Sc). IsValid x.oracle) (ok_injective h) v
  execute_action-IsValid disable_semantic_hits d rows threads o r h v =
      subst (λ (x : Maintained F Sc). IsValid x.oracle) (ok_injective h) v
  execute_action-IsValid refit_scorer d rows threads o r h v =
      after_split-IsValid d threads.fit _ o r h v
  execute_action-IsValid recalibrate_threshold d rows threads o r h v =
      elim (Bool-cases (ltb o.sync_recalibration_max_h0 (length (recalibration_rows rows)))) [
        | inl e ↦
            subst (λ (x : Maintained F Sc). IsValid x.oracle)
              (ok_injective (subst (λ y. y ≡ ok r) (if_true _ _ e) h)) v
        | inr e ↦
            let (out, f, g) =
              bind_ok
                (recalibrate_threshold_from_rows m (recalibration_rows rows) d.metadata (noted d o))
                _ r (subst (λ y. y ≡ ok r) (if_false _ _ e) h) in
            subst (λ (x : Maintained F Sc). IsValid x.oracle) (ok_injective g)
              (after_recalibration-IsValid d out.0 out.1
                (recalibrate-IsValid (recalibration_rows rows) d.metadata (noted d o) out f v))
      ]

  try_auto_refit-IsValid :
      (rows : Result (RefitRows F)) (current_threshold : Option F) (threads : Threads)
      (o : TrainableOracle F Sc) (r : Maintained F Sc)
      → try_auto_refit m rows current_threshold threads o ≡ ok r
      → IsValid o
      → IsValid r.oracle
  unfolding try_auto_refit
  try_auto_refit-IsValid rows current_threshold threads o r h v =
      let (rr, _, h1) = bind_ok rows _ r h in
      let (upper, _, h2) = bind_ok (monitor_fpr_upper_bound o) _ r h1 in
      let (d, _, h3) =
        bind_ok (Policy.decide o.config (refit_context rr current_threshold threads.fit upper o)) _
          r h2 in
      execute_action-IsValid d.action d rr threads o r h3 v

  maybe_auto_refit-IsValid :
      (rows : Option (Result (RefitRows F))) (current_threshold : Option F) (threads : Threads)
      (o : TrainableOracle F Sc)
      → IsValid o
      → IsValid (maybe_auto_refit m rows current_threshold threads o).1
  unfolding maybe_auto_refit
  maybe_auto_refit-IsValid none current_threshold threads o v = v
  maybe_auto_refit-IsValid (some rows) current_threshold threads o v =
      go (try_auto_refit m rows current_threshold threads o) refl
    where
      go :
          (r : Result (Maintained F Sc))
          → try_auto_refit m rows current_threshold threads o ≡ r
          → IsValid (or_failed o r).oracle
      go (ok r) e = try_auto_refit-IsValid rows current_threshold threads o r e v
      go (raise w) e = unfold IsValid in v

  snapshot-IsValid :
      (o : TrainableOracle F Sc) (provider : Option (Result F)) (metadata : CacheMetadata)
      (p : OracleRuntimeSnapshot F Sc × TrainableOracle F Sc)
      → snapshot_runtime_state o provider metadata ≡ ok p
      → IsValid o
      → IsValid p.1
  unfolding snapshot_runtime_state
  snapshot-IsValid o provider metadata p e v =
      let (k, _, e1) = bind_ok (resolve_top_k o metadata.top_k) _ p e in
      subst (λ (x : OracleRuntimeSnapshot F Sc × TrainableOracle F Sc). IsValid x.1)
        (ok_injective e1) (unfold IsValid in v)

  without_collector-IsValid :
      (provider : Option (Result F)) (retrieve : ℕ → Result (List (VectorSearchResult F)))
      (judge : Option (VectorSearchResult F → Result (JudgeLabel × Option F)))
      (rows : Option (OracleJudgeFeedback F)
        → Option ShadowCollectionResult
        → Option (Result (RefitRows F)))
      (threads : Threads) (lookup : CacheLookup F) (o : TrainableOracle F Sc)
      (out : OracleDecision F × (Job F × TrainableOracle F Sc))
      → IsValid o
      → decide_without_collector m provider retrieve judge rows threads lookup o ≡ ok out
      → IsValid out.1.1
  unfolding decide_without_collector
  without_collector-IsValid provider retrieve judge rows threads lookup o out v h =
      let (p, e, h1) = bind_ok (snapshot_runtime_state o provider lookup.metadata) _ out h in
      let (scored, _, h2) =
        bind_ok (score_request m p.0 lookup.embedding (retrieve p.0.top_k)) _ out h1 in
      let (f, _, h3) = bind_ok (collect_judge_feedback judge scored p.1) _ out h2 in
      subst (λ (x : OracleDecision F × (Job F × TrainableOracle F Sc)). IsValid x.1.1)
        (ok_injective h3)
        (maybe_auto_refit-IsValid (rows f none) p.0.threshold threads (apply_feedback f p.1)
          (apply_feedback-IsValid f p.1 (snapshot-IsValid o provider lookup.metadata p e v)))

  with_collector-IsValid :
      (collect : List (VectorSearchResult F) → OracleDecision F → Result ShadowCollectionResult)
      (provider : Option (Result F)) (retrieve : ℕ → Result (List (VectorSearchResult F)))
      (judge : Option (VectorSearchResult F → Result (JudgeLabel × Option F)))
      (rows : Option (OracleJudgeFeedback F)
        → Option ShadowCollectionResult
        → Option (Result (RefitRows F)))
      (threads : Threads) (lookup : CacheLookup F) (o : TrainableOracle F Sc)
      (out : OracleDecision F × (Job F × TrainableOracle F Sc))
      → ((cs : List (VectorSearchResult F)) (d : OracleDecision F) (r : ShadowCollectionResult)
          → collect cs d ≡ ok r
          → CountsServed r)
      → IsValid o
      → decide_with_shadow_collection m collect provider retrieve judge rows threads lookup o
        ≡ ok out
      → IsValid out.1.1
  unfolding decide_with_shadow_collection
  with_collector-IsValid collect provider retrieve judge rows threads lookup o out counted v h =
      let (p, e, h1) = bind_ok (snapshot_runtime_state o provider lookup.metadata) _ out h in
      let (scored, _, h2) =
        bind_ok (score_request m p.0 lookup.embedding (retrieve p.0.top_k)) _ out h1 in
      let (f, _, h3) =
        bind_ok
          (if o.judge_can_override_decision
            then collect_judge_feedback judge scored p.1
            else ok none)
          _ out h2 in
      let serving = finalize_decision o.judge_can_override_decision scored.decision f in
      let result = shadow_result (collect scored.candidates serving) in
      subst (λ (x : OracleDecision F × (Job F × TrainableOracle F Sc)). IsValid x.1.1)
        (ok_injective h3)
        (maybe_auto_refit-IsValid (rows none result) p.0.threshold threads
          (apply_shadow result serving p.1)
          (apply_shadow-IsValid (collect scored.candidates serving) serving p.1
            (counted scored.candidates serving)
            (snapshot-IsValid o provider lookup.metadata p e v)))

  -- A request leaves the monitor valid: if no more judged pairs were accepted than there are, of
  -- either label, then this is so after a `decide` that returns, with or without shadow
  -- collection, whatever the threshold provider, the vector store, the judge and the training
  -- store answer. It is assumed that a shadow collector counts a judged candidate that is served
  -- among the pairs that it added with its label.
  pub decide-IsValid :
      (collector : Option
        (List (VectorSearchResult F) → OracleDecision F → Result ShadowCollectionResult))
      (provider : Option (Result F)) (retrieve : ℕ → Result (List (VectorSearchResult F)))
      (judge : Option (VectorSearchResult F → Result (JudgeLabel × Option F)))
      (rows : Option (OracleJudgeFeedback F)
        → Option ShadowCollectionResult
        → Option (Result (RefitRows F)))
      (threads : Threads) (lookup : CacheLookup F) (o : TrainableOracle F Sc)
      (out : OracleDecision F × (Job F × TrainableOracle F Sc))
      → ((collect : List (VectorSearchResult F) → OracleDecision F → Result ShadowCollectionResult)
            (cs : List (VectorSearchResult F)) (d : OracleDecision F) (r : ShadowCollectionResult)
          → collector ≡ some collect
          → collect cs d ≡ ok r
          → CountsServed r)
      → IsValid o
      → decide m collector provider retrieve judge rows threads lookup o ≡ ok out
      → IsValid out.1.1
  decide-IsValid none provider retrieve judge rows threads lookup o out counted v h =
      without_collector-IsValid provider retrieve judge rows threads lookup o out v h
  decide-IsValid (some collect) provider retrieve judge rows threads lookup o out counted v h =
      with_collector-IsValid collect provider retrieve judge rows threads lookup o out
        (λ cs d r e. counted collect cs d r refl e) v h
