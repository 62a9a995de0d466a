-- ===== src/Oracle/EndToEnd.antt =====
-- src/mlcache/oracle/trainable.py: what `decide` serves.
use mlcache.Prelude.{
  ℕ, ◌≡◌, refl, sym, ap, ◌∙◌, subst, true, false, Option, none, some, List, arith, Result, ok,
  raise, if◌then◌else◌,
}
use mlcache.Prelude.{bind_ok, ok_injective}
use mlcache.Float.{FloatOps, FloatLaws}
use mlcache.Types.{OracleDecision, CacheLookup}
use mlcache.Oracle.{
  Models, VectorSearchResult, TrainableOracle, OracleRuntimeSnapshot, snapshot_runtime_state,
}
use mlcache.Oracle.Score.{OracleScoredResult, score_request}
use mlcache.Oracle.Serving.{ServesBest, score_request-ServesBest}
use mlcache.Oracle.Feedback.{
  JudgeLabel, OracleJudgeFeedback, ShadowCollectionResult, finalize_decision,
}
use mlcache.Oracle.Split.{RefitRows}
use mlcache.Oracle.Decide.{
  Job, Threads, collect_judge_feedback, decide_without_collector, decide_with_shadow_collection,
  decide,
}

module _ {F : Type 0} where
  finalize_decision_lem :
      (d : OracleDecision F) (f : Option (OracleJudgeFeedback F)) → finalize_decision false d f ≡ d
  unfolding finalize_decision
  finalize_decision_lem d none = refl
  finalize_decision_lem d (some f) = refl

module _ {F : Type 0} {X : Type 0} {Sc : Type 0} ⦃fl : FloatOps F⦄ (m : Models F X Sc) where
  -- The decision serves a best candidate of what the vector store returns for the snapshot.
  abbrev pub ServesRequest :
      OracleRuntimeSnapshot F Sc
      → List F
      → (ℕ → Result (List (VectorSearchResult F)))
      → OracleDecision F
      → Type 0
  ServesRequest snapshot query retrieve d =
      (candidates : List (VectorSearchResult F)) × (retrieve snapshot.top_k ≡ ok candidates)
      × ServesBest m snapshot query candidates d

  retrieved-ServesBest :
      (laws : FloatLaws fl) (snapshot : OracleRuntimeSnapshot F Sc) (query : List F)
      (found : Result (List (VectorSearchResult F))) (r : OracleScoredResult F X)
      → score_request m snapshot query found ≡ ok r
      → r.decision.accepted ≡ true
      → (candidates : List (VectorSearchResult F)) × (found ≡ ok candidates)
        × ServesBest m snapshot query candidates r.decision
  unfolding score_request
  retrieved-ServesBest laws snapshot query (raise e) r h a = absurd (ground arith)
  retrieved-ServesBest laws snapshot query (ok cs) r h a =
      (cs, refl, score_request-ServesBest m laws snapshot query cs r h a)

  without_collector-ServesRequest :
      (laws : FloatLaws fl) (provider : Option (Result F))
      (retrieve : ℕ → Result (List (VectorSearchResult F)))
      (judge : Option (VectorSearchResult F → Result (JudgeLabel × Option F)))
      (rows : Option (OracleJudgeFeedback F)
        → Option ShadowCollectionResult
        → Option (Result (RefitRows F)))
      (threads : Threads) (lookup : CacheLookup F) (o : TrainableOracle F Sc)
      (out : OracleDecision F × (Job F × TrainableOracle F Sc))
      → o.judge_can_override_decision ≡ false
      → decide_without_collector m provider retrieve judge rows threads lookup o ≡ ok out
      → out.0.accepted ≡ true
      → (p : OracleRuntimeSnapshot F Sc × TrainableOracle F Sc) × (snapshot_runtime_state o provider
            lookup.metadata
          ≡ ok p)
        × ServesRequest p.0 lookup.embedding retrieve out.0
  unfolding decide_without_collector
  without_collector-ServesRequest laws provider retrieve judge rows threads lookup o out can h a =
      let (p, e, h1) = bind_ok (snapshot_runtime_state o provider lookup.metadata) _ out h in
      let (scored, es, h2) =
        bind_ok (score_request m p.0 lookup.embedding (retrieve p.0.top_k)) _ out h1 in
      let (f, _, h3) = bind_ok (collect_judge_feedback judge scored p.1) _ out h2 in
      let q : scored.decision ≡ out.0 =
        sym (finalize_decision_lem scored.decision f)
        ∙ ap (λ b. finalize_decision b scored.decision f) (sym can)
        ∙ ap (λ (x : OracleDecision F × (Job F × TrainableOracle F Sc)). x.0) (ok_injective h3) in
      let (cs, g, s) =
        retrieved-ServesBest laws p.0 lookup.embedding (retrieve p.0.top_k) scored es
          (ap (λ d. d.accepted) q ∙ a) in
      (p, e, (cs, g, subst (ServesBest m p.0 lookup.embedding cs) q s))

  with_collector-ServesRequest :
      (laws : FloatLaws fl)
      (collect : List (VectorSearchResult F) → OracleDecision F → Result ShadowCollectionResult)
      (provider : Option (Result F)) (retrieve : ℕ → Result (List (VectorSearchResult F)))
      (judge : Option (VectorSearchResult F → Result (JudgeLabel × Option F)))
      (rows : Option (OracleJudgeFeedback F)
        → Option ShadowCollectionResult
        → Option (Result (RefitRows F)))
      (threads : Threads) (lookup : CacheLookup F) (o : TrainableOracle F Sc)
      (out : OracleDecision F × (Job F × TrainableOracle F Sc))
      → o.judge_can_override_decision ≡ false
      → decide_with_shadow_collection m collect provider retrieve judge rows threads lookup o
        ≡ ok out
      → out.0.accepted ≡ true
      → (p : OracleRuntimeSnapshot F Sc × TrainableOracle F Sc) × (snapshot_runtime_state o provider
            lookup.metadata
          ≡ ok p)
        × ServesRequest p.0 lookup.embedding retrieve out.0
  unfolding decide_with_shadow_collection
  with_collector-ServesRequest laws collect provider retrieve judge rows threads lookup o out can h
        a =
      let (p, e, h1) = bind_ok (snapshot_runtime_state o provider lookup.metadata) _ out h in
      let (scored, es, h2) =
        bind_ok (score_request m p.0 lookup.embedding (retrieve p.0.top_k)) _ out h1 in
      let (f, _, h3) =
        bind_ok
          (if o.judge_can_override_decision
            then collect_judge_feedback judge scored p.1
            else ok none)
          _ out h2 in
      let q : scored.decision ≡ out.0 =
        sym (finalize_decision_lem scored.decision f)
        ∙ ap (λ b. finalize_decision b scored.decision f) (sym can)
        ∙ ap (λ (x : OracleDecision F × (Job F × TrainableOracle F Sc)). x.0) (ok_injective h3) in
      let (cs, g, s) =
        retrieved-ServesBest laws p.0 lookup.embedding (retrieve p.0.top_k) scored es
          (ap (λ d. d.accepted) q ∙ a) in
      (p, e, (cs, g, subst (ServesBest m p.0 lookup.embedding cs) q s))

  -- Where the judge may not override the scorer, a request that `decide` accepts, with or without
  -- shadow collection, is served a best candidate: the decision is that on a snapshot of the
  -- oracle and on what the vector store returned for the snapshot's `top_k`; semantic hits are
  -- enabled and there is a threshold; the key, the rank and the score are those of a candidate
  -- that passes the threshold, and no candidate that passes has a greater score. Floats obey the
  -- order laws; `decide` returns, and the threshold provider, the judge, the shadow collector and
  -- the training store may answer anything.
  pub decide-ServesRequest :
      (laws : FloatLaws fl)
      (collector : Option
        (List (VectorSearchResult F) → OracleDecision F → Result ShadowCollectionResult))
      (provider : Option (Result F)) (retrieve : ℕ → Result (List (VectorSearchResult F)))
      (judge : Option (VectorSearchResult F → Result (JudgeLabel × Option F)))
      (rows : Option (OracleJudgeFeedback F)
        → Option ShadowCollectionResult
        → Option (Result (RefitRows F)))
      (threads : Threads) (lookup : CacheLookup F) (o : TrainableOracle F Sc)
      (out : OracleDecision F × (Job F × TrainableOracle F Sc))
      → o.judge_can_override_decision ≡ false
      → decide m collector provider retrieve judge rows threads lookup o ≡ ok out
      → out.0.accepted ≡ true
      → (p : OracleRuntimeSnapshot F Sc × TrainableOracle F Sc) × (snapshot_runtime_state o provider
            lookup.metadata
          ≡ ok p)
        × ServesRequest p.0 lookup.embedding retrieve out.0
  decide-ServesRequest laws none provider retrieve judge rows threads lookup o out can h a =
      without_collector-ServesRequest laws provider retrieve judge rows threads lookup o out can h a
  decide-ServesRequest laws (some collect) provider retrieve judge rows threads lookup o out can h
        a =
      with_collector-ServesRequest laws collect provider retrieve judge rows threads lookup o out
        can h a
