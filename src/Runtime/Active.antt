-- ===== src/Runtime/Active.antt =====
-- src/mlcache/runtime/runtime.py: what the active and the shadow mode may change of a lookup.
use mlcache.Prelude.{
  ℕ, String, ◌≡◌, refl, sym, ap, ◌∙◌, subst, ◌⊎◌, inl, inr, Bool, true, false, Option, none, some,
  List, [], ◌∷◌, arith, Bool-cases, if_true, if_false, length, Result, ok, raise,
}
use mlcache.Prelude.{bind_ok, ok_injective}
use mlcache.Float.{FloatOps}
use mlcache.Types.{CacheKey, CacheLookup, Response}
use mlcache.KvStore
use mlcache.Threshold.{predict_score}
use mlcache.Gateway.{Oracle, CacheGatewayResult}
use mlcache.QueryLevel.{QueryCalibrationCandidate, QueryCalibrationRecord}
use mlcache.QueryLevel.Policy.{
  QueryLevelPolicyDecision, QueryLevelLearnedPolicy, effective_threshold, on_selection,
  evaluate_candidates, evaluate,
}
use mlcache.QueryLevel.Store.{BoundedStore, latest}
use mlcache.Runtime.{
  Runtime, ActiveMetadata, RuntimeResult, query_level_threshold, base_metadata, decision_metadata,
  no_record_or_policy, kv_miss_result, rejected_or_abstained,
}
use mlcache.Runtime.Lookup.{
  lookup_with_query_level_active, on_evaluation, serve_accepted, serve_key, with_parts, on_record,
}

module _ {F : Type 0} ⦃fl : FloatOps F⦄ where
  -- The policy accepts the response's key: it selected a candidate with this key of a record, and
  -- the candidate's score passes the threshold in force.
  abbrev pub Selected :
      QueryLevelLearnedPolicy F
      → Option F
      → List (QueryCalibrationCandidate F)
      → QueryLevelPolicyDecision F
      → Type 0
  Selected p threshold cs d =
      (c : QueryCalibrationCandidate F) × (t : F) × (p.selection_fn cs ≡ ok (some c))
      × (effective_threshold threshold p.threshold ≡ some t)
      × (predict_score p.tie_mode c.score t ≡ true)
      × (d.selected_candidate_key ≡ c.candidate_key)

  on_selected_accepted :
      (p : QueryLevelLearnedPolicy F) (n : ℕ) (threshold : Option F)
      (o : Option (QueryCalibrationCandidate F))
      → (on_selection p.tie_mode n threshold o).accepted ≡ true
      → (c : QueryCalibrationCandidate F) × (t : F) × (o ≡ some c)
        × (threshold ≡ some t)
        × (predict_score p.tie_mode c.score t ≡ true)
        × ((on_selection p.tie_mode n threshold o).selected_candidate_key ≡ c.candidate_key)
  on_selected_accepted p n threshold none a = absurd (ground arith)
  on_selected_accepted p n none (some c) a = absurd (ground arith)
  on_selected_accepted p n (some t) (some c) a = (c, t, refl, refl, a, refl)

  accepted_candidates :
      (p : QueryLevelLearnedPolicy F) (threshold : Option F)
      (cs : List (QueryCalibrationCandidate F)) (d : QueryLevelPolicyDecision F)
      → evaluate_candidates p (effective_threshold threshold p.threshold) cs ≡ ok d
      → d.accepted ≡ true
      → Selected p threshold cs d
  accepted_candidates p threshold [] d h a =
      absurd (true_false (sym a ∙ ap (λ x. x.accepted) (sym (ok_injective h))))
    where
      true_false : true ≡ false → ⊥
      true_false e = ground arith
  accepted_candidates p threshold (c ∷ cs) d h a =
      let t = effective_threshold threshold p.threshold in
      let n = length (c ∷ cs) in
      let (o, e, f) = bind_ok (p.selection_fn (c ∷ cs)) _ d h in
      let q : on_selection p.tie_mode n t o ≡ d = ok_injective f in
      let (best, tau, oe, te, pass, key) =
        on_selected_accepted p n t o (ap (λ x. x.accepted) q ∙ a) in
      (best, tau, e ∙ ap (λ x. ok x) oe, te, pass, sym (ap (λ x. x.selected_candidate_key) q) ∙ key)

module _ {F : Type 0} ⦃fl : FloatOps F⦄ (o : Oracle F) (strip : String → String)
    (request : CacheLookup F) (pair : CacheGatewayResult F) (rt : Runtime F o.State) where
  -- The result is the pair-level one.
  abbrev pub IsFallback : RuntimeResult F → Type 0
  IsFallback r = (r.response ≡ pair.response) × (r.decision ≡ pair.decision)

  -- Nothing is served.
  abbrev pub IsRefusal : RuntimeResult F → Type 0
  IsRefusal r = (r.response ≡ none) × (r.decision.accepted ≡ false)

  -- The response stored under the key of the candidate that the policy selects of the query's
  -- latest record, and that passes the threshold in force.
  abbrev pub IsServed : RuntimeResult F → Type 0
  IsServed r =
      (p : QueryLevelLearnedPolicy F) × (store : BoundedStore (QueryCalibrationRecord F))
      × (rec : QueryCalibrationRecord F) × (d : QueryLevelPolicyDecision F) × (key : CacheKey)
      × (response : Response) × (rt.query_level_policy ≡ some p)
      × (rt.query_record_store ≡ some store)
      × (latest strip request store.items ≡ some rec)
      × Selected p (query_level_threshold rt) rec.candidates d
      × (d.selected_candidate_key ≡ some key)
      × (KvStore.get rt.gateway.kv_store key ≡ some response)
      × (r.response ≡ some response)
      × (r.decision.accepted ≡ true)
      × (r.decision.cache_key ≡ some key)

  -- One of the three.
  abbrev pub Justified : RuntimeResult F → Type 0
  Justified r = IsFallback r ⊎ (IsRefusal r ⊎ IsServed r)

  kv_miss_lem :
      (fallback : Bool) (d : QueryLevelPolicyDecision F) (m : ActiveMetadata F) (reason : String)
      → Justified (kv_miss_result fallback pair d m reason)
  kv_miss_lem true d m reason = inl (refl, refl)
  kv_miss_lem false d m reason = inr (inl (refl, refl))

  without_lem :
      (fallback : Bool) (t : Option F) (m : ActiveMetadata F) (reason : String)
      → Justified (no_record_or_policy fallback pair t m reason)
  without_lem true t m reason = inl (refl, refl)
  without_lem false t m reason = inr (inl (refl, refl))

  rejected_lem :
      (fallback : Bool) (d : QueryLevelPolicyDecision F) (m : ActiveMetadata F)
      → Justified (rejected_or_abstained fallback pair d m)
  rejected_lem true d m = inl (refl, refl)
  rejected_lem false d m = inr (inl (refl, refl))

  found_lem :
      (p : QueryLevelLearnedPolicy F) (store : BoundedStore (QueryCalibrationRecord F))
      (rec : QueryCalibrationRecord F) (d : QueryLevelPolicyDecision F) (m : ActiveMetadata F)
      → rt.query_level_policy ≡ some p
      → rt.query_record_store ≡ some store
      → latest strip request store.items ≡ some rec
      → Selected p (query_level_threshold rt) rec.candidates d
      → (key : CacheKey) → d.selected_candidate_key ≡ some key
      → (x : Option Response) → KvStore.get rt.gateway.kv_store key ≡ x
      → Justified (serve_key o strip pair d m rt key x).0
  found_lem p store rec d m ep es er sel key ek none e =
      kv_miss_lem rt.config.fallback_to_pair_level_on_kv_miss d m
        "query_level_kv_key_missing_or_expired"
  found_lem p store rec d m ep es er sel key ek (some response) e =
      inr (inr (p, store, rec, d, key, response, ep, es, er, sel, ek, e, refl, refl, refl))

  accepted_lem :
      (p : QueryLevelLearnedPolicy F) (store : BoundedStore (QueryCalibrationRecord F))
      (rec : QueryCalibrationRecord F) (d : QueryLevelPolicyDecision F) (m : ActiveMetadata F)
      → rt.query_level_policy ≡ some p
      → rt.query_record_store ≡ some store
      → latest strip request store.items ≡ some rec
      → Selected p (query_level_threshold rt) rec.candidates d
      → (k : Option CacheKey) → d.selected_candidate_key ≡ k
      → Justified (serve_accepted o strip pair d m rt k).0
  accepted_lem p store rec d m ep es er sel none ek =
      kv_miss_lem rt.config.fallback_to_pair_level_on_kv_miss d m
        "query_level_selected_candidate_key_missing"
  accepted_lem p store rec d m ep es er sel (some key) ek =
      found_lem p store rec d m ep es er sel key ek (KvStore.get rt.gateway.kv_store key) refl

  evaluated_lem :
      (p : QueryLevelLearnedPolicy F) (store : BoundedStore (QueryCalibrationRecord F))
      (rec : QueryCalibrationRecord F)
      → rt.query_level_policy ≡ some p
      → rt.query_record_store ≡ some store
      → latest strip request store.items ≡ some rec
      → (run : Result (QueryLevelPolicyDecision F))
      → evaluate p rec (query_level_threshold rt) ≡ run
      → Justified (on_evaluation o strip pair rt run).0
  unfolding evaluate
  evaluated_lem p store rec ep es er (raise e) h = inl (refl, refl)
  evaluated_lem p store rec ep es er (ok d) h =
      let m = decision_metadata d (base_metadata pair (query_level_threshold rt)) in
      let served : RuntimeResult F × Runtime F o.State =
        serve_accepted o strip pair d m rt d.selected_candidate_key in
      let rejected : RuntimeResult F × Runtime F o.State =
        (rejected_or_abstained rt.config.fallback_to_pair_level_on_abstain pair d m, rt) in
      elim (Bool-cases d.accepted) [
        | inl a ↦
            subst (λ x. Justified x.0) (sym (if_true served rejected a))
              (accepted_lem p store rec d m ep es er
                (accepted_candidates p (query_level_threshold rt) rec.candidates d h a)
                d.selected_candidate_key refl)
        | inr a ↦
            subst (λ x. Justified x.0) (sym (if_false served rejected a))
              (rejected_lem rt.config.fallback_to_pair_level_on_abstain d m)
      ]

  recorded_lem :
      (p : QueryLevelLearnedPolicy F) (store : BoundedStore (QueryCalibrationRecord F))
      → rt.query_level_policy ≡ some p
      → rt.query_record_store ≡ some store
      → (x : Option (QueryCalibrationRecord F)) → latest strip request store.items ≡ x
      → Justified (on_record o strip pair rt p x).0
  recorded_lem p store ep es none e =
      without_lem rt.config.fallback_to_pair_level_on_missing_record (query_level_threshold rt)
        (base_metadata pair (query_level_threshold rt)) "query_level_record_missing"
  recorded_lem p store ep es (some rec) e =
      evaluated_lem p store rec ep es e (evaluate p rec (query_level_threshold rt)) refl

  parts_lem :
      (p : Option (QueryLevelLearnedPolicy F))
      → rt.query_level_policy ≡ p
      → (store : Option (BoundedStore (QueryCalibrationRecord F))) → rt.query_record_store ≡ store
      → Justified (with_parts o strip request pair rt p store).0
  parts_lem none ep store es =
      without_lem rt.config.fallback_to_pair_level_on_missing_record (query_level_threshold rt)
        (base_metadata pair (query_level_threshold rt)) "query_level_policy_missing"
  parts_lem (some p) ep none es =
      without_lem rt.config.fallback_to_pair_level_on_missing_record (query_level_threshold rt)
        (base_metadata pair (query_level_threshold rt)) "query_level_record_missing"
  parts_lem (some p) ep (some store) es =
      recorded_lem p store ep es (latest strip request store.items) refl

  -- A lookup under the active query-level policy ends in one of three ways: with the response and
  -- the decision of the pair-level lookup; with no response and a decision that accepts nothing;
  -- or with the response that the key-value store has under the key of the decision, where the
  -- policy selected a candidate with this key from the latest record of the query, and the
  -- candidate's score passes the threshold in force. The policy's selection may answer anything
  -- and may raise.
  pub lookup_with_query_level_active-Justified :
      Justified (lookup_with_query_level_active o strip request pair rt).0
  unfolding lookup_with_query_level_active
  lookup_with_query_level_active-Justified =
      parts_lem rt.query_level_policy refl rt.query_record_store refl
