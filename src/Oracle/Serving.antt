-- ===== src/Oracle/Serving.antt =====
-- src/mlcache/oracle/trainable.py: which candidate `_score_request_with_snapshot` serves.
use mlcache.Prelude.{bind_ok, ok_injective}
use mlcache.Prelude.{
  ℕ, ◌≡◌, refl, sym, ap, ◌∙◌, subst, ◌⊎◌, inl, inr, true, false, Option, none, some, List, [], ◌∷◌,
  arith, Bool-cases, if_true, if_false, length, get_elem?, All, get_elem?-All, ok,
}
use mlcache.Float.{FloatOps, FloatLaws}
use mlcache.Types.{OracleDecision, hit}
use mlcache.Oracle.{Models, VectorSearchResult, OracleRuntimeSnapshot}
use mlcache.Oracle.Score.{
  OracleScoredResult, Best, start, scan_from, serve, by_threshold, scored_result, decide_on,
  score_request,
}
use mlcache.Oracle.Best.{Passes, IsSeen, AllSeen, IsBest, scan_from-IsBest}

module _ {F : Type 0} {X : Type 0} {Sc : Type 0} ⦃fl : FloatOps F⦄ (m : Models F X Sc) where
  -- With a threshold and hits enabled, the decision is that on the loop's best candidate.
  abbrev pub ByBest :
      OracleRuntimeSnapshot F Sc
      → F
      → List F
      → List (VectorSearchResult F)
      → OracleDecision F
      → Type 0
  ByBest snapshot t query candidates d =
      (scored : List F) × (best : Option (Best F X)) × IsBest m snapshot.scorer t snapshot.tie_mode
        query candidates best
      × (serve m snapshot (length candidates) scored best ≡ d)

  -- A decision that serves a best candidate: hits are enabled, there is a threshold, the candidate
  -- passes it at the rank named, and no candidate that passes has a greater score.
  pub ServesBest :
      OracleRuntimeSnapshot F Sc → List F → List (VectorSearchResult F) → OracleDecision F → Type 0
  ServesBest snapshot query candidates d =
      (t : F) × (b : Best F X) × (snapshot.semantic_hits_disabled ≡ false)
      × (snapshot.threshold ≡ some t)
      × IsSeen m snapshot.scorer t snapshot.tie_mode query candidates b
      × (d.status ≡ hit)
      × (d.cache_key ≡ some b.candidate.cache_key)
      × (d.accepted_candidate_rank ≡ some b.rank)
      × (d.score ≡ some b.score)
      × All
          (λ c.
            (s : F)
            → Passes m snapshot.scorer t snapshot.tie_mode query c s
            → fl.lt b.score s ≡ false)
          candidates

  decision-scored_result :
      (cs : List (VectorSearchResult F)) (c : VectorSearchResult F) (x : X) (s : Option F)
      (d : OracleDecision F) (best : Option (Best F X))
      → (scored_result cs c x s d best).decision ≡ d
  decision-scored_result cs c x s d none = refl
  decision-scored_result cs c x s d (some b) = refl

  module _ (laws : FloatLaws fl) (snapshot : OracleRuntimeSnapshot F Sc) (query : List F) where
    by_threshold-ByBest :
        (cs : List (VectorSearchResult F)) (c : VectorSearchResult F) (x : X) (t : F)
        (r : OracleScoredResult F X)
        → by_threshold m snapshot query cs c x (some t) ≡ ok r
        → ByBest snapshot t query cs r.decision
    unfolding by_threshold IsBest AllSeen
    by_threshold-ByBest cs c x t r h =
        let (scan, e, f) =
          bind_ok (scan_from m snapshot.scorer t snapshot.tie_mode query 1 cs start) _ r h in
        (
          scan.scored,
          scan.best,
          scan_from-IsBest m snapshot.scorer t snapshot.tie_mode query laws [] cs start scan
              (tt, tt) e,
          sym (decision-scored_result cs c x _ _ scan.best) ∙ ap (λ o. o.decision) (ok_injective f),
        )

    score_request_active :
        (candidates : List (VectorSearchResult F)) (r : OracleScoredResult F X) (t : F)
        → snapshot.semantic_hits_disabled ≡ false
        → snapshot.threshold ≡ some t
        → score_request m snapshot query (ok candidates) ≡ ok r
        → (candidates ≡ []) ⊎ ByBest snapshot t query candidates r.decision
    unfolding score_request decide_on
    score_request_active [] r t d e h = inl refl
    score_request_active (c ∷ cs) r t d e h =
        let (x, b, f) = bind_ok (m.build query c.embedding) _ r h in
        let g : by_threshold m snapshot query (c ∷ cs) c x snapshot.threshold ≡ ok r =
          subst (λ y. y ≡ ok r) (if_false _ _ d) f in
        inr (
          by_threshold-ByBest (c ∷ cs) c x t r
            (subst (λ y. by_threshold m snapshot query (c ∷ cs) c x y ≡ ok r) e g))

    -- Only an enabled snapshot with a threshold accepts.
    by_threshold_accepts :
        (cs : List (VectorSearchResult F)) (c : VectorSearchResult F) (x : X) (th : Option F)
        (r : OracleScoredResult F X)
        → by_threshold m snapshot query cs c x th ≡ ok r
        → r.decision.accepted ≡ true
        → (t : F) × (th ≡ some t)
    unfolding by_threshold
    by_threshold_accepts cs c x none r h a =
        absurd (ground (arith, ap (λ o. o.decision.accepted) (ok_injective h)))
    by_threshold_accepts cs c x (some t) r h a = (t, refl)

    score_request_accepts :
        (candidates : List (VectorSearchResult F)) (r : OracleScoredResult F X)
        → score_request m snapshot query (ok candidates) ≡ ok r
        → r.decision.accepted ≡ true
        → (t : F) × (snapshot.semantic_hits_disabled ≡ false) × (snapshot.threshold ≡ some t)
    unfolding score_request decide_on
    score_request_accepts [] r h a =
        absurd (ground (arith, ap (λ o. o.decision.accepted) (ok_injective h)))
    score_request_accepts (c ∷ cs) r h a =
        let (x, b, f) = bind_ok (m.build query c.embedding) _ r h in
        elim (Bool-cases snapshot.semantic_hits_disabled) [
          | inl e ↦ absurd (
              let q = subst (λ y. y ≡ ok r) (if_true _ _ e) f in
              ground (arith, ap (λ o. o.decision.accepted) (ok_injective q)))
          | inr e ↦
              let q = subst (λ y. y ≡ ok r) (if_false _ _ e) f in
              let (t, g) = by_threshold_accepts (c ∷ cs) c x snapshot.threshold r q a in (t, e, g)
        ]

    empty_refuses :
        (r : OracleScoredResult F X)
        → score_request m snapshot query (ok []) ≡ ok r
        → r.decision.accepted ≡ true
        → ⊥
    unfolding score_request
    empty_refuses r h a = ground (arith, ap (λ o. o.decision.accepted) (ok_injective h))

    serve_accepted :
        (t : F) (candidates : List (VectorSearchResult F)) (d : OracleDecision F) (scored : List F)
        (best : Option (Best F X))
        → snapshot.semantic_hits_disabled ≡ false
        → snapshot.threshold ≡ some t
        → d.accepted ≡ true
        → IsBest m snapshot.scorer t snapshot.tie_mode query candidates best
        → serve m snapshot (length candidates) scored best ≡ d
        → ServesBest snapshot query candidates d
    unfolding ServesBest IsBest AllSeen
    serve_accepted t candidates d scored none e g a h q =
        absurd (ground (arith, ap (λ o. o.accepted) q))
    serve_accepted t candidates d scored (some b) e g a (p, k) q = (
      t,
      b,
      e,
      g,
      p,
      sym (ap (λ o. o.status) q),
      sym (ap (λ o. o.cache_key) q),
      sym (ap (λ o. o.accepted_candidate_rank) q),
      sym (ap (λ o. o.score) q),
      k,
    )

    -- A request whose decision is accepted is served a best candidate: semantic hits are enabled
    -- and there is a threshold; the key, the rank and the score are those of a candidate at that
    -- place of the search result, whose score passes the threshold under the tie mode; and no
    -- candidate that passes has a greater score. Floats obey the order laws.
    pub score_request-ServesBest :
        (candidates : List (VectorSearchResult F)) (r : OracleScoredResult F X)
        → score_request m snapshot query (ok candidates) ≡ ok r
        → r.decision.accepted ≡ true
        → ServesBest snapshot query candidates r.decision
    score_request-ServesBest candidates r h a =
        let (t, e, g) = score_request_accepts candidates r h a in
        elim (score_request_active candidates r t e g h) [
          | inl n ↦
              absurd
                (empty_refuses r (subst (λ c. score_request m snapshot query (ok c) ≡ ok r) n h) a)
          | inr (scored, best, p, q) ↦ serve_accepted t candidates r.decision scored best e g a p q
        ]

    serve_not_beaten :
        (t : F) (c : VectorSearchResult F) (s : F) (candidates : List (VectorSearchResult F))
        (k : ℕ) (scored : List F) (best : Option (Best F X))
        → IsBest m snapshot.scorer t snapshot.tie_mode query candidates best
        → get_elem? candidates k ≡ some c
        → Passes m snapshot.scorer t snapshot.tie_mode query c s
        → (serve m snapshot (length candidates) scored best).accepted ≡ true
    unfolding IsBest
    serve_not_beaten t c s candidates k scored (some b) h g p = refl
    serve_not_beaten t c s candidates k scored none h g p = absurd (
        get_elem?-All (λ d. (r : F) → Passes m snapshot.scorer t snapshot.tie_mode query d r → ⊥)
          candidates k c h.1 g s p)

    -- A request that has a candidate to serve is served: while semantic hits are enabled and there
    -- is a threshold, if the score of some candidate passes it and the scan returns, then the
    -- decision is accepted. Floats obey the order laws.
    pub score_request-accepts :
        (candidates : List (VectorSearchResult F)) (r : OracleScoredResult F X) (t : F) (k : ℕ)
        (c : VectorSearchResult F) (s : F)
        → snapshot.semantic_hits_disabled ≡ false
        → snapshot.threshold ≡ some t
        → get_elem? candidates k ≡ some c
        → Passes m snapshot.scorer t snapshot.tie_mode query c s
        → score_request m snapshot query (ok candidates) ≡ ok r
        → r.decision.accepted ≡ true
    score_request-accepts candidates r t k c s e g n p h =
        elim (score_request_active candidates r t e g h) [
          | inl z ↦ absurd (nothing_at k c (subst (λ l. get_elem? l k ≡ some c) z n))
          | inr (scored, best, i, q) ↦
              subst (λ d. d.accepted ≡ true) q
                (serve_not_beaten t c s candidates k scored best i n p)
        ]
      where
        nothing_at : (j : ℕ) (a : VectorSearchResult F) → get_elem? [] j ≡ some a → ⊥
        nothing_at j a w = ground arith
