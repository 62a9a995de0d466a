-- ===== src/Feedback/Shadow/Conserved.antt =====
-- src/mlcache/feedback/shadow_collector.py: the counters of `collect` account for every pair.
use mlcache.Prelude.{
  ℕ, ◌+◌, ◌≤◌, String, ◌≡◌, sym, subst, ◌⊎◌, inl, inr, Bool, true, false, List, [], ◌∷◌, ◌++◌,
  arith, Bool-cases, if_true, if_false, length, length-append, Error, Result, ok, raise,
}
use mlcache.Float.{FloatOps}
use mlcache.Types.{CacheKey, CacheLookup, OracleDecision}
use mlcache.Oracle.{VectorSearchResult}
use mlcache.Oracle.Feedback.{JudgeLabel}
use mlcache.Feedback.Shadow.{
  ShadowCollectionConfig, Counts, PairFeatures, Prepared, enough_pairs, should_skip_candidate,
  next_split,
}
use mlcache.Feedback.Shadow.Collect.{
  JudgeResult, TrainingStore, Stop, go, commit_and_raise, raise_at_once, Run, failed, stop_if,
  example_of, store_example, on_uncertain, prepare_built, prepare_one, then_prepare, prepare,
  store_labeled, store_uncertain, on_stored, by_label, on_outcome, then_loop, judge_all,
}

-- The counters of the first loop: each pair that was observed failed or waits for the judge.
unfoldable pub Prep : Counts → ℕ → ℕ → Type 0
Prep n waiting turns =
    (n.pairs_observed ≡ n.failures + waiting)
    × ((n.judge_calls ≡ 0) × (n.h0_added + (n.h1_added + n.uncertain) ≡ 0))
    × (n.pairs_observed + n.skipped ≤ turns)

-- The counters of the second loop: each pair has a label, or failed, or waits.
unfoldable pub Judging : Counts → ℕ → ℕ → Type 0
Judging n waiting turns =
    (n.pairs_observed ≡ n.h0_added + (n.h1_added + n.uncertain) + (n.failures + waiting))
    × (n.judge_calls + waiting ≤ n.pairs_observed)
    × (n.pairs_observed + n.skipped ≤ turns)

-- When `collect` may raise.
unfoldable pub MayRaise : {F : Type 0} → ShadowCollectionConfig F → Type 0
MayRaise c = (c.raise_on_failure ≡ true) ⊎ (c.collect_uncertain ≡ true)

nothing_more_lem : (n : Counts) (w t u : ℕ) → Prep n w t → t ≤ u → Prep n (w + 0) u
unfolding Prep
nothing_more_lem n w t u (h, zy, k) le = (ground arith, zy, ground arith)

module _ {F : Type 0} where
  unfoldable pub PreparedAs :
      ShadowCollectionConfig F → Stop × (Counts × List (Prepared F)) → ℕ → ℕ → Type 0
  PreparedAs c (go, (n, ps)) waiting turns = Prep n (waiting + length ps) turns
  PreparedAs c (commit_and_raise e, r) waiting turns = MayRaise c
  PreparedAs c (raise_at_once e, r) waiting turns = MayRaise c

  unfoldable pub JudgedAs : {S : Type 0} → ShadowCollectionConfig F → Stop × Run S → ℕ → ℕ → Type 0
  JudgedAs c (go, r) waiting turns = Judging r.counts waiting turns
  JudgedAs c (commit_and_raise e, r) waiting turns = MayRaise c
  JudgedAs c (raise_at_once e, r) waiting turns = MayRaise c

module _ {F : Type 0} ⦃fl : FloatOps F⦄ (build : List F → List F → Result (PairFeatures F))
    (strip : String → String) (c : ShadowCollectionConfig F) (request : CacheLookup F)
    (served : OracleDecision F) where
  built_lem :
      (rank : ℕ) (x : VectorSearchResult F) (r : Result (PairFeatures F)) (n : Counts) (w t : ℕ)
      → n.pairs_observed ≡ n.failures + w + 1
      → n.judge_calls ≡ 0
      → n.h0_added + (n.h1_added + n.uncertain) ≡ 0
      → n.pairs_observed + n.skipped ≤ t
      → PreparedAs c (prepare_built build strip c request served rank x r n) w t
  unfolding PreparedAs Prep MayRaise
  built_lem rank x (ok f) n w t h z y k = (ground arith, (z, y), k)
  built_lem rank x (raise e) n w t h z y k = elim (Bool-cases c.raise_on_failure) [
    | inl b ↦ subst (λ s. PreparedAs c (s, (failed n, [])) w t) (sym (if_true _ _ b)) (inl b)
    | inr b ↦
        subst (λ s. PreparedAs c (s, (failed n, [])) w t) (sym (if_false _ _ b))
          (ground arith, (z, y), k)
  ]

  one_lem :
      (rank : ℕ) (x : VectorSearchResult F) (skip : Bool) (n : Counts) (w t : ℕ)
      → Prep n w t
      → PreparedAs c (prepare_one build strip c request served rank x skip n) w (t + 1)
  unfolding PreparedAs Prep
  one_lem rank x true n w t (h, (z, y), k) = (ground arith, (z, y), ground arith)
  one_lem rank x false n w t (h, (z, y), k) =
      built_lem rank x _ _ w (t + 1) (ground arith) z y (ground arith)

  then_lem :
      (r : Stop × (Counts × List (Prepared F)))
      (next : Counts → Stop × (Counts × List (Prepared F))) (w t u : ℕ)
      → PreparedAs c r w t
      → ((n : Counts) (v : ℕ) → Prep n v t → PreparedAs c (next n) v u)
      → PreparedAs c (then_prepare build strip c request served r next) w u
  unfolding PreparedAs
  then_lem (go, (n, ps)) next w t u h later = appended (next n) (later n (w + length ps) h)
    where
      appended :
          (q : Stop × (Counts × List (Prepared F)))
          → PreparedAs c q (w + length ps) u
          → PreparedAs c (q.0, (q.1.0, ps ++ q.1.1)) w u
      appended (go, (m, qs)) k = subst (λ l. Prep m l u) (ground (arith, length-append ps qs)) k
      appended (commit_and_raise e, q) k = k
      appended (raise_at_once e, q) k = k
  then_lem (commit_and_raise e, r) next w t u h later = h
  then_lem (raise_at_once e, r) next w t u h later = h

  pub prepare_lem :
      (rank : ℕ) (xs : List (VectorSearchResult F)) (seen : List CacheKey) (n : Counts) (w t : ℕ)
      → Prep n w t
      → PreparedAs c (prepare build strip c request served rank xs seen n) w (t + length xs)
  unfolding prepare PreparedAs
  prepare_lem rank [] seen n w t h = nothing_more_lem n w t (t + 0) h (ground arith)
  prepare_lem rank (x ∷ xs) seen n w t h =
      let (skip, seen') = should_skip_candidate strip c request served x seen in
      let more =
        then_lem (prepare_one build strip c request served rank x skip n)
          (λ m. prepare build strip c request served (rank + 1) xs seen' m) w (t + 1)
          (t + length (x ∷ xs)) (one_lem rank x skip n w t h)
          (λ m v k.
            subst
              (λ u. PreparedAs c (prepare build strip c request served (rank + 1) xs seen' m) v u)
              (ground arith) (prepare_lem (rank + 1) xs seen' m v (t + 1) k)) in
      elim (Bool-cases (enough_pairs c.max_pairs_per_request n.pairs_observed)) [
        | inl b ↦
            subst (λ s. PreparedAs c s w (t + length (x ∷ xs))) (sym (if_true _ _ b))
              (nothing_more_lem n w t (t + length (x ∷ xs)) h (ground arith))
        | inr b ↦ subst (λ s. PreparedAs c s w (t + length (x ∷ xs))) (sym (if_false _ _ b)) more
      ]

module _ {F : Type 0} ⦃fl : FloatOps F⦄ (ts : TrainingStore F) (c : ShadowCollectionConfig F) where
  stop_if_lem :
      (e : Error) (r : Run ts.State) (w t : ℕ)
      → Judging r.counts w t
      → JudgedAs c (stop_if c.raise_on_failure e, r) w t
  unfolding JudgedAs MayRaise
  stop_if_lem e r w t h = elim (Bool-cases c.raise_on_failure) [
    | inl b ↦ subst (λ s. JudgedAs c (s, r) w t) (sym (if_true _ _ b)) (inl b)
    | inr b ↦ subst (λ s. JudgedAs c (s, r) w t) (sym (if_false _ _ b)) h
  ]

  stored_lem :
      (label : JudgeLabel) (answer : Result (Unit {0})) (r : Run ts.State) (w t : ℕ)
      → r.counts.pairs_observed
        ≡ r.counts.h0_added + (r.counts.h1_added + r.counts.uncertain) + (r.counts.failures + w) + 1
      → r.counts.judge_calls + w ≤ r.counts.pairs_observed
      → r.counts.pairs_observed + r.counts.skipped ≤ t
      → JudgedAs c (on_stored ts c label answer r) w t
  unfolding JudgedAs Judging
  stored_lem JudgeLabel.reusable (ok u) r w t h j k = (ground arith, j, k)
  stored_lem JudgeLabel.not_reusable (ok u) r w t h j k = (ground arith, j, k)
  stored_lem JudgeLabel.uncertain (ok u) r w t h j k = (ground arith, j, k)
  stored_lem label (raise e) r w t h j k = stop_if_lem e _ w t (ground arith, j, k)

  uncertain_lem :
      (p : Prepared F) (j : JudgeResult) (r : Run ts.State) (w t : ℕ)
      → Judging r.counts w t
      → JudgedAs c (store_uncertain ts c p j r) w t
  unfolding JudgedAs MayRaise
  uncertain_lem p j r w t h =
      let (answer, s) = ts.add_train (example_of ts c p j) r.store in
      let told = on_uncertain ts c answer (record r { store = s }) in
      elim (Bool-cases c.collect_uncertain) [
        | inl b ↦
            subst (λ (o : Stop × Run ts.State). JudgedAs c o w t) (sym (if_true told (go, r) b))
              (answered b answer s)
        | inr b ↦
            subst (λ (o : Stop × Run ts.State). JudgedAs c o w t) (sym (if_false told (go, r) b)) h
      ]
    where
      answered :
          (b : c.collect_uncertain ≡ true) (answer : Result (Unit {0})) (s : ts.State)
          → JudgedAs c (on_uncertain ts c answer (record r { store = s })) w t
      answered b (ok u) s = h
      answered b (raise e) s = inr b

  labeled_lem :
      (p : Prepared F) (j : JudgeResult) (r : Run ts.State) (w t : ℕ)
      → r.counts.pairs_observed
        ≡ r.counts.h0_added + (r.counts.h1_added + r.counts.uncertain) + (r.counts.failures + w) + 1
      → r.counts.judge_calls + w ≤ r.counts.pairs_observed
      → r.counts.pairs_observed + r.counts.skipped ≤ t
      → JudgedAs c (store_labeled ts c p j r) w t
  labeled_lem p j r w t h i k =
      let (calibration, splits) = next_split c j.label r.splits in
      let (answer, s) = store_example ts c calibration (example_of ts c p j) r.store in
      stored_lem j.label answer (record r { splits = splits; store = s }) w t h i k

  outcome_lem :
      (p : Prepared F) (a : Result JudgeResult) (r : Run ts.State) (w t : ℕ)
      → Judging r.counts (w + 1) t
      → JudgedAs c (on_outcome ts c p a r) w t
  unfolding on_outcome Judging
  outcome_lem p (raise e) r w t (h, i, k) = stop_if_lem e _ w t (ground arith, ground arith, k)
  outcome_lem p (ok j) r w t (h, i, k) = labels_lem j.label _ (ground arith) (ground arith) k
    where
      labels_lem :
          (label : JudgeLabel) (q : Run ts.State)
          → q.counts.pairs_observed
            ≡ q.counts.h0_added
              + (q.counts.h1_added + q.counts.uncertain)
              + (q.counts.failures + w)
              + 1
          → q.counts.judge_calls + w ≤ q.counts.pairs_observed
          → q.counts.pairs_observed + q.counts.skipped ≤ t
          → JudgedAs c (by_label ts c label p j q) w t
      labels_lem JudgeLabel.uncertain q h i k = uncertain_lem p j _ w t (ground arith, i, k)
      labels_lem JudgeLabel.reusable q h i k = labeled_lem p j q w t h i k
      labels_lem JudgeLabel.not_reusable q h i k = labeled_lem p j q w t h i k

  pub judge_all_lem :
      (judge : Prepared F → Result JudgeResult) (ps : List (Prepared F)) (r : Run ts.State) (t : ℕ)
      → Judging r.counts (length ps) t
      → JudgedAs c (judge_all ts c judge ps r) 0 t
  unfolding judge_all JudgedAs
  judge_all_lem judge [] r t h = h
  judge_all_lem judge (p ∷ ps) r t h =
      later (on_outcome ts c p (judge p) r)
        (outcome_lem p (judge p) r (length ps) t
          (subst (λ l. Judging r.counts l t) (ground arith) h))
        (λ q k. judge_all_lem judge ps q t k)
    where
      later :
          (o : Stop × Run ts.State)
          → JudgedAs c o (length ps) t
          → ((q : Run ts.State)
              → Judging q.counts (length ps) t
              → JudgedAs c (judge_all ts c judge ps q) 0 t)
          → JudgedAs c (then_loop ts c o (λ q. judge_all ts c judge ps q)) 0 t
      later (go, q) k rest = rest q k
      later (commit_and_raise e, q) k rest = k
      later (raise_at_once e, q) k rest = k
