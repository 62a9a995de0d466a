-- ===== src/Oracle/Best.antt =====
-- src/mlcache/oracle/trainable.py: the best candidate of the loop in
-- `_score_request_with_snapshot`.
use mlcache.Prelude.{bind_ok, get_elem?-append, get_elem?_last, append_nil, append_step}
use mlcache.Prelude.{
  ℕ, ◌+◌, ◌≡◌, refl, sym, ap, subst, inl, inr, Bool, true, false, Option, none, some, List, [], ◌∷◌,
  ◌++◌, arith, if◌then◌else◌, Bool-cases, if_true, if_false, length, get_elem?, All, length-append,
  All-append, All-map, Error, Result, ok, raise,
}
use mlcache.Float.{FloatOps, FloatLaws, lt_trans}
use mlcache.Types.{TieMode}
use mlcache.Threshold.{predict_score}
use mlcache.Oracle.{Models, VectorSearchResult}
use mlcache.Oracle.Score.{Best, Scan, better, visit, scan_from, safe_score}

module _ {F : Type 0} {X : Type 0} {Sc : Type 0} ⦃fl : FloatOps F⦄ (m : Models F X Sc) (sc : Sc)
    (t : F) (tie : TieMode) (query : List F) where
  -- The candidate's score is `s`, and the threshold accepts it.
  abbrev pub Passes : VectorSearchResult F → F → Type 0
  Passes c s =
      (x : X) × (m.build query c.embedding ≡ ok x)
      × (m.score sc x ≡ ok s)
      × (predict_score tie s t ≡ true)

  -- The best so far is one of the candidates seen, and it passes.
  abbrev pub IsSeen : List (VectorSearchResult F) → Best F X → Type 0
  IsSeen seen b =
      (k : ℕ) × (b.rank ≡ k + 1)
      × (get_elem? seen k ≡ some b.candidate)
      × Passes b.candidate b.score

  unfoldable pub AllSeen : List (VectorSearchResult F) → Option (Best F X) → Type 0
  AllSeen seen none = Unit
  AllSeen seen (some b) = IsSeen seen b

  -- No score is above the best one.
  abbrev pub NotBeaten : F → Option (Best F X) → Type 0
  NotBeaten s none = ⊥
  NotBeaten s (some b) = fl.lt b.score s ≡ false

  unfoldable pub IsBest : List (VectorSearchResult F) → Option (Best F X) → Type 0
  unfolding AllSeen
  IsBest seen best = AllSeen seen best × All (λ c. (s : F) → Passes c s → NotBeaten s best) seen

  AllSeen-append :
      (seen more : List (VectorSearchResult F)) (best : Option (Best F X))
      → AllSeen seen best
      → AllSeen (seen ++ more) best
  unfolding AllSeen
  AllSeen-append seen more none h = tt
  AllSeen-append seen more (some b) (k, e, g, p) =
      (k, e, get_elem?-append seen more k b.candidate g, p)

  same_score :
      (c : VectorSearchResult F) (x : X) (s r : F)
      → m.build query c.embedding ≡ ok x
      → m.score sc x ≡ ok s
      → Passes c r
      → (s ≡ r) × (predict_score tie s t ≡ true)
  same_score c x s r e f (y, b, g, p) =
      let u : x ≡ y = ground arith in
      let v : s ≡ r = ground arith in (v, subst (λ z. predict_score tie z t ≡ true) (sym v) p)

  -- A candidate that does not pass, or does not beat the best one, changes nothing.
  keep-IsBest :
      (seen : List (VectorSearchResult F)) (c : VectorSearchResult F) (best : Option (Best F X))
      → ((s : F) → Passes c s → NotBeaten s best)
      → IsBest seen best
      → IsBest (seen ++ c ∷ []) best
  unfolding IsBest
  keep-IsBest seen c best h (p, q) = (
    AllSeen-append seen (c ∷ []) best p,
    All-append (λ d. (s : F) → Passes d s → NotBeaten s best) seen (c ∷ []) q (h, tt),
  )

  not_better : (s : F) (best : Option (Best F X)) → better true s best ≡ false → NotBeaten s best
  not_better s none h = absurd (ground arith)
  not_better s (some b) h = h

  better-true : (p : Bool) (s : F) (best : Option (Best F X)) → better p s best ≡ true → p ≡ true
  better-true p s none h = h
  better-true p s (some b) h = ground arith

  better_of :
      (p : Bool) (s : F) (best : Option (Best F X))
      → better p s best ≡ true
      → better true s best ≡ true
  better_of p s none h = refl
  better_of p s (some b) h = ground arith

  kept_lem :
      (c : VectorSearchResult F) (x : X) (s r : F) (best : Option (Best F X))
      → m.build query c.embedding ≡ ok x
      → m.score sc x ≡ ok s
      → better (predict_score tie s t) s best ≡ false
      → Passes c r
      → NotBeaten r best
  kept_lem c x s r best e f k u =
      let (v, g) = same_score c x s r e f u in
      subst (λ y. NotBeaten y best) v (not_better s best (subst (λ p. better p s best ≡ false) g k))

  no_score :
      (c : VectorSearchResult F) (x : X) (w : Error) (r : F)
      → m.build query c.embedding ≡ ok x
      → m.score sc x ≡ raise w
      → Passes c r
      → ⊥
  no_score c x w r e f (y, b, g, p) = let u : x ≡ y = ground arith in ground arith

  module _ (laws : FloatLaws fl) where
    lt_irreflexive : (s : F) → fl.lt s s ≡ false
    lt_irreflexive s = elim (Bool-cases (fl.lt s s)) [
      | inl e ↦ absurd (ground (arith, laws.lt_not_le s s e, laws.lt_le s s e))
      | inr e ↦ e
    ]

    -- What the old best was not beaten by, a better one is not beaten by.
    NotBeaten-better :
        (s other : F) (best : Option (Best F X)) (n : Best F X)
        → n.score ≡ s
        → better true s best ≡ true
        → NotBeaten other best
        → fl.lt s other ≡ false
    NotBeaten-better s other none n e b h = elim h [ ]
    NotBeaten-better s other (some old) n e b h = elim (Bool-cases (fl.lt s other)) [
      | inl l ↦ absurd (ground (arith, lt_trans laws old.score s other b l))
      | inr l ↦ l
    ]

    improve-IsBest :
        (seen : List (VectorSearchResult F)) (c : VectorSearchResult F) (x : X) (s : F)
        (best : Option (Best F X))
        → m.build query c.embedding ≡ ok x
        → m.score sc x ≡ ok s
        → predict_score tie s t ≡ true
        → better true s best ≡ true
        → IsBest seen best
        → IsBest
            (seen ++ c ∷ [])
            (some (record { candidate = c; rank = length seen + 1; features = x; score = s }))
    unfolding IsBest AllSeen
    improve-IsBest seen c x s best e f g b (p, q) = (
      (length seen, refl, get_elem?_last seen c, (x, e, f, g)),
      All-append (λ d. (r : F) → Passes d r → fl.lt s r ≡ false) seen (c ∷ [])
          (All-map (λ d. (r : F) → Passes d r → NotBeaten r best)
            (λ d. (r : F) → Passes d r → fl.lt s r ≡ false) seen
            (λ d h r u.
              NotBeaten-better s r best
                (record { candidate = c; rank = length seen + 1; features = x; score = s }) refl b
                (h r u))
            q)
          (
            (λ r u. subst (λ y. fl.lt s y ≡ false) (same_score c x s r e f u).0 (lt_irreflexive s)),
            tt,
          ),
    )

    -- A turn of the loop on a candidate with a score.
    visit_scored :
        (seen : List (VectorSearchResult F)) (c : VectorSearchResult F) (x : X) (s : F)
        (best : Option (Best F X))
        → m.build query c.embedding ≡ ok x
        → m.score sc x ≡ ok s
        → IsBest seen best
        → IsBest (seen ++ c ∷ []) (
            if better (predict_score tie s t) s best
            then some (record { candidate = c; rank = length seen + 1; features = x; score = s })
            else best)
    visit_scored seen c x s best e f h =
        let b = better (predict_score tie s t) s best in
        let n : Option (Best F X) =
          some (record { candidate = c; rank = length seen + 1; features = x; score = s }) in
        elim (Bool-cases b) [
          | inr k ↦
              subst (IsBest (seen ++ c ∷ [])) (sym (if_false n best k))
                (keep-IsBest seen c best (λ r u. kept_lem c x s r best e f k u) h)
          | inl k ↦ subst (IsBest (seen ++ c ∷ [])) (sym (if_true n best k)) (
              improve-IsBest seen c x s best e f (better-true (predict_score tie s t) s best k)
                (better_of (predict_score tie s t) s best k) h)
        ]

    visit-IsBest :
        (seen : List (VectorSearchResult F)) (c : VectorSearchResult F) (x : X) (scan : Scan F X)
        → m.build query c.embedding ≡ ok x
        → IsBest seen scan.best
        → IsBest (seen ++ c ∷ []) (visit t tie (length seen + 1) c x (safe_score m sc x) scan).best
    unfolding visit
    visit-IsBest seen c x scan e h = go (m.score sc x) refl
      where
        go :
            (r : Result F)
            → m.score sc x ≡ r
            → IsBest
                (seen ++ c ∷ [])
                (visit t tie
                  (length seen + 1)
                  c
                  x
                  (elim r [ ok s ↦ some s | raise e ↦ none ])
                  scan).best
        go (ok s) f = visit_scored seen c x s scan.best e f h
        go (raise w) f = keep-IsBest seen c scan.best (λ r u. absurd (no_score c x w r e f u)) h

    pub scan_from-IsBest :
        (seen rest : List (VectorSearchResult F)) (scan out : Scan F X)
        → IsBest seen scan.best
        → scan_from m sc t tie query (length seen + 1) rest scan ≡ ok out
        → IsBest (seen ++ rest) out.best
    unfolding scan_from
    scan_from-IsBest seen [] scan out h r =
        let q : scan ≡ out = ground arith in
        subst (λ l. IsBest l out.best) (sym (append_nil seen))
          (subst (λ (o : Scan F X). IsBest seen o.best) q h)
    scan_from-IsBest seen (c ∷ cs) scan out h r =
        let (x, e, f) = bind_ok (m.build query c.embedding) _ out r in
        let next = visit t tie (length seen + 1) c x (safe_score m sc x) scan in
        let n : length (seen ++ c ∷ []) + 1 ≡ length seen + 1 + 1 =
          ap (λ k. k + 1) (length-append seen (c ∷ [])) in
        subst (λ l. IsBest l out.best) (append_step seen c cs)
          (scan_from-IsBest (seen ++ c ∷ []) cs next out (visit-IsBest seen c x scan e h)
            (subst (λ k. scan_from m sc t tie query k cs next ≡ ok out) (sym n) f))
