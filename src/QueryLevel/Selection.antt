-- ===== src/QueryLevel/Selection.antt =====
-- src/mlcache/calibration/query_level.py: the candidate that `select_max_score` selects.
use mlcache.Prelude.{
  ℕ, ◌+◌, ◌≤◌, ◌≡◌, sym, ◌∙◌, ◌⊎◌, Option, none, refl, subst, inl, inr, true, false, not, ◌&&◌,
  some, List, [], ◌∷◌, ◌++◌, arith, ltb, if◌then◌else◌, Bool-cases, if_true, if_false, length,
  get_elem?, All, All-append, All-map,
}
use mlcache.Prelude.{get_elem?-append, get_elem?_last, append_nil, append_step}
use mlcache.Float.{FloatOps, FloatLaws}
use mlcache.QueryLevel.{
  QueryCalibrationCandidate, rank_or_last, key_greater, max_from, select_max_score,
}

-- A rank is not after another among `n` candidates; one that is missing is `n + 1`.
abbrev RankLe : ℕ → Option ℕ → Option ℕ → Type 0
RankLe n (some i) (some j) = i ≤ j
RankLe n (some i) none = i ≤ n + 1
RankLe n none (some j) = n + 1 ≤ j
RankLe n none none = Unit {0}

module _ {F : Type 0} ⦃fl : FloatOps F⦄ (laws : FloatLaws fl) where
  lt_as_le : (a b : F) → fl.lt a b ≡ (fl.le a b && not (fl.le b a))
  lt_as_le a b = elim (Bool-cases (fl.lt a b)) [
    | inl e ↦ rw (e, laws.lt_le a b e, laws.lt_not_le a b e) refl
    | inr e ↦ elim (Bool-cases (fl.le a b)) [
      | inr f ↦ rw (e, f) refl
      | inl f ↦ elim (Bool-cases (fl.le b a)) [
        | inl g ↦ rw (e, f, g) refl
        | inr g ↦ absurd (ground (arith, laws.not_le_lt a b f g))
      ]
    ]
  ]

  -- `key(d) > key(c)` in terms of `<=` on scores.
  key_as_le :
      (n : ℕ) (d c : QueryCalibrationCandidate F)
      → key_greater n d c ≡ (
          if fl.le d.score c.score && fl.le c.score d.score
          then ltb (rank_or_last n d) (rank_or_last n c)
          else (fl.le c.score d.score && not (fl.le d.score c.score)))
  key_as_le n d c = rw (lt_as_le c.score d.score) refl

  -- The comparison of keys is transitive.
  chain :
      (a b c : F) (i j k : ℕ)
      → (if fl.le b c && fl.le c b then ltb j k else (fl.le c b && not (fl.le b c))) ≡ true
      → (if fl.le a b && fl.le b a then ltb i j else (fl.le b a && not (fl.le a b))) ≡ true
      → (if fl.le a c && fl.le c a then ltb i k else (fl.le c a && not (fl.le a c))) ≡ true
  chain a b c i j k g h = ground (
    arith,
    laws.le_trans a b c,
    laws.le_trans c b a,
    laws.le_trans b a c,
    laws.le_trans b c a,
    laws.le_trans a c b,
    laws.le_trans c a b,
  )

  module _ (n : ℕ) where
    beats_trans :
        (a b c : QueryCalibrationCandidate F)
        → key_greater n b c ≡ true
        → key_greater n a b ≡ true
        → key_greater n a c ≡ true
    beats_trans a b c g h = rw (key_as_le n a c) (
        chain a.score b.score c.score (rank_or_last n a) (rank_or_last n b) (rank_or_last n c)
          (rw (← key_as_le n b c) g) (rw (← key_as_le n a b) h))

    abbrev NotBeaten : QueryCalibrationCandidate F → QueryCalibrationCandidate F → Type 0
    NotBeaten c d = key_greater n d c ≡ false

    beats_self : (c : QueryCalibrationCandidate F) → NotBeaten c c
    beats_self c = rw (key_as_le n c c) (ground arith)

    max_from-best :
        (seen rest : List (QueryCalibrationCandidate F)) (c : QueryCalibrationCandidate F)
        → (k : ℕ) × (get_elem? seen k ≡ some c)
        → All (NotBeaten c) seen
        → (k : ℕ) × (get_elem? (seen ++ rest) k ≡ some (max_from n c rest))
          × All (NotBeaten (max_from n c rest)) (seen ++ rest)
    unfolding max_from
    max_from-best seen [] c (k, e) h = rw (append_nil seen) (k, e, h)
    max_from-best seen (d ∷ ds) c (k, e) h =
        subst
          (λ l.
            (i : ℕ) × (get_elem? l i ≡ some (max_from n c (d ∷ ds)))
            × All (NotBeaten (max_from n c (d ∷ ds))) l)
          (append_step seen d ds)
          (elim (Bool-cases (key_greater n d c)) [
            | inl b ↦ rw (if_true d c b) (
                max_from-best (seen ++ d ∷ []) ds d (length seen, get_elem?_last seen d)
                  (All-append (NotBeaten d) seen (d ∷ [])
                    (All-map (NotBeaten c) (NotBeaten d) seen
                      (λ x u. elim (Bool-cases (key_greater n x d)) [
                        | inl g ↦ absurd (ground (arith, beats_trans x d c b g))
                        | inr g ↦ g
                      ])
                      h)
                    (beats_self d, tt)))
            | inr b ↦ rw (if_false d c b) (
                max_from-best (seen ++ d ∷ []) ds c (k, get_elem?-append seen (d ∷ []) k c e)
                  (All-append (NotBeaten c) seen (d ∷ []) h (b, tt)))
          ])

  -- No other score is greater, and no candidate with the same score has an earlier rank.
  abbrev pub IsBest : ℕ → QueryCalibrationCandidate F → QueryCalibrationCandidate F → Type 0
  IsBest n c d =
      (fl.lt c.score d.score ≡ false)
      × (((fl.le d.score c.score && fl.le c.score d.score) ≡ false)
          ⊎ RankLe n c.candidate_rank d.candidate_rank)

  rank_lem :
      (n : ℕ) (c d : QueryCalibrationCandidate F)
      → ltb (rank_or_last n d) (rank_or_last n c) ≡ false
      → RankLe n c.candidate_rank d.candidate_rank
  rank_lem n c d h = by_rank c.candidate_rank d.candidate_rank h
    where
      by_rank :
          (i j : Option ℕ)
          → ltb (elim j [ none ↦ n + 1 | some r ↦ r ]) (elim i [ none ↦ n + 1 | some r ↦ r ])
            ≡ false
          → RankLe n i j
      by_rank (some i) (some j) h = ground arith
      by_rank (some i) none h = ground arith
      by_rank none (some j) h = ground arith
      by_rank none none h = tt

  key_greater-IsBest :
      (n : ℕ) (c d : QueryCalibrationCandidate F) → key_greater n d c ≡ false → IsBest n c d
  key_greater-IsBest n c d h = elim (Bool-cases (fl.le d.score c.score && fl.le c.score d.score)) [
    | inl e ↦ (
      not_less e,
      inr (
          rank_lem n c d (
            sym (if_true (ltb (rank_or_last n d) (rank_or_last n c)) (fl.lt c.score d.score) e)
            ∙ h)),
    )
    | inr e ↦ (
      sym (if_false (ltb (rank_or_last n d) (rank_or_last n c)) (fl.lt c.score d.score) e) ∙ h,
      inl e,
    )
  ]
    where
      not_less :
          (fl.le d.score c.score && fl.le c.score d.score) ≡ true → fl.lt c.score d.score ≡ false
      not_less e = ground (arith, laws.lt_not_le c.score d.score)

  -- The candidate that `select_max_score` selects is one of the candidates, no candidate has a
  -- greater score, and none with the same score has an earlier rank; a missing rank counts as one
  -- more than the number of candidates. Floats obey the order laws.
  pub select_max_score-IsBest :
      (cs : List (QueryCalibrationCandidate F)) (c : QueryCalibrationCandidate F)
      → select_max_score cs ≡ some c
      → ((k : ℕ) × (get_elem? cs k ≡ some c)) × All (IsBest (length cs) c) cs
  unfolding select_max_score
  select_max_score-IsBest [] c h = absurd (ground arith)
  select_max_score-IsBest (d ∷ ds) c h =
      let q : max_from (length (d ∷ ds)) d ds ≡ c = ground arith in
      let (k, e, b) =
        max_from-best (length (d ∷ ds)) (d ∷ []) ds d (0, refl)
          (beats_self (length (d ∷ ds)) d, tt) in
      subst
        (λ x.
          ((i : ℕ) × (get_elem? (d ∷ ds) i ≡ some x)) × All (IsBest (length (d ∷ ds)) x) (d ∷ ds))
        q
        (
          (k, e),
          All-map (NotBeaten (length (d ∷ ds)) (max_from (length (d ∷ ds)) d ds))
              (IsBest (length (d ∷ ds)) (max_from (length (d ∷ ds)) d ds)) (d ∷ ds)
              (λ y. key_greater-IsBest (length (d ∷ ds)) (max_from (length (d ∷ ds)) d ds) y) b,
        )
