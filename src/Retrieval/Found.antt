-- ===== src/Retrieval/Found.antt =====
-- src/mlcache/retrieval/in_memory.py: what `search` returns on a valid store.
use mlcache.Prelude.{
  ℕ, zero, suc, ◌≤◌, ◌<◌, min, String, ◌≡◌, refl, sym, ap, ◌∙◌, subst, inl, inr, Bool, true, false,
  ◌||◌, Option, some, List, [], ◌∷◌, map, arith, ltb, ◌==◌, ltb→lt, Bool-cases, str_dec, length,
  if◌then◌else◌, get_elem?, take, All, get_elem?-some, length-map, ok,
}
use mlcache.Prelude.{◌>>=◌, item_at, All-map}
use mlcache.Dict
use mlcache.Dict.{Dict}
use mlcache.Float.{FloatOps}
use mlcache.Types.{CacheKey}
use mlcache.Oracle.{VectorSearchResult}
use mlcache.Retrieval.{Similarity, cosine, dot, Numpy, InMemoryVectorStore, get}
use mlcache.Retrieval.Tables.{some_injective}
use mlcache.Retrieval.Valid.{full, Fields, IsValid}
use mlcache.Retrieval.Search.{
  same_namespace, quotients, for_each, similarity_scores, masked, sorted, scored_row, entry_of,
  collect, top_idx, rank_rows, search,
}
use mlcache.QueryLevel.{feq}
use mlcache.Retrieval.Ranks.{
  length-take, take_all, take-All, arange-range, length-quotients, masked_by_lem, sorted_lem,
  length-masked, unmasked_lem,
}

module _ {F : Type 0} ⦃fl : FloatOps F⦄ where
  -- What numpy documents: the product has a number for each row, if the widths agree;
  -- `argpartition` gives positions of the array. And -inf is not a NaN.
  pub record SearchLaws (np : Numpy F) : Type 0 where
    pub dots_return :
        (rows : List (List F)) (query : List F)
        → All (λ r. length r ≡ length query) rows
        → (ds : List F) × (np.dots rows query ≡ ok ds) × (length ds ≡ length rows)
    pub top_range :
        (scores : List F) (k : ℕ)
        → k < length scores
        → All (λ i. i < length scores) (np.top scores k) × (length (np.top scores k) ≡ k)
    pub neg_inf_number : fl.le fl.neg_inf fl.neg_inf ≡ true

  -- The score of the row `i`: the product of its vector and the query, which cosine similarity
  -- divides by the product of their norms, if that is positive.
  abbrev pub IsSimilarity : Numpy F → Similarity → List F → List F → List F → ℕ → F → Type 0
  IsSimilarity np dot norms query dots i x = get_elem? dots i ≡ some x
  IsSimilarity np cosine norms query dots i x =
      (p : F) × (m : F) × (get_elem? dots i ≡ some p)
      × (get_elem? norms i ≡ some m)
      × (x ≡ (
          if fl.lt (fl.of_ℕ 0) (fl.mul m (np.norm query))
          then fl.div p (fl.mul m (np.norm query))
          else fl.of_ℕ 0))

  quotients_lem :
      (np : Numpy F) (query dots norms : List F) (i : ℕ) (x : F)
      → get_elem? (quotients dots (map (λ n. fl.mul n (np.norm query)) norms)) i ≡ some x
      → IsSimilarity np cosine norms query dots i x
  quotients_lem np query [] norms i x h = absurd (ground arith)
  quotients_lem np query (p ∷ ps) [] i x h = absurd (ground arith)
  quotients_lem np query (p ∷ ps) (m ∷ ms) zero x h = (p, m, refl, refl, sym (some_injective h))
  quotients_lem np query (p ∷ ps) (m ∷ ms) (suc i) x h = quotients_lem np query ps ms i x h

  similarity_scores_lem :
      (np : Numpy F) (sim : Similarity) (norms query dots : List F) (i : ℕ) (x : F)
      → get_elem? (similarity_scores np sim norms query dots) i ≡ some x
      → IsSimilarity np sim norms query dots i x
  unfolding similarity_scores
  similarity_scores_lem np dot norms query dots i x h = h
  similarity_scores_lem np cosine norms query dots i x h = quotients_lem np query dots norms i x h

module _ {F : Type 0} ⦃fl : FloatOps F⦄ (np : Numpy F) where
  -- An entry of the store with its similarity to the query as the score, and of the namespace if one
  -- is asked for.
  pub IsFoundIn : InMemoryVectorStore F → List F → Option String → VectorSearchResult F → Type 0
  IsFoundIn s query namespace r =
      (k : CacheKey) × (e : VectorSearchResult F) × (i : ℕ) × (rows : List (List F)) × (norms : List
        F)
      × (dots : List F) × (Dict.get str_dec k s.entries ≡ some e)
      × (Dict.get str_dec k s.key_to_idx ≡ some i)
      × (s.matrix ≡ some rows)
      × (s.norms ≡ some norms)
      × (np.dots (take s.count rows) query ≡ ok dots)
      × IsSimilarity np s.similarity (take s.count norms) query dots i r.score
      × (r ≡ record e { score = r.score })
      × ((name : String) → namespace ≡ some name → same_namespace name e.metadata.namespace ≡ true)

module _ {F : Type 0} ⦃fl : FloatOps F⦄ (np : Numpy F) (laws : SearchLaws np)
    (str_lt : String → String → Bool) (sim : Similarity) (es : Dict CacheKey (VectorSearchResult F))
    (ix : Dict CacheKey ℕ) (ks : List CacheKey) (sp : List (Option String)) (rows : List (List F))
    (ns : List F) (d n : ℕ) (h : Fields np es ix ks sp rows ns d n)
    (namespace : Option String) where
  module _ (scores : List F) (sizes : length scores ≡ n) where
    abbrev IsRow : F × CacheKey → Type 0
    IsRow (s, k) =
        (i : ℕ) × (get_elem? (masked namespace sp scores) i ≡ some s) × (get_elem? ks i ≡ some k)

    -- An entry of the store with its score, and of the namespace if there is one.
    IsFound : VectorSearchResult F → Type 0
    IsFound r =
        (k : CacheKey) × (e : VectorSearchResult F) × (i : ℕ) × (Dict.get str_dec k es ≡ some e)
        × (Dict.get str_dec k ix ≡ some i)
        × (get_elem? scores i ≡ some r.score)
        × (r ≡ record e { score = r.score })
        × ((name : String)
            → namespace ≡ some name
            → same_namespace name e.metadata.namespace ≡ true)

    size_masked : length (masked namespace sp scores) ≡ n
    size_masked = length-masked namespace sp scores (h.shape.spaces_count ∙ sym sizes) ∙ sizes

    rows_lem :
        (is : List ℕ)
        → All (λ i. i < n) is
        → (ys : List (F × CacheKey)) × (for_each (scored_row (masked namespace sp scores) ks) is
            ≡ ok ys)
          × All IsRow ys
          × (length ys ≡ length is)
    rows_lem [] a = ([], refl, tt, refl)
    rows_lem (i ∷ is) a =
        let (ys, e, rows_ok, l) = rows_lem is a.1 in
        let (s, at_s) =
          get_elem?-some (masked namespace sp scores) i (omega (arith, a.0, size_masked)) in
        let (k, ek) = get_elem?-some ks i (omega (arith, a.0, h.shape.keys_count)) in
        ((s, k) ∷ ys, rw (at_s, item_at, ek) (rw e refl), ((i, at_s, ek), rows_ok), ap suc l)

    collect_lem :
        (ys : List (F × CacheKey))
        → All IsRow ys
        → (rs : List (VectorSearchResult F)) × (collect es ys ≡ ok rs)
          × (length rs ≤ length ys)
          × All IsFound rs
    unfolding collect IsFound
    collect_lem [] a = ([], refl, omega arith, tt)
    collect_lem ((s, k) ∷ more) ((i, at_score, at_key), a) =
        let (rs, e, l, found) = collect_lem more a in
        elim (Bool-cases (feq s fl.neg_inf)) [
          | inl skip ↦ (rs, rw skip e, omega (arith, l), found)
          | inr kept ↦
              let indexed = h.agree.indexed k i at_key in
              let (x, entry, space, _, _) = h.content k i indexed in
              (
                record x { score = s } ∷ rs,
                rw kept (rw (entry, entry_of) (rw e refl)),
                omega (arith, l),
                (
                  (
                    k,
                    x,
                    i,
                    entry,
                    indexed,
                    unmasked_lem namespace sp scores i s at_score kept laws.neg_inf_number,
                    refl,
                    λ name q. in_namespace name x.metadata.namespace i s q space at_score kept,
                  ),
                  found,
                ),
              )
        ]
      where
        in_namespace :
            (name : String) (m : Option String) (i : ℕ) (s : F)
            → namespace ≡ some name
            → get_elem? sp i ≡ some m
            → get_elem? (masked namespace sp scores) i ≡ some s
            → feq s fl.neg_inf ≡ false
            → same_namespace name m ≡ true
        in_namespace name m i s q space score kept =
            masked_by_lem name sp scores i m s space
              (subst (λ x. get_elem? (masked x sp scores) i ≡ some s) q score) laws.neg_inf_number
              kept

    ranked_lem :
        (k : ℕ)
        → (rs : List (VectorSearchResult F)) × (rank_rows np str_lt
              (full sim es ix ks sp rows ns d n)
              k
              (masked namespace sp scores)
            ≡ ok rs)
          × (length rs ≤ k)
          × All IsFound rs
    unfolding rank_rows
    ranked_lem k =
        let m = masked namespace sp scores in
        let (range, few) = positions in
        let (ys, e, rows_ok, l) = rows_lem (top_idx np (min k n) n m) range in
        let (sorted_ok, ls) = sorted_lem IsRow str_lt [] ys tt rows_ok in
        let (rs, f, lr, found) = collect_lem (sorted str_lt [] ys) sorted_ok in
        (
          rs,
          ap (λ x. x >>= λ rows. collect es (sorted str_lt [] rows)) e ∙ f,
          omega (arith, lr, ls, l, few),
          found,
        )
      where
        positions :
            All (λ i. i < n) (top_idx np (min k n) n (masked namespace sp scores))
            × (length (top_idx np (min k n) n (masked namespace sp scores)) ≤ min k n)
        positions = elim (Bool-cases (ltb (min k n) n)) [
          | inl b ↦
              let (a, l) =
                laws.top_range (masked namespace sp scores) (min k n)
                  (omega (arith, size_masked, ltb→lt _ _ b)) in
              rw b (
                subst (λ c. All (λ i. i < c) (np.top (masked namespace sp scores) (min k n)))
                    size_masked a,
                omega (arith, l),
              )
          | inr b ↦
              let (a, l) = arange-range n 0 n (omega arith) in
              let whole : n ≤ min k n = ground arith in rw b (a, omega (arith, l, whole))
        ]

  scores_size :
      (s : Similarity) (query dots : List F)
      → length dots ≡ n
      → length (similarity_scores np s (take n ns) query dots) ≡ n
  unfolding similarity_scores
  scores_size dot query dots l = l
  scores_size cosine query dots l =
      let norms = map (λ x. fl.mul x (np.norm query)) (take n ns) in
      let size : length norms ≡ n =
        length-map (λ x. fl.mul x (np.norm query)) (take n ns)
        ∙ length-take n ns (omega (arith, h.shape.capacity, h.shape.norms_count)) in
      length-quotients dots norms (l ∙ sym size) ∙ l

  in_store :
      (query dots : List F) (sizes : length (similarity_scores np sim (take n ns) query dots) ≡ n)
      → np.dots (take n rows) query ≡ ok dots
      → (r : VectorSearchResult F)
      → IsFound (similarity_scores np sim (take n ns) query dots) sizes r
      → IsFoundIn np (full sim es ix ks sp rows ns d n) query namespace r
  unfolding IsFound IsFoundIn
  in_store query dots sizes e r (k, x, i, entry, indexed, score, same, space) = (
    k,
    x,
    i,
    rows,
    ns,
    dots,
    entry,
    indexed,
    refl,
    refl,
    e,
    similarity_scores_lem np sim (take n ns) query dots i r.score score,
    same,
    space,
  )

  search-full :
      (query : List F) (top_k : ℕ)
      → length query ≡ d
      → (rs : List (VectorSearchResult F)) × (search np str_lt
            (full sim es ix ks sp rows ns d n)
            query
            namespace
            top_k
          ≡ ok rs)
        × (length rs ≤ top_k)
        × All (IsFoundIn np (full sim es ix ks sp rows ns d n) query namespace) rs
  unfolding search
  search-full query top_k fits = elim (Bool-cases (n == 0 || top_k == 0)) [
    | inl none_ ↦ ([], rw none_ refl, omega arith, tt)
    | inr some_ ↦
        let wide =
          subst (λ w. All (λ r. length r ≡ w) (take n rows)) (sym fits)
            (take-All (λ r. length r ≡ d) n rows h.shape.widths) in
        let (dots, e, l) = laws.dots_return (take n rows) query wide in
        let size : length dots ≡ n = l ∙ length-take n rows h.shape.capacity in
        let scores = similarity_scores np sim (take n ns) query dots in
        let (rs, f, few, found) = ranked_lem scores (scores_size sim query dots size) top_k in
        (
          rs,
          rw some_ (rw e (rw (take_all n sp h.shape.spaces_count) f)),
          few,
          All-map (IsFound scores (scores_size sim query dots size))
              (IsFoundIn np (full sim es ix ks sp rows ns d n) query namespace) rs
              (λ r f. in_store query dots (scores_size sim query dots size) e r f) found,
        )
  ]

module _ {F : Type 0} ⦃fl : FloatOps F⦄ (np : Numpy F) (laws : SearchLaws np)
    (str_lt : String → String → Bool) where
  -- A search with an embedding of the store's width on a valid store raises nothing and returns at
  -- most `top_k` results. Each is an entry that the store holds under some key, with its
  -- similarity to the query as the score in place of its own: the product of the query and the row
  -- at the entry's index, which cosine similarity divides by the product of the two norms if that
  -- is positive and else takes as 0. If a namespace is asked for, the entry is of that namespace.
  -- It is assumed that numpy's product has a number for each row if the widths agree, that
  -- `argpartition` gives as many positions of the array as asked for, and that -inf is not a NaN.
  pub search-IsFoundIn :
      (s : InMemoryVectorStore F) (query : List F) (namespace : Option String) (top_k : ℕ)
      → IsValid np s
      → ((d : ℕ) → s.dim ≡ some d → length query ≡ d)
      → (rs : List (VectorSearchResult F)) × (search np str_lt s query namespace top_k ≡ ok rs)
        × (length rs ≤ top_k)
        × All (IsFoundIn np s query namespace) rs
  unfolding search get
  search-IsFoundIn s query namespace top_k (inl (sim, e)) fits = rw e ([], refl, omega arith, tt)
  search-IsFoundIn s query namespace top_k (inr (sim, es, ix, ks, sp, rows, ns, d, n, e, h)) fits =
      rw e (
        search-full np laws str_lt sim es ix ks sp rows ns d n h namespace query top_k
          (fits d (rw e refl)))
