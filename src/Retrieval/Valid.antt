-- ===== src/Retrieval/Valid.antt =====
-- src/mlcache/retrieval/in_memory.py: a valid store, and what it keeps when a row is written.
use mlcache.Prelude.{
  ℕ, zero, suc, ◌≤◌, ◌<◌, String, ◌≡◌, refl, sym, ap, ◌∙◌, subst, ◌≢◌, ◌⊎◌, Option, some, List, [],
  ◌∷◌, arith, str_dec, length, get_elem?, set, All, get_elem?-some, get_elem?-All, ok,
}
use mlcache.Prelude.{
  item_at, set_item, set_item_lem, get_elem?-set_same, get_elem?-set_ne, length-set,
}
use mlcache.Prelude.{◌>>=◌ as bind}
use mlcache.Dict
use mlcache.Dict.{Dict, keys}
use mlcache.Float.{FloatOps}
use mlcache.Types.{CacheKey}
use mlcache.Oracle.{VectorSearchResult}
use mlcache.Retrieval.{
  Similarity, Numpy, InMemoryVectorStore, empty_store, write_row, write_norm, place, writes,
}
use mlcache.Retrieval.Tables.{Agree, some_injective}

module _ {F : Type 0} where
  -- A store that has a matrix.
  abbrev pub full :
      Similarity
      → Dict CacheKey (VectorSearchResult F)
      → Dict CacheKey ℕ
      → List CacheKey
      → List (Option String)
      → List (List F)
      → List F
      → ℕ
      → ℕ
      → InMemoryVectorStore F
  full sim es ix ks sp rows ns d n = record {
    similarity = sim;
    entries = es;
    key_to_idx = ix;
    idx_to_key = ks;
    namespaces = sp;
    matrix = some rows;
    norms = some ns;
    dim = some d;
    count = n;
  }

  -- numpy writes a vector of the row's width as it is.
  abbrev pub WritesRows : Numpy F → Type 0
  WritesRows np = (v : List F) → np.as_row (length v) v ≡ ok v

module _ {F : Type 0} (np : Numpy F) where
  -- The row, the norm and the namespace at the index of a key are those of its entry.
  abbrev pub Content :
      Dict CacheKey (VectorSearchResult F)
      → List (Option String)
      → List (List F)
      → List F
      → CacheKey
      → ℕ
      → Type 0
  Content es sp rows ns k i =
      (r : VectorSearchResult F) × (Dict.get str_dec k es ≡ some r)
      × (get_elem? sp i ≡ some r.metadata.namespace)
      × (get_elem? rows i ≡ some r.embedding)
      × (get_elem? ns i ≡ some (np.norm r.embedding))

  -- What the rows and the tables of sizes need.
  pub record Shape (ks : List CacheKey) (sp : List (Option String)) (rows : List (List F))
      (ns : List F) (d n : ℕ) : Type 0 where
    pub keys_count : length ks ≡ n
    pub spaces_count : length sp ≡ n
    pub capacity : n ≤ length rows
    pub norms_count : length ns ≡ length rows
    pub widths : All (λ r. length r ≡ d) rows

  pub record Fields (es : Dict CacheKey (VectorSearchResult F)) (ix : Dict CacheKey ℕ)
      (ks : List CacheKey) (sp : List (Option String)) (rows : List (List F)) (ns : List F)
      (d n : ℕ) : Type 0 where
    pub shape : Shape ks sp rows ns d n
    pub agree : Agree ix ks
    pub same_keys : keys es ≡ keys ix
    pub content :
        (k : CacheKey) (i : ℕ) → Dict.get str_dec k ix ≡ some i → Content es sp rows ns k i

  abbrev pub IsFull : InMemoryVectorStore F → Type 0
  IsFull s =
      (sim : Similarity) × (es : Dict CacheKey (VectorSearchResult F)) × (ix : Dict CacheKey ℕ)
      × (ks : List CacheKey) × (sp : List (Option String)) × (rows : List (List F)) × (ns : List F)
      × (d : ℕ) × (n : ℕ) × (s ≡ full sim es ix ks sp rows ns d n)
      × Fields es ix ks sp rows ns d n

  -- Nothing was ever stored, or the tables fit together.
  abbrev pub IsValid : InMemoryVectorStore F → Type 0
  IsValid s = ((sim : Similarity) × (s ≡ empty_store sim)) ⊎ IsFull s

  pub set-All :
      {A : Type 0} (P : A → Type 0) (xs : List A) (i : ℕ) (v : A)
      → P v
      → All P xs
      → All P (set xs i v)
  set-All P [] i v p h = tt
  set-All P (x ∷ xs) zero v p h = (p, h.1)
  set-All P (x ∷ xs) (suc i) v p h = (h.0, set-All P xs i v p h.1)

module _ {F : Type 0} ⦃fl : FloatOps F⦄ (np : Numpy F) (rowed : WritesRows np)
    (r : VectorSearchResult F) (sim : Similarity) (es : Dict CacheKey (VectorSearchResult F))
    (ix : Dict CacheKey ℕ) (ks : List CacheKey) (sp : List (Option String)) (rows : List (List F))
    (ns : List F) (d n idx : ℕ) (shape : Shape np ks sp rows ns d n) (fits : length r.embedding ≡ d)
    (below : idx < n) where
  abbrev new_rows : List (List F)
  new_rows = set rows idx r.embedding

  abbrev new_norms : List F
  new_norms = set ns idx (np.norm r.embedding)

  row_written :
      bind
        (item_at rows idx)
        (λ old. bind (np.as_row (length old) r.embedding) (λ row. set_item rows idx row))
      ≡ ok new_rows
  row_written =
      let lt : idx < length rows = omega (arith, below, shape.capacity) in
      let (old, e) = get_elem?-some rows idx lt in
      let w : length r.embedding ≡ length old =
        fits ∙ sym (get_elem?-All (λ x. length x ≡ d) rows idx old shape.widths e) in
      let written = subst (λ m. np.as_row m r.embedding ≡ ok r.embedding) w (rowed r.embedding) in
      rw (e, bind) (rw (written, bind) (set_item_lem rows idx r.embedding lt))

  write_row_lem :
      write_row np idx r.embedding (full sim es ix ks sp rows ns d n)
      ≡ (ok tt, full sim es ix ks sp new_rows ns d n)
  unfolding write_row
  write_row_lem =
      ap
        (λ x.
          writes x (λ (m : List (List F)) (t : InMemoryVectorStore F). record t { matrix = some m })
            (full sim es ix ks sp rows ns d n))
        row_written

  write_norm_lem :
      write_norm idx (np.norm r.embedding) (full sim es ix ks sp new_rows ns d n)
      ≡ (ok tt, full sim es ix ks sp new_rows new_norms d n)
  unfolding write_norm
  write_norm_lem =
      ap
        (λ x.
          writes x (λ (m : List F) (t : InMemoryVectorStore F). record t { norms = some m })
            (full sim es ix ks sp new_rows ns d n))
        (set_item_lem ns idx (np.norm r.embedding)
          (omega (arith, below, shape.capacity, shape.norms_count)))

  pub place_lem :
      place np r idx (full sim es ix ks sp rows ns d n)
      ≡ (ok tt, full sim (Dict.assign str_dec r.cache_key r es) ix ks sp new_rows new_norms d n)
  unfolding place
  place_lem = rw write_row_lem (rw write_norm_lem refl)

  pub place-Shape : Shape np ks sp new_rows new_norms d n
  place-Shape = record {
    keys_count = shape.keys_count;
    spaces_count = shape.spaces_count;
    capacity = omega (arith, shape.capacity, length-set rows idx r.embedding);
    norms_count = omega (
      arith,
      shape.norms_count,
      length-set rows idx r.embedding,
      length-set ns idx (np.norm r.embedding),
    );
    widths = set-All np (λ x. length x ≡ d) rows idx r.embedding fits shape.widths;
  }

  -- The written row belongs to the key, and the others keep theirs.
  pub place-Fields :
      Agree ix ks
      → Dict.get str_dec r.cache_key ix ≡ some idx
      → get_elem? sp idx ≡ some r.metadata.namespace
      → keys (Dict.assign str_dec r.cache_key r es) ≡ keys ix
      → ((k : CacheKey) (i : ℕ)
          → ¬ (r.cache_key ≡ k)
          → Dict.get str_dec k ix ≡ some i
          → Content np es sp rows ns k i)
      → Fields np (Dict.assign str_dec r.cache_key r es) ix ks sp new_rows new_norms d n
  place-Fields agree at_idx space same others = record {
    shape = place-Shape;
    agree = agree;
    same_keys = same;
    content = content_lem;
  }
    where
      content_lem :
          (k : CacheKey) (i : ℕ)
          → Dict.get str_dec k ix ≡ some i
          → Content np (Dict.assign str_dec r.cache_key r es) sp new_rows new_norms k i
      content_lem k i e = elim (str_dec r.cache_key k) [
        | yes p ↦
            let q : idx ≡ i =
              some_injective (sym at_idx ∙ subst (λ x. Dict.get str_dec x ix ≡ some i) (sym p) e) in
            let at_row =
              get_elem?-set_same rows idx r.embedding (omega (arith, below, shape.capacity)) in
            let at_norm =
              get_elem?-set_same ns idx (np.norm r.embedding)
                (omega (arith, below, shape.capacity, shape.norms_count)) in
            (
              r,
              subst (λ x. Dict.get str_dec x (Dict.assign str_dec r.cache_key r es) ≡ some r) p
                  (Dict.get-assign_self str_dec r.cache_key r es),
              subst (λ x. get_elem? sp x ≡ some r.metadata.namespace) q space,
              subst (λ x. get_elem? new_rows x ≡ some r.embedding) q at_row,
              subst (λ x. get_elem? new_norms x ≡ some (np.norm r.embedding)) q at_norm,
            )
        | no p ↦
            let (x, f, g, h, m) = others k i p e in
            let ne : idx ≢ i = λ q. p (
              some_injective (
                sym (agree.listed r.cache_key idx at_idx)
                ∙ subst (λ x. get_elem? ks x ≡ some k) (sym q) (agree.listed k i e))) in
            (
              x,
              Dict.get-assign_ne str_dec r.cache_key k r es p ∙ f,
              g,
              get_elem?-set_ne rows idx i r.embedding ne ∙ h,
              get_elem?-set_ne ns idx i (np.norm r.embedding) ne ∙ m,
            )
      ]
