-- ===== src/Retrieval/Upserted.antt =====
-- src/mlcache/retrieval/in_memory.py: `upsert` keeps a store valid and stores the entry.
use mlcache.Prelude.{
  ℕ, zero, suc, ◌+◌, ◌-◌, ◌*◌, ◌≤◌, ◌<◌, max, String, ◌≡◌, refl, sym, ap, ◌∙◌, subst, ◌≢◌, inl, inr,
  ite, Option, none, some, List, [], ◌∷◌, ◌++◌, arith, ltb, Bool-cases, if_true, if_false, str_dec,
  length, get_elem?, set, All, length-append, All-append, Result, ok,
}
use mlcache.Prelude.{append_nil}
use mlcache.Prelude.{
  get_elem?-set_same, get_elem?-set_ne, get_elem?-lt, length-set, get_elem?-append, get_elem?_last,
}
use mlcache.Dict
use mlcache.Dict.{Dict, keys}
use mlcache.Dict.Keys.{assign_together, keys-assign_present}
use mlcache.Float.{FloatOps}
use mlcache.Types.{CacheKey}
use mlcache.Oracle.{VectorSearchResult}
use mlcache.Retrieval.{
  Similarity, Numpy, InMemoryVectorStore, replicate, zero_rows, ensure_capacity, add_key, place,
  get,
}
use mlcache.Retrieval.Tables.{Agree, some_injective, append-Agree}
use mlcache.Retrieval.Valid.{full, WritesRows, Shape, Fields, IsFull, place_lem, place-Fields}

pub length-replicate : {A : Type 0} (n : ℕ) (a : A) → length (replicate n a) ≡ n
length-replicate zero a = refl
length-replicate (suc n) a = ap suc (length-replicate n a)

pub replicate-All : {A : Type 0} (P : A → Type 0) (n : ℕ) (a : A) → P a → All P (replicate n a)
replicate-All P zero a h = tt
replicate-All P (suc n) a h = (h, replicate-All P n a h)

module _ {F : Type 0} ⦃fl : FloatOps F⦄ (np : Numpy F) (rowed : WritesRows np)
    (r : VectorSearchResult F) where
  -- The vector has the width that the store has.
  abbrev pub Fits : InMemoryVectorStore F → Type 0
  Fits s = (d : ℕ) → s.dim ≡ some d → length r.embedding ≡ d

  -- The call returned, the store is valid, and the entry is the one of its key.
  abbrev pub Stored : InMemoryVectorStore F → Result (Unit {0}) × InMemoryVectorStore F → Type 0
  Stored s run =
      (t : InMemoryVectorStore F) × (run ≡ (ok tt, t))
      × IsFull np t
      × (t.dim ≡ some (length r.embedding))
      × ((k : CacheKey) → get t k ≡ ite (str_dec r.cache_key k) (some r) (get s k))

  module _ (sim : Similarity) (es : Dict CacheKey (VectorSearchResult F)) (ix : Dict CacheKey ℕ)
      (ks : List CacheKey) (sp : List (Option String)) (rows : List (List F)) (ns : List F)
      (d n : ℕ) (h : Fields np es ix ks sp rows ns d n) (fits : length r.embedding ≡ d) where
    open h use {shape, agree, same_keys, content}

    -- Enough rows, and those in use unchanged.
    pub ensured :
        (more : List (List F)) × (extra : List F) × (ensure_capacity
            (n + 1)
            (full sim es ix ks sp rows ns d n)
          ≡ full sim es ix ks sp (rows ++ more) (ns ++ extra) d n)
        × (n + 1 ≤ length (rows ++ more))
        × (length (ns ++ extra) ≡ length (rows ++ more))
        × All (λ x. length x ≡ d) (rows ++ more)
    unfolding ensure_capacity
    ensured =
        let capacity = max (n + 1) (length rows * 2) in
        let more = zero_rows (capacity - length rows) d in
        let extra = replicate (capacity - length ns) (fl.of_ℕ 0) in
        let bigger = full sim es ix ks sp (rows ++ more) (ns ++ extra) d n in
        let size_m = length-replicate (capacity - length rows) (replicate d (fl.of_ℕ 0)) in
        let size_e = length-replicate (capacity - length ns) (fl.of_ℕ 0) in
        let sizes_r = length-append rows more in
        let sizes_n = length-append ns extra in
        elim (Bool-cases (ltb (length rows) (n + 1))) [
          | inl e ↦ (
            more,
            extra,
            if_true bigger (full sim es ix ks sp rows ns d n) e,
            omega (arith, size_m, sizes_r),
            omega (arith, size_m, size_e, sizes_r, sizes_n, shape.norms_count),
            All-append (λ x. length x ≡ d) rows more shape.widths
                (replicate-All (λ x. length x ≡ d) (capacity - length rows)
                  (replicate d (fl.of_ℕ 0)) (length-replicate d (fl.of_ℕ 0))),
          )
          | inr e ↦ (
            [],
            [],
            if_false bigger (full sim es ix ks sp rows ns d n) e
                ∙ rw (append_nil rows, append_nil ns) refl,
            rw (append_nil rows) (ground arith),
            rw (append_nil rows, append_nil ns) shape.norms_count,
            rw (append_nil rows) shape.widths,
          )
        ]

    -- A longer matrix with the same rows in front.
    pub longer-Fields :
        (more : List (List F)) (extra : List F)
        → length (ns ++ extra) ≡ length (rows ++ more)
        → All (λ x. length x ≡ d) (rows ++ more)
        → Fields np es ix ks sp (rows ++ more) (ns ++ extra) d n
    longer-Fields more extra sizes wide = record {
      shape = record {
        keys_count = shape.keys_count;
        spaces_count = shape.spaces_count;
        capacity = omega (arith, shape.capacity, length-append rows more);
        norms_count = sizes;
        widths = wide;
      };
      agree = agree;
      same_keys = same_keys;
      content = λ k i e.
          let (x, f, g, at_row, at_norm) = content k i e in
          (
            x,
            f,
            g,
            get_elem?-append rows more i x.embedding at_row,
            get_elem?-append ns extra i (np.norm x.embedding) at_norm,
          );
    }

    -- A new key, where there is a row left for it.
    pub new_key :
        n + 1 ≤ length rows
        → Dict.get str_dec r.cache_key ix ≡ none
        → Stored (full sim es ix ks sp rows ns d n) (
            place np r n (
              full sim es
                (Dict.assign str_dec r.cache_key n ix)
                (ks ++ r.cache_key ∷ [])
                (sp ++ r.metadata.namespace ∷ [])
                rows
                ns
                d
                (n + 1)))
    unfolding get
    new_key room absent =
        let key = r.cache_key in
        let ix' = Dict.assign str_dec key n ix in
        let ks' = ks ++ key ∷ [] in
        let sp' = sp ++ r.metadata.namespace ∷ [] in
        let shape' : Shape np ks' sp' rows ns d (n + 1) = record {
          keys_count = omega (arith, shape.keys_count, length-append ks (key ∷ []));
          spaces_count =
              omega (arith, shape.spaces_count, length-append sp (r.metadata.namespace ∷ []));
          capacity = room;
          norms_count = shape.norms_count;
          widths = shape.widths;
        } in
        let agree' : Agree ix' ks' =
          subst (λ m. Agree (Dict.assign str_dec key m ix) ks') shape.keys_count
            (append-Agree ix ks key agree absent) in
        let space : get_elem? sp' n ≡ some r.metadata.namespace =
          subst (λ m. get_elem? sp' m ≡ some r.metadata.namespace) shape.spaces_count
            (get_elem?_last sp r.metadata.namespace) in
        let below : n < n + 1 = omega arith in
        (
          full sim (Dict.assign str_dec key r es) ix' ks' sp' (set rows n r.embedding)
              (set ns n (np.norm r.embedding)) d (n + 1),
          place_lem np rowed r sim es ix' ks' sp' rows ns d (n + 1) n shape' fits below,
          (
            sim,
            Dict.assign str_dec key r es,
            ix',
            ks',
            sp',
            set rows n r.embedding,
            set ns n (np.norm r.embedding),
            d,
            n + 1,
            refl,
            place-Fields np rowed r sim es ix' ks' sp' rows ns d (n + 1) n shape' fits below agree'
                (Dict.get-assign_self str_dec key n ix) space
                (assign_together str_dec key r n es ix same_keys)
                (λ k i p e.
                  let (x, f, g, at_row, at_norm) =
                    content k i (sym (Dict.get-assign_ne str_dec key k n ix p) ∙ e) in
                  (
                    x,
                    f,
                    get_elem?-append sp (r.metadata.namespace ∷ []) i x.metadata.namespace g,
                    at_row,
                    at_norm,
                  )),
          ),
          ap (λ x. some x) (sym fits),
          λ k. Dict.get-assign str_dec key k r es,
        )

    -- A key that has a row.
    pub old_key :
        (idx : ℕ)
        → Dict.get str_dec r.cache_key ix ≡ some idx
        → Stored
            (full sim es ix ks sp rows ns d n)
            (place np r idx (full sim es ix ks (set sp idx r.metadata.namespace) rows ns d n))
    unfolding get
    old_key idx at_idx =
        let key = r.cache_key in
        let sp' = set sp idx r.metadata.namespace in
        let below : idx < n =
          omega (arith, get_elem?-lt ks idx key (agree.listed key idx at_idx), shape.keys_count) in
        let shape' : Shape np ks sp' rows ns d n = record {
          keys_count = shape.keys_count;
          spaces_count = length-set sp idx r.metadata.namespace ∙ shape.spaces_count;
          capacity = shape.capacity;
          norms_count = shape.norms_count;
          widths = shape.widths;
        } in
        let (old, present, _, _, _) = content key idx at_idx in
        (
          full sim (Dict.assign str_dec key r es) ix ks sp' (set rows idx r.embedding)
              (set ns idx (np.norm r.embedding)) d n,
          place_lem np rowed r sim es ix ks sp' rows ns d n idx shape' fits below,
          (
            sim,
            Dict.assign str_dec key r es,
            ix,
            ks,
            sp',
            set rows idx r.embedding,
            set ns idx (np.norm r.embedding),
            d,
            n,
            refl,
            place-Fields np rowed r sim es ix ks sp' rows ns d n idx shape' fits below agree at_idx
                (get_elem?-set_same sp idx r.metadata.namespace
                  (omega (arith, below, shape.spaces_count)))
                (keys-assign_present str_dec key r old es present ∙ same_keys)
                (λ k i p e.
                  let (x, f, g, at_row, at_norm) = content k i e in
                  let ne : idx ≢ i = λ q. p (
                    some_injective (
                      sym (agree.listed key idx at_idx)
                      ∙ subst (λ x. get_elem? ks x ≡ some k) (sym q) (agree.listed k i e))) in
                  (x, f, get_elem?-set_ne sp idx i r.metadata.namespace ne ∙ g, at_row, at_norm)),
          ),
          ap (λ x. some x) (sym fits),
          λ k. Dict.get-assign str_dec key k r es,
        )

    pub add_key_lem :
        (more : List (List F)) (extra : List F)
        → ensure_capacity (n + 1) (full sim es ix ks sp rows ns d n)
          ≡ full sim es ix ks sp (rows ++ more) (ns ++ extra) d n
        → add_key r (full sim es ix ks sp rows ns d n)
          ≡ full sim es
              (Dict.assign str_dec r.cache_key n ix)
              (ks ++ r.cache_key ∷ [])
              (sp ++ r.metadata.namespace ∷ [])
              (rows ++ more)
              (ns ++ extra)
              d
              (n + 1)
    add_key_lem more extra e =
        ap
          (λ (t : InMemoryVectorStore F). record t {
            key_to_idx = Dict.assign str_dec r.cache_key n t.key_to_idx;
            idx_to_key = t.idx_to_key ++ r.cache_key ∷ [];
            namespaces = t.namespaces ++ r.metadata.namespace ∷ [];
            count = n + 1;
          })
          e
