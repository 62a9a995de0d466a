-- ===== src/Retrieval/Deleted.antt =====
-- src/mlcache/retrieval/in_memory.py: `delete` of a key that has a row keeps the tables together.
use mlcache.Prelude.{
  ℕ, suc, ◌+◌, ◌-◌, ◌<◌, String, ◌≡◌, refl, sym, ap, ◌∙◌, subst, ◌≢◌, inl, inr, ite, Option, none,
  some, List, arith, ◌==◌, if◌then◌else◌, Bool-cases, if_true, if_false, str_dec, length, get_elem?,
  set, get_elem?-some, get_elem?-All, Result, ok,
}
use mlcache.Prelude.{
  pop_last, pop_last_lem, set_item_lem, get_elem?-set_same, get_elem?-set_ne, get_elem?-lt,
  length-set,
}
use mlcache.Prelude.{◌>>=◌ as bind}
use mlcache.Prelude.Exec.{pure, continue, ◌>>◌}
use mlcache.Dict
use mlcache.Dict.{Dict, keys}
use mlcache.Dict.Keys.{pop_together, keys-assign_present}
use mlcache.Types.{CacheKey}
use mlcache.Oracle.{VectorSearchResult}
use mlcache.Retrieval.{Similarity, Numpy, InMemoryVectorStore, writes, copy_item, get}
use mlcache.Retrieval.Delete.{
  copy_row, copy_norm, copy_namespace, move_key, move_last, drop_last, remove_at,
}
use mlcache.Retrieval.Tables.{Agree, some_injective, apart, swap-Agree, drop-Agree}
use mlcache.Retrieval.Valid.{full, Content, Fields, IsFull, set-All}

copy_item_lem :
    {A : Type 0} (xs : List A) (i j : ℕ) (a : A)
    → get_elem? xs j ≡ some a
    → i < length xs
    → copy_item xs i j ≡ ok (set xs i a)
copy_item_lem xs i j a e h = rw (e, copy_item, bind) (set_item_lem xs i a h)

module _ {F : Type 0} (np : Numpy F) (key : CacheKey) (sim : Similarity)
    (es : Dict CacheKey (VectorSearchResult F)) (ix : Dict CacheKey ℕ) (ks : List CacheKey)
    (sp : List (Option String)) (rows : List (List F)) (ns : List F) (d last : ℕ)
    (h : Fields np es ix ks sp rows ns d (last + 1)) (idx : ℕ)
    (found : Dict.get str_dec key ix ≡ some idx) where
  open h use {shape, agree, same_keys, content}

  -- The key is gone, and the store is valid.
  abbrev pub Dropped : Result (Unit {0}) × InMemoryVectorStore F → Type 0
  Dropped run =
      (t : InMemoryVectorStore F) × (run ≡ (ok tt, t))
      × IsFull np t
      × (t.dim ≡ some d)
      × ((k : CacheKey) → get t k ≡ ite (str_dec key k) none (Dict.get str_dec k es))

  drop_last_lem :
      (es' : Dict CacheKey (VectorSearchResult F)) (ix' : Dict CacheKey ℕ)
      (ks' ks'' : List CacheKey) (sp' sp'' : List (Option String)) (rows' : List (List F))
      (ns' : List F)
      → pop_last ks' ≡ ok ks''
      → pop_last sp' ≡ ok sp''
      → drop_last (full sim es' ix' ks' sp' rows' ns' d (last + 1))
        ≡ (ok tt, full sim es' ix' ks'' sp'' rows' ns' d (last + 1 - 1))
  unfolding drop_last
  drop_last_lem es' ix' ks' ks'' sp' sp'' rows' ns' e f = rw e (rw f refl)

  drop_case :
      idx ≡ last
      → Dropped (
          drop_last (
            full sim
              (Dict.pop str_dec key es)
              (Dict.pop str_dec key ix)
              ks
              sp
              rows
              ns
              d
              (last + 1)))
  unfolding get
  drop_case at_last =
      let (ks', ke, kn, ksame) = pop_last_lem ks (omega (arith, shape.keys_count)) in
      let (sp', se, sn, ssame) = pop_last_lem sp (omega (arith, shape.spaces_count)) in
      let found' = subst (λ i. Dict.get str_dec key ix ≡ some i) at_last found in
      let short : length ks' ≡ last = omega (arith, kn, shape.keys_count) in
      let agree' =
        drop-Agree ix ks ks' key last agree found' short (omega (arith, shape.keys_count))
          (λ i lt. ksame i (omega (arith, lt, short))) in
      let n : last + 1 - 1 ≡ last = omega arith in
      (
        full sim (Dict.pop str_dec key es) (Dict.pop str_dec key ix) ks' sp' rows ns d
            (last + 1 - 1),
        drop_last_lem (Dict.pop str_dec key es) (Dict.pop str_dec key ix) ks ks' sp sp' rows ns ke
            se,
        (
          sim,
          Dict.pop str_dec key es,
          Dict.pop str_dec key ix,
          ks',
          sp',
          rows,
          ns,
          d,
          last + 1 - 1,
          refl,
          record {
            shape = record {
              keys_count = short ∙ sym n;
              spaces_count = omega (arith, sn, shape.spaces_count);
              capacity = omega (arith, shape.capacity);
              norms_count = shape.norms_count;
              widths = shape.widths;
            };
            agree = agree';
            same_keys = pop_together str_dec key es ix same_keys;
            content = λ k i e.
                let p : ¬ (key ≡ k) = λ p. absurd (ground (arith, Dict.get-pop str_dec key k ix)) in
                let (x, f, g, at_row, at_norm) =
                  content k i (sym (Dict.get-pop_ne str_dec key k ix p) ∙ e) in
                (
                  x,
                  Dict.get-pop_ne str_dec key k es p ∙ f,
                  ssame i (
                        omega (
                          arith,
                          get_elem?-lt ks' i k (agree'.listed k i e),
                          short,
                          sn,
                          shape.spaces_count,
                        ))
                      ∙ g,
                  at_row,
                  at_norm,
                );
          },
        ),
        refl,
        λ k. Dict.get-pop str_dec key k es,
      )

  module _ (other : idx ≢ last) (moved : CacheKey) (tail : get_elem? ks last ≡ some moved)
      (x : VectorSearchResult F) (entry : Dict.get str_dec moved es ≡ some x)
      (space : get_elem? sp last ≡ some x.metadata.namespace)
      (at_row : get_elem? rows last ≡ some x.embedding)
      (at_norm : get_elem? ns last ≡ some (np.norm x.embedding)) where
    abbrev es' : Dict CacheKey (VectorSearchResult F)
    es' = Dict.pop str_dec key es

    abbrev ix' : Dict CacheKey ℕ
    ix' = Dict.pop str_dec key ix

    abbrev rows' : List (List F)
    rows' = set rows idx x.embedding

    abbrev ns' : List F
    ns' = set ns idx (np.norm x.embedding)

    abbrev sp' : List (Option String)
    sp' = set sp idx x.metadata.namespace

    abbrev ks' : List CacheKey
    ks' = set ks idx moved

    below : idx < last
    below =
        let lt = get_elem?-lt ks idx key (agree.listed key idx found) in
        omega (arith, lt, shape.keys_count)

    moved_ne : ¬ (key ≡ moved)
    moved_ne p =
        apart idx last
          (sym found
            ∙ subst (λ y. Dict.get str_dec y ix ≡ some last) (sym p)
                (agree.indexed moved last tail))
          other

    copy_row_lem :
        copy_row idx last (full sim es' ix' ks sp rows ns d (last + 1))
        ≡ (ok tt, full sim es' ix' ks sp rows' ns d (last + 1))
    unfolding copy_row
    copy_row_lem =
        ap
          (λ y.
            writes y
              (λ (m : List (List F)) (t : InMemoryVectorStore F). record t { matrix = some m })
              (full sim es' ix' ks sp rows ns d (last + 1)))
          (copy_item_lem rows idx last x.embedding at_row (omega (arith, below, shape.capacity)))

    copy_norm_lem :
        copy_norm idx last (full sim es' ix' ks sp rows' ns d (last + 1))
        ≡ (ok tt, full sim es' ix' ks sp rows' ns' d (last + 1))
    unfolding copy_norm
    copy_norm_lem =
        ap
          (λ y.
            writes y (λ (m : List F) (t : InMemoryVectorStore F). record t { norms = some m })
              (full sim es' ix' ks sp rows' ns d (last + 1)))
          (copy_item_lem ns idx last (np.norm x.embedding) at_norm
            (omega (arith, below, shape.capacity, shape.norms_count)))

    copy_namespace_lem :
        copy_namespace idx last (full sim es' ix' ks sp rows' ns' d (last + 1))
        ≡ (ok tt, full sim es' ix' ks sp' rows' ns' d (last + 1))
    unfolding copy_namespace
    copy_namespace_lem =
        ap
          (λ y.
            writes y
              (λ (m : List (Option String)) (t : InMemoryVectorStore F). record t {
                namespaces = m;
              })
              (full sim es' ix' ks sp rows' ns' d (last + 1)))
          (copy_item_lem sp idx last x.metadata.namespace space
            (omega (arith, below, shape.spaces_count)))

    move_key_lem :
        move_key idx last (full sim es' ix' ks sp' rows' ns' d (last + 1))
        ≡ (ok tt, full sim es' (Dict.assign str_dec moved idx ix') ks' sp' rows' ns' d (last + 1))
    unfolding move_key
    move_key_lem =
        rw (tail, bind)
          (rw (set_item_lem ks idx moved (omega (arith, below, shape.keys_count)), bind) refl)

    move_last_lem :
        move_last idx last (full sim es' ix' ks sp rows ns d (last + 1))
        ≡ (ok tt, full sim es' (Dict.assign str_dec moved idx ix') ks' sp' rows' ns' d (last + 1))
    unfolding move_last
    move_last_lem = rw copy_row_lem (rw copy_norm_lem (rw copy_namespace_lem move_key_lem))

    kept_row :
        (ks'' : List CacheKey) (sp'' : List (Option String))
        → Agree (Dict.assign str_dec moved idx ix') ks''
        → length ks'' ≡ last
        → ((i : ℕ) → i < last → get_elem? sp'' i ≡ get_elem? sp' i)
        → (k : CacheKey) (i : ℕ) → Dict.get str_dec k (Dict.assign str_dec moved idx ix') ≡ some i
        → Content np es' sp'' rows' ns' k i
    kept_row ks'' sp'' agree' short ssame k i e = elim (str_dec moved k) [
      | yes q ↦
          let n : idx ≡ i = some_injective (
            sym (Dict.get-assign_self str_dec moved idx ix')
            ∙ subst (λ y. Dict.get str_dec y (Dict.assign str_dec moved idx ix') ≡ some i) (sym q)
                e) in
          (
            x,
            Dict.get-pop_ne str_dec key k es (λ p. moved_ne (p ∙ sym q))
                ∙ subst (λ y. Dict.get str_dec y es ≡ some x) q entry,
            subst (λ m. get_elem? sp'' m ≡ some x.metadata.namespace) n
                (ssame idx below
                  ∙ get_elem?-set_same sp idx x.metadata.namespace
                      (omega (arith, below, shape.spaces_count))),
            subst (λ m. get_elem? rows' m ≡ some x.embedding) n
                (get_elem?-set_same rows idx x.embedding (omega (arith, below, shape.capacity))),
            subst (λ m. get_elem? ns' m ≡ some (np.norm x.embedding)) n
                (get_elem?-set_same ns idx (np.norm x.embedding)
                  (omega (arith, below, shape.capacity, shape.norms_count))),
          )
      | no q ↦
          let f = sym (Dict.get-assign_ne str_dec moved k idx ix' q) ∙ e in
          let p : ¬ (key ≡ k) = λ p. absurd (ground (arith, Dict.get-pop str_dec key k ix)) in
          let g = sym (Dict.get-pop_ne str_dec key k ix p) ∙ f in
          let (y, a, b, c, w) = content k i g in
          let ne : idx ≢ i = λ n. p (
            some_injective (
              sym (agree.listed key idx found)
              ∙ subst (λ m. get_elem? ks m ≡ some k) (sym n) (agree.listed k i g))) in
          (
            y,
            Dict.get-pop_ne str_dec key k es p ∙ a,
            ssame i (omega (arith, get_elem?-lt ks'' i k (agree'.listed k i e), short))
                ∙ get_elem?-set_ne sp idx i x.metadata.namespace ne
                ∙ b,
            get_elem?-set_ne rows idx i x.embedding ne ∙ c,
            get_elem?-set_ne ns idx i (np.norm x.embedding) ne ∙ w,
          )
    ]

    swap_case : Dropped (
        drop_last (full sim es' (Dict.assign str_dec moved idx ix') ks' sp' rows' ns' d (last + 1)))
    unfolding get
    swap_case =
        let size_k = length-set ks idx moved in
        let size_s = length-set sp idx x.metadata.namespace in
        let (ks'', ke, kn, ksame) = pop_last_lem ks' (omega (arith, size_k, shape.keys_count)) in
        let (sp'', se, sn, ssame) = pop_last_lem sp' (omega (arith, size_s, shape.spaces_count)) in
        let short : length ks'' ≡ last = omega (arith, kn, size_k, shape.keys_count) in
        let short_sp : length sp'' ≡ last = omega (arith, sn, size_s, shape.spaces_count) in
        let long : length ks ≡ suc last = omega (arith, shape.keys_count) in
        let agree' =
          swap-Agree ix ks ks'' key moved idx last agree found tail other short long
            (λ i lt. ksame i (omega (arith, lt, short))) in
        let n : last + 1 - 1 ≡ last = omega arith in
        let there : Dict.get str_dec moved ix' ≡ some last =
          Dict.get-pop_ne str_dec key moved ix moved_ne ∙ agree.indexed moved last tail in
        (
          full sim es' (Dict.assign str_dec moved idx ix') ks'' sp'' rows' ns' d (last + 1 - 1),
          drop_last_lem es' (Dict.assign str_dec moved idx ix') ks' ks'' sp' sp'' rows' ns' ke se,
          (
            sim,
            es',
            Dict.assign str_dec moved idx ix',
            ks'',
            sp'',
            rows',
            ns',
            d,
            last + 1 - 1,
            refl,
            record {
              shape = record {
                keys_count = short ∙ sym n;
                spaces_count = short_sp ∙ sym n;
                capacity = omega (arith, shape.capacity, length-set rows idx x.embedding);
                norms_count = omega (
                  arith,
                  shape.norms_count,
                  length-set rows idx x.embedding,
                  length-set ns idx (np.norm x.embedding),
                );
                widths =
                    set-All np (λ y. length y ≡ d) rows idx x.embedding
                      (get_elem?-All (λ y. length y ≡ d) rows last x.embedding shape.widths at_row)
                      shape.widths;
              };
              agree = agree';
              same_keys =
                  pop_together str_dec key es ix same_keys
                  ∙ sym (keys-assign_present str_dec moved idx last ix' there);
              content =
                  kept_row ks'' sp'' agree' short (λ i lt. ssame i (omega (arith, lt, short_sp)));
            },
          ),
          refl,
          λ k. Dict.get-pop str_dec key k es,
        )

  pub deleted_lem : Dropped (remove_at key (some idx) (full sim es ix ks sp rows ns d (last + 1)))
  deleted_lem =
      let t0 =
        full sim (Dict.pop str_dec key es) (Dict.pop str_dec key ix) ks sp rows ns d (last + 1) in
      let n : last + 1 - 1 ≡ last = omega arith in
      subst (λ m. Dropped (((if idx == m then pure tt else move_last idx m) >> drop_last) t0))
        (sym n)
        (elim (Bool-cases (idx == last)) [
          | inl e ↦
              let at_last : idx ≡ last = ground arith in
              subst (λ z. Dropped ((z >> drop_last) t0))
                (sym (if_true (pure tt) (move_last idx last) e)) (drop_case at_last)
          | inr e ↦
              let other : idx ≢ last = ground arith in
              let (moved, tail) = get_elem?-some ks last (omega (arith, shape.keys_count)) in
              let (x, entry, space, at_row, at_norm) =
                content moved last (agree.indexed moved last tail) in
              subst (λ z. Dropped ((z >> drop_last) t0))
                (sym (if_false (pure tt) (move_last idx last) e))
                (subst (λ y. Dropped (continue y (λ _. drop_last)))
                  (sym (move_last_lem other moved tail x entry space at_row at_norm))
                  (swap_case other moved tail x entry space at_row at_norm))
        ])
