-- ===== src/Retrieval/Refinement.antt =====
-- src/mlcache/retrieval/in_memory.py: the store implements a finite map from keys to entries.
use mlcache.Prelude.{
  ℕ, ◌+◌, ◌-◌, ◌<◌, String, ◌≡◌, refl, sym, ap, ◌∙◌, subst, inl, inr, ite, if_pos, if_neg, Option,
  none, some, List, [], ◌∷◌, ◌++◌, arith, str_dec, length, All, Result, ok,
}
use mlcache.Prelude.{set_item_lem, get_elem?-lt}
use mathlib.Core.Path.{fun_ext}
use mlcache.Prelude.Exec.{continue}
use mlcache.Retrieval.Delete.{delete, remove_at}
use mlcache.Retrieval.Deleted.{deleted_lem}
use mlcache.Dict
use mlcache.Dict.{Dict, keys}
use mlcache.Dict.Keys.{absent_together}
use mlcache.Float.{FloatOps}
use mlcache.Types.{CacheKey, CacheEntry}
use mlcache.Oracle.{VectorSearchResult}
use mlcache.Retrieval.{
  Similarity, Numpy, InMemoryVectorStore, empty_store, replicate, zero_rows, ensure_capacity,
  writes, write_namespace, place, add_at, add_result, result_of, upsert, get,
}
use mlcache.Retrieval.Tables.{some_injective}
use mlcache.Retrieval.Valid.{full, WritesRows, Fields, IsFull, IsValid}
use mlcache.Retrieval.Upserted.{
  length-replicate, replicate-All, Fits, Stored, ensured, longer-Fields, new_key, old_key,
  add_key_lem,
}

module _ {F : Type 0} ⦃fl : FloatOps F⦄ (np : Numpy F) (rowed : WritesRows np)
    (r : VectorSearchResult F) where
  module _ (sim : Similarity) (es : Dict CacheKey (VectorSearchResult F)) (ix : Dict CacheKey ℕ)
      (ks : List CacheKey) (sp : List (Option String)) (rows : List (List F)) (ns : List F)
      (d n : ℕ) (h : Fields np es ix ks sp rows ns d n) (fits : length r.embedding ≡ d) where
    added :
        (x : Option ℕ)
        → Dict.get str_dec r.cache_key ix ≡ x
        → Stored np rowed r
            (full sim es ix ks sp rows ns d n)
            (add_at np r x (full sim es ix ks sp rows ns d n))
    unfolding add_at write_namespace get
    added none e =
        let (more, extra, grow, room, sizes, wide) =
          ensured np rowed r sim es ix ks sp rows ns d n h fits in
        subst (λ t. Stored np rowed r (full sim es ix ks sp rows ns d n) (place np r n t))
          (sym (add_key_lem np rowed r sim es ix ks sp rows ns d n h fits more extra grow))
          (new_key np rowed r sim es ix ks sp (rows ++ more) (ns ++ extra) d n
            (longer-Fields np rowed r sim es ix ks sp rows ns d n h fits more extra sizes wide) fits
            room e)
    added (some idx) e =
        let lt : idx < length sp = omega (
          arith,
          get_elem?-lt ks idx r.cache_key (h.agree.listed r.cache_key idx e),
          h.shape.keys_count,
          h.shape.spaces_count,
        ) in
        subst
          (λ x. Stored np rowed r (full sim es ix ks sp rows ns d n) (
            continue
              (writes x (λ nss (t : InMemoryVectorStore F). record t { namespaces = nss })
                (full sim es ix ks sp rows ns d n))
              (λ _. place np r idx)))
          (sym (set_item_lem sp idx r.metadata.namespace lt))
          (old_key np rowed r sim es ix ks sp rows ns d n h fits idx e)

  -- The first entry of a store.
  first_Fields :
      Fields np [] [] [] []
        (zero_rows 16 (length r.embedding))
        (replicate 16 (fl.of_ℕ 0))
        (length r.embedding)
        0
  first_Fields = record {
    shape = record {
      keys_count = refl;
      spaces_count = refl;
      capacity = omega arith;
      norms_count = refl;
      widths =
          replicate-All (λ x. length x ≡ length r.embedding) 16 _
            (length-replicate (length r.embedding) (fl.of_ℕ 0));
    };
    agree = record {
      listed = λ k i e. absurd (unfold Dict.get in ground arith);
      indexed = λ k i e. absurd (ground arith);
    };
    same_keys = refl;
    content = λ k i e. absurd (unfold Dict.get in ground arith);
  }

  first :
      (sim : Similarity) → Stored np rowed r (empty_store sim) (add_result np r (empty_store sim))
  unfolding add_result add_at ensure_capacity Dict.get Dict.assign get
  first sim =
      new_key np rowed r sim [] [] [] [] (zero_rows 16 (length r.embedding))
        (replicate 16 (fl.of_ℕ 0)) (length r.embedding) 0 first_Fields refl (omega arith) refl

  pub add_result-Stored :
      (s : InMemoryVectorStore F)
      → IsValid np s
      → Fits np rowed r s
      → Stored np rowed r s (add_result np r s)
  unfolding add_result
  add_result-Stored s (inl (sim, e)) fits = rw e (first sim)
  add_result-Stored s (inr (sim, es, ix, ks, sp, rows, ns, d, n, e, h)) fits = rw e (
      added sim es ix ks sp rows ns d n h (fits d (rw e refl)) (Dict.get str_dec r.cache_key ix)
        refl)

-- The entries by key, and what a call does to them.
abbrev pub Entries : Type 0 → Type 0
Entries F = CacheKey → Option (VectorSearchResult F)

abbrev pub update : {F : Type 0} → CacheKey → Option (VectorSearchResult F) → Entries F → Entries F
update key x m k = ite (str_dec key k) x (m k)

pub data Command (F : Type 0) : Type 0 where
  upsert_entry : CacheEntry F → Command F
  delete_key : CacheKey → Command F

module _ {F : Type 0} ⦃fl : FloatOps F⦄ (np : Numpy F) where
  unfoldable pub apply :
      Command F → InMemoryVectorStore F → Result (Unit {0}) × InMemoryVectorStore F
  apply (upsert_entry entry) = upsert np entry
  apply (delete_key key) = delete key

  -- The calls in order, until one raises.
  unfoldable pub apply_all :
      List (Command F) → InMemoryVectorStore F → Result (Unit {0}) × InMemoryVectorStore F
  apply_all [] s = (ok tt, s)
  apply_all (c ∷ cs) s = continue (apply c s) (λ _. apply_all cs)

  abbrev pub command_update : Command F → Entries F → Entries F
  command_update (upsert_entry entry) = update entry.cache_key (some (result_of entry))
  command_update (delete_key key) = update key none

  abbrev pub update_all : List (Command F) → Entries F → Entries F
  update_all [] m = m
  update_all (c ∷ cs) m = update_all cs (command_update c m)

  -- An embedding of the command has the width.
  abbrev pub HasWidth : ℕ → Command F → Type 0
  HasWidth d (upsert_entry entry) = length entry.embedding ≡ d
  HasWidth d (delete_key key) = Unit

  -- Valid, and of this width once it has one.
  abbrev pub Ready : ℕ → InMemoryVectorStore F → Type 0
  Ready d s = IsValid np s × ((e : ℕ) → s.dim ≡ some e → e ≡ d)

  -- The call returned, and the store is ready and holds these entries.
  abbrev pub Implements : ℕ → Entries F → Result (Unit {0}) × InMemoryVectorStore F → Type 0
  Implements d m run = (t : InMemoryVectorStore F) × (run ≡ (ok tt, t)) × Ready d t × (get t ≡ m)

  module _ (d : ℕ) where
    deleted_absent :
        (key : CacheKey) (s : InMemoryVectorStore F)
        → get s key ≡ none
        → get s ≡ update key none (get s)
    deleted_absent key s e = fun_ext (λ k. elim (str_dec key k) [
      | yes p ↦ rw (if_pos _ p) (subst (λ x. get s x ≡ none) p e)
      | no p ↦ rw (if_neg _ p) refl
    ])

    delete_full :
        (key : CacheKey) (sim : Similarity) (es : Dict CacheKey (VectorSearchResult F))
        (ix : Dict CacheKey ℕ) (ks : List CacheKey) (sp : List (Option String))
        (rows : List (List F)) (ns : List F) (n : ℕ)
        → Fields np es ix ks sp rows ns d n
        → (x : Option ℕ) → Dict.get str_dec key ix ≡ x
        → Implements d
            (update key none (get (full sim es ix ks sp rows ns d n)))
            (remove_at key x (full sim es ix ks sp rows ns d n))
    unfolding get
    delete_full key sim es ix ks sp rows ns n h none e =
        let s = full sim es ix ks sp rows ns d n in
        (
          s,
          refl,
          (inr (sim, es, ix, ks, sp, rows, ns, d, n, refl, h), λ i f. sym (some_injective f)),
          deleted_absent key s (absent_together str_dec key ix es (sym h.same_keys) e),
        )
    delete_full key sim es ix ks sp rows ns n h (some idx) e =
        let q : n - 1 + 1 ≡ n =
          omega (arith, get_elem?-lt ks idx key (h.agree.listed key idx e), h.shape.keys_count) in
        let (t, run, valid, wide, same) =
          subst (λ m. Fields np es ix ks sp rows ns d m → Removed m) q
            (λ h'. deleted_lem np key sim es ix ks sp rows ns d (n - 1) h' idx e) h in
        (t, run, (inr valid, λ i f. some_injective (sym f ∙ wide)), fun_ext same)
      where
        Removed : ℕ → Type 0
        Removed m =
            (t : InMemoryVectorStore F) × (remove_at key (some idx)
                (full sim es ix ks sp rows ns d m)
              ≡ (ok tt, t))
            × IsFull np t
            × (t.dim ≡ some d)
            × ((k : CacheKey) → get t k ≡ ite (str_dec key k) none (Dict.get str_dec k es))

  module _ (rowed : WritesRows np) (d : ℕ) where
    delete-Implements :
        (key : CacheKey) (s : InMemoryVectorStore F)
        → Ready d s
        → Implements d (update key none (get s)) (delete key s)
    unfolding delete get Dict.get
    delete-Implements key s (inl (sim, e), w) = rw e (
      empty_store sim,
      refl,
      (inl (sim, refl), λ i f. absurd (ground arith)),
      deleted_absent d key (empty_store sim) refl,
    )
    delete-Implements key s (inr (sim, es, ix, ks, sp, rows, ns, e, n, q, h), w) = rw q (
        subst
          (λ m.
            Implements m (update key none (get (full sim es ix ks sp rows ns e n)))
              (remove_at key (Dict.get str_dec key ix) (full sim es ix ks sp rows ns e n)))
          (w e (rw q refl))
          (delete_full e key sim es ix ks sp rows ns n h (Dict.get str_dec key ix) refl))

    upsert-Implements :
        (entry : CacheEntry F) (s : InMemoryVectorStore F)
        → length entry.embedding ≡ d
        → Ready d s
        → Implements d (update entry.cache_key (some (result_of entry)) (get s)) (upsert np entry s)
    unfolding upsert
    upsert-Implements entry s fits (valid, w) =
        let (t, run, full_t, wide, same) =
          add_result-Stored np rowed (result_of entry) s valid (λ i f. fits ∙ sym (w i f)) in
        (t, run, (inr full_t, λ i f. some_injective (sym f ∙ wide) ∙ fits), fun_ext same)

    apply-Implements :
        (c : Command F) (s : InMemoryVectorStore F)
        → HasWidth d c
        → Ready d s
        → Implements d (command_update c (get s)) (apply c s)
    unfolding apply
    apply-Implements (upsert_entry entry) s fits h = upsert-Implements entry s fits h
    apply-Implements (delete_key key) s fits h = delete-Implements key s h

    -- The vector store implements a finite map. Whatever sequence of `upsert` and `delete` is
    -- called on a valid store, with embeddings of one width, no call raises, the store is valid
    -- afterwards, and looking a key up gives what the same updates of a map from keys to entries
    -- give. Valid means that each key with an index stands at that index of the list of keys, that
    -- the row, the norm and the namespace at the index are those of the key's entry, and that the
    -- sizes agree. It is assumed that numpy writes a vector of a row's width as it is.
    pub apply_all-Implements :
        (cs : List (Command F)) (s : InMemoryVectorStore F)
        → All (HasWidth d) cs
        → Ready d s
        → Implements d (update_all cs (get s)) (apply_all cs s)
    unfolding apply_all
    apply_all-Implements [] s fits h = (s, refl, h, refl)
    apply_all-Implements (c ∷ cs) s fits h =
        let (t, run, ready, same) = apply-Implements c s fits.0 h in
        let (u, run', ready', same') = apply_all-Implements cs t fits.1 ready in
        (
          u,
          ap (λ (x : Result (Unit {0}) × InMemoryVectorStore F). continue x (λ _. apply_all cs)) run
              ∙ run',
          ready',
          same' ∙ ap (update_all cs) same,
        )
