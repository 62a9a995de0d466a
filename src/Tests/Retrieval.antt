-- ===== src/Tests/Retrieval.antt =====
-- Examples for the in-memory vector store.
use mlcache.Prelude.{
  ℕ, ◌+◌, ◌*◌, ◌≤◌, String, ◌≡◌, refl, sym, ap, subst, inl, false, none, some, List, [], ◌∷◌, map,
  arith, ◌==◌, if◌then◌else◌, length, All, length-map, Result, ok, raise, value_error,
}
use mlcache.Types.{CacheKey, CacheEntry}
use mlcache.Tests.Numbers.{hundredths}
use mlcache.Oracle.{VectorSearchResult}
use mlcache.Retrieval.{Numpy, InMemoryVectorStore, cosine, empty_store, get}
use mlcache.Retrieval.Valid.{WritesRows}
use mlcache.Retrieval.Refinement.{
  Command, upsert_entry, delete_key, apply_all, update_all, Ready, Implements, apply_all-Implements,
}
use mlcache.Retrieval.Search.{arange, search}
use mlcache.Retrieval.Found.{SearchLaws, IsFoundIn, search-IsFoundIn}
use mlcache.Retrieval.Ranks.{arange-range}

abbrev product : List ℕ → List ℕ → ℕ
product [] ys = 0
product (x ∷ xs) [] = 0
product (x ∷ xs) (y ∷ ys) = x * y + product xs ys

-- Products of whole numbers, and the first positions.
abbrev numbers_py : Numpy ℕ
numbers_py = record {
  as_row = λ w v. if length v == w then ok v else raise value_error;
  norm = λ v. product v v;
  dots = λ rows query. ok (map (λ r. product r query) rows);
  top = λ scores k. arange k 0;
}

writes_rows : WritesRows numbers_py
writes_rows v = ground arith

numbers_py_laws : SearchLaws numbers_py
numbers_py_laws = record {
  dots_return = λ rows query h.
      (map (λ r. product r query) rows, refl, length-map (λ r. product r query) rows);
  top_range = λ scores k lt. arange-range k 0 (length scores) (omega arith);
  neg_inf_number = refl;
}

abbrev entry_in : CacheKey → String → ℕ → CacheEntry ℕ
entry_in key namespace x = record {
  cache_key = key;
  query = "q";
  response = "r";
  embedding = x ∷ 1 ∷ [];
  metadata = record {
    namespace = some namespace;
    top_k = none;
    query_id = none;
    request_id = none;
  };
}

abbrev commands : List (Command ℕ)
commands =
    upsert_entry (entry_in "a" "left" 3)
    ∷ upsert_entry (entry_in "b" "right" 5)
    ∷ upsert_entry (entry_in "c" "left" 7)
    ∷ delete_key "a"
    ∷ upsert_entry (entry_in "b" "left" 9)
    ∷ []

abbrev nothing : InMemoryVectorStore ℕ
nothing = empty_store cosine

nothing-Ready : Ready numbers_py 2 nothing
nothing-Ready = (inl (cosine, refl), λ e h. absurd (ground arith))

apply_all-Implements_example :
    Implements numbers_py 2
      (update_all numbers_py commands (get nothing))
      (apply_all numbers_py commands nothing)
apply_all-Implements_example =
    apply_all-Implements numbers_py writes_rows 2 commands nothing
      (refl, (refl, (refl, (tt, (refl, tt))))) nothing-Ready

abbrev state_after : List (Command ℕ) → InMemoryVectorStore ℕ
state_after cs = (apply_all numbers_py cs nothing).1

abbrev filled : InMemoryVectorStore ℕ
filled = state_after commands

filled-Ready : Ready numbers_py 2 filled
filled-Ready =
    let (t, run, ready, same) =
      apply_all-Implements numbers_py writes_rows 2 commands nothing
        (refl, (refl, (refl, (tt, (refl, tt))))) nothing-Ready in
    subst (Ready numbers_py 2)
      (sym (ap (λ (x : Result (Unit {0}) × InMemoryVectorStore ℕ). x.1) run)) ready

filled_fits : (d : ℕ) → filled.dim ≡ some d → length {A = ℕ} (1 ∷ 2 ∷ []) ≡ d
filled_fits d e = sym (filled-Ready.1 d e)

search-IsFoundIn_example :
    (rs : List (VectorSearchResult ℕ)) × (search numbers_py
        (λ a b. false)
        filled
        (1 ∷ 2 ∷ [])
        (some "left")
        2
      ≡ ok rs)
    × (length rs ≤ 2)
    × All (IsFoundIn numbers_py filled (1 ∷ 2 ∷ []) (some "left")) rs
search-IsFoundIn_example =
    search-IsFoundIn numbers_py numbers_py_laws (λ a b. false) filled (1 ∷ 2 ∷ []) (some "left") 2
      filled-Ready.0 filled_fits
