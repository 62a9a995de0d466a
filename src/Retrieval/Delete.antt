-- ===== src/Retrieval/Delete.antt =====
-- src/mlcache/retrieval/in_memory.py: `delete`.
use mlcache.Prelude.{ℕ, ◌-◌, Option, none, some, ◌==◌, if◌then◌else◌, str_dec, ok}
use mlcache.Prelude.{pop_last, item_at, set_item}
use mlcache.Prelude.{◌>>=◌ as bind}
use mlcache.Prelude.Exec.{Exec, pure, modify, ◌>>◌}
use mlcache.Dict
use mlcache.Types.{CacheKey}
use mlcache.Retrieval.{InMemoryVectorStore, writes, on_some, copy_item}

module _ {F : Type 0} where
  unfoldable pub copy_row : ℕ → ℕ → Exec (InMemoryVectorStore F) (Unit {0})
  copy_row i j s =
      writes (on_some s.matrix (λ rows. copy_item rows i j))
        (λ rows t. record t { matrix = some rows }) s

  unfoldable pub copy_norm : ℕ → ℕ → Exec (InMemoryVectorStore F) (Unit {0})
  copy_norm i j s =
      writes (on_some s.norms (λ ns. copy_item ns i j)) (λ ns t. record t { norms = some ns }) s

  unfoldable pub copy_namespace : ℕ → ℕ → Exec (InMemoryVectorStore F) (Unit {0})
  copy_namespace i j s =
      writes (copy_item s.namespaces i j) (λ ns t. record t { namespaces = ns }) s

  -- The last key gets the index that is free.
  unfoldable pub move_key : ℕ → ℕ → Exec (InMemoryVectorStore F) (Unit {0})
  move_key i j s =
      writes
        (bind (item_at s.idx_to_key j)
          (λ moved. bind (set_item s.idx_to_key i moved) (λ keys. ok (keys, moved))))
        (λ (keys, moved) t. record t {
          idx_to_key = keys;
          key_to_idx = Dict.assign str_dec moved i t.key_to_idx;
        })
        s

  unfoldable pub move_last : ℕ → ℕ → Exec (InMemoryVectorStore F) (Unit {0})
  move_last i last = copy_row i last >> copy_norm i last >> copy_namespace i last >> move_key i last

  unfoldable pub drop_last : Exec (InMemoryVectorStore F) (Unit {0})
  drop_last =
      (λ s. writes (pop_last s.idx_to_key) (λ keys t. record t { idx_to_key = keys }) s)
      >> (λ s. writes (pop_last s.namespaces) (λ ns t. record t { namespaces = ns }) s)
      >> modify (λ t. record t { count = t.count - 1 })

  abbrev pub remove_at : CacheKey → Option ℕ → Exec (InMemoryVectorStore F) (Unit {0})
  remove_at key none s = (ok tt, s)
  remove_at key (some idx) s =
      let t = record s {
        key_to_idx = Dict.pop str_dec key s.key_to_idx;
        entries = Dict.pop str_dec key s.entries;
      } in
      ((if idx == (s.count - 1) then pure tt else move_last idx (s.count - 1)) >> drop_last) t

  -- There is a row when a key has an index, so `count - 1` does not stop at 0.
  unfoldable pub delete : CacheKey → Exec (InMemoryVectorStore F) (Unit {0})
  delete key s = remove_at key (Dict.get str_dec key s.key_to_idx) s
