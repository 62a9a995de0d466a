-- ===== src/KvStore.antt =====
-- src/mlcache/cache/in_memory.py: the response store. A response is a text, so a missing key is
-- the only way to read `None`.
use mlcache.Prelude.{ℕ, Bool, Option, [], ◌∷◌, length, str_dec, is_some}
use mlcache.Dict
use mlcache.Dict.{Dict}
use mlcache.Types.{CacheKey, Response}

abbrev pub KvStore : Type 0
KvStore = Dict CacheKey Response

abbrev pub get : KvStore → CacheKey → Option Response
get s key = Dict.get str_dec key s

abbrev pub set : KvStore → CacheKey → Response → KvStore
set s key response = Dict.assign str_dec key response s

abbrev pub delete : KvStore → CacheKey → KvStore
delete s key = Dict.pop str_dec key s

abbrev pub contains : KvStore → CacheKey → Bool
contains s key = is_some (Dict.get str_dec key s)

abbrev pub clear : KvStore → KvStore
clear s = []

abbrev pub size : KvStore → ℕ
size s = length s

abbrev pub init : Dict CacheKey Response → KvStore
init = fill []
  where
    fill : KvStore → Dict CacheKey Response → KvStore
    fill s [] = s
    fill s ((k, v) ∷ initial) = fill (set s k v) initial
