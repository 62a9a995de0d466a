-- ===== src/Threshold/Latest.antt =====
-- src/mlcache/calibration/threshold_store.py: a provider answers the latest threshold of a key.
use mlcache.Prelude.{◌≡◌, refl, ap, ◌∙◌, ite, List, [], ◌∷◌, arith, Result, ok, raise, key_error}
use mlcache.Dict
use mlcache.Dict.{Dict, get-assign}
use mlcache.Threshold.Store.{
  ThresholdKey, InMemoryThresholdProvider, get_threshold, set_threshold, clear,
}

-- The calls that change a provider.
pub data Change (F : Type 0) : Type 0 where
  to_set : F → ThresholdKey → Change F
  to_clear : Change F

module _ {F : Type 0} (dec : Discrete ThresholdKey) where
  abbrev change : Change F → InMemoryThresholdProvider F → InMemoryThresholdProvider F
  change (to_set t k) records = set_threshold dec t k records
  change to_clear records = clear records

  unfoldable pub change_all :
      List (Change F) → InMemoryThresholdProvider F → InMemoryThresholdProvider F
  change_all [] records = records
  change_all (x ∷ xs) records = change_all xs (change x records)

  -- The threshold that the changes leave under a key, after an earlier one.
  unfoldable pub latest : ThresholdKey → List (Change F) → Result F → Result F
  latest k [] earlier = earlier
  latest k (to_set t j ∷ xs) earlier = latest k xs (ite (dec j k) (ok t) earlier)
  latest k (to_clear ∷ xs) earlier = latest k xs (raise key_error)

  get_threshold-set_threshold :
      (k j : ThresholdKey) (t : F) (records : InMemoryThresholdProvider F)
      → get_threshold dec k (set_threshold dec t j records)
        ≡ ite (dec j k) (ok t) (get_threshold dec k records)
  unfolding get_threshold set_threshold
  get_threshold-set_threshold k j t records = rw get-assign (ground arith)

  get_threshold-clear :
      (k : ThresholdKey) (records : InMemoryThresholdProvider F)
      → get_threshold dec k (clear records) ≡ raise key_error
  unfolding get_threshold Dict.get
  get_threshold-clear k records = refl

  -- After any sequence of `set_threshold` and `clear` on an in-memory threshold provider,
  -- `get_threshold` answers the threshold that was set last for just this key (scorer, scope,
  -- region and cluster) and not cleared since. If there is none, it raises `KeyError` where the
  -- provider was cleared, and answers as before the sequence where it was not.
  pub get_threshold-change_all :
      (k : ThresholdKey) (xs : List (Change F)) (records : InMemoryThresholdProvider F)
      → get_threshold dec k (change_all xs records) ≡ latest k xs (get_threshold dec k records)
  unfolding change_all latest
  get_threshold-change_all k [] records = refl
  get_threshold-change_all k (to_set t j ∷ xs) records =
      get_threshold-change_all k xs (set_threshold dec t j records)
      ∙ ap (latest k xs) (get_threshold-set_threshold k j t records)
  get_threshold-change_all k (to_clear ∷ xs) records =
      get_threshold-change_all k xs [] ∙ ap (latest k xs) (get_threshold-clear k records)
