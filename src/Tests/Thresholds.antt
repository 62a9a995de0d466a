-- ===== src/Tests/Thresholds.antt =====
-- Examples for the threshold store.
use mlcache.Prelude.{
  ℕ, String, ◌≡◌, refl, ap, ◌∙◌, Option, none, some, List, [], ◌∷◌, arith, str_dec,
}
use mlcache.Threshold.Store.{
  ThresholdScope, global, local, cluster_local, ThresholdKey, get_threshold,
}
use mlcache.Threshold.Latest.{
  Change, to_set, to_clear, change_all, latest, get_threshold-change_all,
}
use mlcache.Tests.Feedback.{option_dec}

scope_dec : Discrete ThresholdScope
scope_dec global global = yes refl
scope_dec local local = yes refl
scope_dec cluster_local cluster_local = yes refl
scope_dec global local = no (λ p. ground arith)
scope_dec global cluster_local = no (λ p. ground arith)
scope_dec local global = no (λ p. ground arith)
scope_dec local cluster_local = no (λ p. ground arith)
scope_dec cluster_local global = no (λ p. ground arith)
scope_dec cluster_local local = no (λ p. ground arith)

abbrev key_of : String → ThresholdScope → Option String → Option String → ThresholdKey
key_of s c r l = record { scorer = s; scope = c; region_id = r; cluster_id = l }

key_dec : Discrete ThresholdKey
key_dec a b = elim (str_dec a.scorer b.scorer) [
  | no p ↦ no (λ e. p (ap (λ (x : ThresholdKey). x.scorer) e))
  | yes p ↦ elim (scope_dec a.scope b.scope) [
    | no q ↦ no (λ e. q (ap (λ (x : ThresholdKey). x.scope) e))
    | yes q ↦ elim (option_dec str_dec a.region_id b.region_id) [
      | no r ↦ no (λ e. r (ap (λ (x : ThresholdKey). x.region_id) e))
      | yes r ↦ elim (option_dec str_dec a.cluster_id b.cluster_id) [
        | no t ↦ no (λ e. t (ap (λ (x : ThresholdKey). x.cluster_id) e))
        | yes t ↦ yes (
            ap (λ x. key_of x a.scope a.region_id a.cluster_id) p
            ∙ ap (λ x. key_of b.scorer x a.region_id a.cluster_id) q
            ∙ ap (λ x. key_of b.scorer b.scope x a.cluster_id) r
            ∙ ap (λ x. key_of b.scorer b.scope b.region_id x) t)
      ]
    ]
  ]
]

abbrev a_key : ThresholdKey
a_key = key_of "s" global none none

abbrev changes : List (Change ℕ)
changes =
    to_set 10 (key_of "s" local none none)
    ∷ to_clear
    ∷ to_set 20 a_key
    ∷ to_set 30 (key_of "s" local (some "r") none)
    ∷ to_set 40 a_key
    ∷ []

get_threshold-change_all_example :
    get_threshold key_dec a_key (change_all key_dec changes [])
    ≡ latest key_dec a_key changes (get_threshold key_dec a_key [])
get_threshold-change_all_example = get_threshold-change_all key_dec a_key changes []
