-- ===== src/Wilson.antt =====
-- src/mlcache/calibration/wilson.py: the Wilson score upper bound. Counts are natural numbers, so
-- the tests for negative ones have no case here.
use mlcache.Prelude.{
  ℕ, ◌≡◌, subst, true, Option, none, some, arith, ltb, ◌==◌, if◌then◌else◌, Result, ok, raise,
  value_error,
}
use mlcache.Float.{FloatOps, FloatLaws, fmin, fmin-le_left}

module _ {F : Type 0} ⦃fl : FloatOps F⦄ where
  -- `min(1.0, (center + radius) / denom)` for `n > 0`.
  unfoldable pub wilson_value : ℕ → ℕ → F → F
  wilson_value successes n z =
      let one = fl.of_ℕ 1 in
      let m = fl.of_ℕ n in
      let phat = fl.div (fl.of_ℕ successes) m in
      let z2 = fl.mul z z in
      let denom = fl.add one (fl.div z2 m) in
      let center = fl.add phat (fl.div z2 (fl.mul (fl.of_ℕ 2) m)) in
      let radius = fl.mul z (
        fl.sqrt (
          fl.add (fl.div (fl.mul phat (fl.sub one phat)) m)
            (fl.div z2 (fl.mul (fl.mul (fl.of_ℕ 4) m) m)))) in
      fmin one (fl.div (fl.add center radius) denom)

  unfoldable pub wilson_upper_bound : ℕ → ℕ → F → Result (Option F)
  wilson_upper_bound successes n z =
      if ltb n successes
      then raise value_error
      else if fl.le z (fl.of_ℕ 0)
      then raise value_error
      else if n == 0
      then ok none
      else ok (some (wilson_value successes n z))

  -- A Wilson bound that is returned is at most 1, where 1 is a number (not a NaN) and floats obey
  -- the order laws.
  wilson-le-one :
      (laws : FloatLaws fl) (successes n : ℕ) (z u : F)
      → fl.le (fl.of_ℕ 1) (fl.of_ℕ 1) ≡ true
      → wilson_upper_bound successes n z ≡ ok (some u)
      → fl.le u (fl.of_ℕ 1) ≡ true
  unfolding wilson_upper_bound
  wilson-le-one laws successes n z u one h =
      let q : wilson_value successes n z ≡ u = ground arith in
      subst (λ x. fl.le x (fl.of_ℕ 1) ≡ true) q (unfold wilson_value in fmin-le_left laws _ _ one)
