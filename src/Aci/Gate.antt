-- ===== src/Aci/Gate.antt =====
-- The Wilson gate, the quiet labels, and the threshold.
use mlcache.Prelude.{
  ◌≡◌, refl, sym, ap, ◌∙◌, ◌⊎◌, inl, inr, Bool, true, false, ◌&&◌, Option, none, some, arith,
  Bool-cases, if_true, if_false, Result, ok, raise,
}
use mlcache.Prelude.{◌>>=◌, if_true, if_false}
use mlcache.Float.{FloatOps, FloatLaws, fmin, fmax}
use mlcache.Aci.{
  Controller, wilson_ucb, observed, proposal, moved, blocked, gated, update_h0, update,
}
use mlcache.Aci.Bounds.{IsValid}

module _ {F : Type 0} ⦃fl : FloatOps F⦄ (laws : FloatLaws fl) where
  -- A clamp of what does not exceed `x` does not exceed it, where the bounds hold `x`.
  clamp_no_raise :
      (lo hi x p : F)
      → fl.le lo x ≡ true
      → fl.le x hi ≡ true
      → fl.lt x p ≡ false
      → fl.lt x (fmin hi (fmax lo p)) ≡ false
  clamp_no_raise lo hi x p low high under = clamped (Bool-cases (fl.lt lo p))
    where
      not_above_lo : fl.lt x lo ≡ false
      not_above_lo = ground (arith, laws.lt_not_le x lo)

      at_hi : fl.le hi x ≡ true → fl.lt x hi ≡ false
      at_hi h = ground (arith, laws.lt_not_le x hi)

      -- `hi` is at most `x` where it is at most a number that does not exceed `x`.
      reach : (q : F) → fl.le hi q ≡ true → fl.lt x q ≡ false → fl.le hi x ≡ true
      reach q h u =
          let x_q = laws.le_trans x hi q high h in
          ground (arith, laws.not_le_lt x q x_q, laws.le_trans hi q x h)

      capped : (q : F) → fl.le q q ≡ true → fl.lt x q ≡ false → fl.lt x (fmin hi q) ≡ false
      capped q num u = elim (Bool-cases (fl.lt q hi)) [
        | inl e ↦ rw e u
        | inr e ↦ rw e (at_hi (reach q (above q num e) u))
      ]
        where
          above : (q : F) → fl.le q q ≡ true → fl.lt q hi ≡ false → fl.le hi q ≡ true
          above q num e =
              ground (arith, laws.not_le_lt q hi, laws.le_total q hi num (laws.le_right x hi high))

      clamped : (fl.lt lo p ≡ true) ⊎ (fl.lt lo p ≡ false) → fl.lt x (fmin hi (fmax lo p)) ≡ false
      clamped (inl e) = rw e (capped p (laws.le_right lo p (laws.lt_le lo p e)) under)
      clamped (inr e) = rw e (capped lo (laws.le_left lo x low) not_above_lo)

  blocked_stays : (c : Controller F) → IsValid c → fl.lt c.alpha_t (blocked c).alpha_t ≡ false
  blocked_stays c v =
      clamp_no_raise c.config.alpha_min c.config.alpha_max c.alpha_t c.alpha_t v.low v.high
        (ground (arith, laws.lt_not_le c.alpha_t c.alpha_t, laws.le_right _ c.alpha_t v.low))

  -- The bound that let an upward move pass.
  abbrev Passed : Controller F → Type 0
  Passed d = (u : F) × (wilson_ucb d ≡ ok (some u)) × (fl.lt d.config.alpha_target u ≡ false)

  -- With the gate on, an update of a valid controller on an H0 event that raises `alpha_t` has a
  -- Wilson bound on the control outcomes, this one included, and the bound is not above the
  -- target. Floats obey the order laws.
  pub gate_loosens :
      (c c' : Controller F) (score : F) (accepted : Bool)
      → IsValid c
      → c.config.wilson_gate ≡ true
      → update c score (some 0) accepted ≡ ok c'
      → fl.lt c.alpha_t c'.alpha_t ≡ true
      → (u : F) × (wilson_ucb (observed c score accepted) ≡ ok (some u))
        × (fl.lt c.config.alpha_target u ≡ false)
  unfolding update update_h0 gated
  gate_loosens c c' score accepted v on h up = opened (Bool-cases (fl.lt c.alpha_t proposed))
    where
      d : Controller F
      d = observed c score accepted

      proposed : F
      proposed = proposal c accepted

      -- No result that leaves `alpha_t` at most where it was.
      not_lower : (x : Controller F) → fl.lt c.alpha_t x.alpha_t ≡ false → ok x ≡ ok c' → ⊥
      not_lower x low e = ground arith

      passed :
          (r : Result (Option F))
          → wilson_ucb d ≡ r
          → (r >>= λ ucb. ok (gated d proposed ucb)) ≡ ok c'
          → Passed d
      passed (raise x) e k = absurd (ground arith)
      passed (ok none) e k = absurd (not_lower (blocked d) (blocked_stays c v) k)
      passed (ok (some u)) e k = elim (Bool-cases (fl.lt c.config.alpha_target u)) [
        | inl over ↦
            absurd (not_lower (blocked d) (blocked_stays c v) (ap ok (sym (if_true _ _ over)) ∙ k))
        | inr within ↦ (u, e, within)
      ]

      opened : (fl.lt c.alpha_t proposed ≡ true) ⊎ (fl.lt c.alpha_t proposed ≡ false) → Passed d
      opened (inl e) =
          let both : (c.config.wilson_gate && fl.lt c.alpha_t proposed) ≡ true = rw (on, e) refl in
          passed (wilson_ucb d) refl (sym (if_true _ _ both) ∙ h)
      opened (inr e) =
          let closed : (c.config.wilson_gate && fl.lt c.alpha_t proposed) ≡ false =
            rw (on, e) refl in
          absurd (
            not_lower (moved d proposed)
              (clamp_no_raise c.config.alpha_min c.config.alpha_max c.alpha_t proposed v.low v.high
                e)
              (sym (if_false _ _ closed) ∙ h))
