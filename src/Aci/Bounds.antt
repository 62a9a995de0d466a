-- ===== src/Aci/Bounds.antt =====
-- The controller's bounds: its windows never outgrow their length, and `alpha_t` stays in its range.
use mlcache.Prelude.{
  ℕ, zero, suc, ◌+◌, ◌-◌, ◌≤◌, min, ◌≡◌, sym, subst, ◌⊎◌, inl, inr, Bool, true, false, ◌&&◌, Option,
  none, some, List, [], ◌∷◌, ◌++◌, arith, Bool-cases, if_true, if_false, length, length-append,
  length-drop, Result, ok, raise,
}
use mlcache.Prelude.{◌>>=◌, if_true, if_false}
use mlcache.Float.{FloatOps, FloatLaws, clamp_bounds}
use mlcache.Aci.{
  trim, push, Controller, seed_scores, seed, wilson_ucb, observed, proposal, moved, blocked, gated,
  update_h0, update,
}

pub length-trim {ℓ} : {A : Type ℓ} (n : ℕ) (xs : List A) → length (trim n xs) ≤ n
length-trim n xs = omega (arith, length-drop (length xs - n) xs)

length-push {ℓ} :
    {A : Type ℓ} (n : ℕ) (xs : List A) (x : A)
    → length xs ≤ n
    → length (push n xs x) ≡ min n (length xs + 1)
length-push n xs x h =
    omega (arith, length-drop (length (xs ++ x ∷ []) - n) (xs ++ x ∷ []), length-append xs (x ∷ []))

module _ {F : Type 0} ⦃fl : FloatOps F⦄ where
  pub record IsValid (c : Controller F) : Type 0 where
    pub buffer_fits : length c.buffer ≤ c.config.buffer_size
    pub origins : length c.buffer_origin ≡ length c.buffer
    pub outcomes_fit : length c.ctrl_outcomes ≤ c.config.wilson_window
    pub low : fl.le c.config.alpha_min c.alpha_t ≡ true
    pub high : fl.le c.alpha_t c.config.alpha_max ≡ true
    pub range : fl.le c.config.alpha_min c.config.alpha_max ≡ true

  -- The controller after one seeded score.
  abbrev seeded : Controller F → F → Controller F
  seeded c x = record c {
    buffer = push c.config.buffer_size c.buffer x;
    buffer_origin = push c.config.buffer_size c.buffer_origin false;
  }

  seed_scores-IsValid : (c : Controller F) (vs : List F) → IsValid c → IsValid (seed_scores c vs)
  unfolding seed_scores
  seed_scores-IsValid c [] v = v
  seed_scores-IsValid c (x ∷ vs) v = seed_scores-IsValid (seeded c x) vs (record {
    buffer_fits = length-trim _ _;
    origins = omega (
      arith,
      length-push c.config.buffer_size c.buffer x v.buffer_fits,
      length-push c.config.buffer_size c.buffer_origin false,
      v.origins,
    );
    outcomes_fit = v.outcomes_fit;
    low = v.low;
    high = v.high;
    range = v.range;
  })

  pub seed-IsValid :
      (c : Controller F) (vs : List F) (fallback : Option F)
      → IsValid c
      → IsValid (seed c vs fallback)
  unfolding seed
  seed-IsValid c vs fallback v =
      let w = seed_scores-IsValid c vs v in
      record {
        buffer_fits = w.buffer_fits;
        origins = w.origins;
        outcomes_fit = w.outcomes_fit;
        low = w.low;
        high = w.high;
        range = w.range;
      }

  observed-IsValid :
      (c : Controller F) (score : F) (accepted : Bool)
      → IsValid c
      → IsValid (observed c score accepted)
  observed-IsValid c score accepted v = record {
    buffer_fits = length-trim _ _;
    origins = omega (
      arith,
      length-push c.config.buffer_size c.buffer score v.buffer_fits,
      length-push c.config.buffer_size c.buffer_origin true,
      v.origins,
    );
    outcomes_fit = length-trim _ _;
    low = v.low;
    high = v.high;
    range = v.range;
  }

  module _ (laws : FloatLaws fl) where
    moved-IsValid : (c : Controller F) (x : F) → IsValid c → IsValid (moved c x)
    moved-IsValid c x v =
        let (low, high) = clamp_bounds laws c.config.alpha_min c.config.alpha_max x v.range in
        record {
          buffer_fits = v.buffer_fits;
          origins = v.origins;
          outcomes_fit = v.outcomes_fit;
          low = low;
          high = high;
          range = v.range;
        }

    blocked-IsValid : (c : Controller F) → IsValid c → IsValid (blocked c)
    blocked-IsValid c v =
        moved-IsValid (record c { blocked_loosen_count = c.blocked_loosen_count + 1 }) c.alpha_t
          (record {
            buffer_fits = v.buffer_fits;
            origins = v.origins;
            outcomes_fit = v.outcomes_fit;
            low = v.low;
            high = v.high;
            range = v.range;
          })

    gated-IsValid :
        (c : Controller F) (x : F) (ucb : Option F) → IsValid c → IsValid (gated c x ucb)
    unfolding gated
    gated-IsValid c x none v = blocked-IsValid c v
    gated-IsValid c x (some u) v = elim (Bool-cases (fl.lt c.config.alpha_target u)) [
      | inl e ↦ subst IsValid (sym (if_true _ _ e)) (blocked-IsValid c v)
      | inr e ↦ subst IsValid (sym (if_false _ _ e)) (moved-IsValid c x v)
    ]

    update_h0-IsValid :
        (c c' : Controller F) (score : F) (accepted : Bool)
        → IsValid c
        → update_h0 c score accepted ≡ ok c'
        → IsValid c'
    unfolding update_h0
    update_h0-IsValid c c' score accepted v h =
        subst (λ r. Holds r) h
          (holds (Bool-cases (d.config.wilson_gate && fl.lt d.alpha_t proposed)))
      where
        d : Controller F
        d = observed c score accepted

        proposed : F
        proposed = proposal c accepted

        Holds : Result (Controller F) → Type 0
        Holds (ok x) = IsValid x
        Holds (raise e) = Unit

        after : (r : Result (Option F)) → Holds (r >>= λ ucb. ok (gated d proposed ucb))
        after (ok ucb) = gated-IsValid d proposed ucb (observed-IsValid c score accepted v)
        after (raise e) = tt

        holds :
            ((d.config.wilson_gate && fl.lt d.alpha_t proposed) ≡ true)
              ⊎ ((d.config.wilson_gate && fl.lt d.alpha_t proposed) ≡ false)
            → Holds (update_h0 c score accepted)
        holds (inl e) = subst Holds (sym (if_true _ _ e)) (after (wilson_ucb d))
        holds (inr e) =
            subst Holds (sym (if_false _ _ e))
              (moved-IsValid d proposed (observed-IsValid c score accepted v))

    -- Every `update` of a valid controller that returns keeps the windows within their lengths and
    -- in step, and `alpha_t` between `alpha_min` and `alpha_max`, whatever the score, the label,
    -- the decision and the gate. Floats obey the order laws.
    pub update-IsValid :
        (c c' : Controller F) (score : F) (label : Option ℕ) (accepted : Bool)
        → IsValid c
        → update c score label accepted ≡ ok c'
        → IsValid c'
    unfolding update
    update-IsValid c c' score none accepted v h = let q : c ≡ c' = ground arith in subst IsValid q v
    update-IsValid c c' score (some zero) accepted v h = update_h0-IsValid c c' score accepted v h
    update-IsValid c c' score (some (suc zero)) accepted v h =
        let q : c ≡ c' = ground arith in subst IsValid q v
    update-IsValid c c' score (some (suc (suc n))) accepted v h = absurd (ground arith)
