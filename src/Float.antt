-- ===== src/Float.antt =====
-- Floating-point numbers: Python's `float` is not part of the program. Its operations are a record
-- over a type `F`, and what the proofs use of it are the laws of `FloatLaws`, which IEEE 754 gives:
-- a NaN is the number that is not `<=` itself, and no law is about its order.
use mlcache.Prelude.{ℕ, ◌≡◌, inl, inr, Bool, true, false, arith, if◌then◌else◌, Bool-cases}

pub record FloatOps (F : Type 0) : Type 0 where
  pub le : F → F → Bool
  pub lt : F → F → Bool
  pub add : F → F → F
  pub sub : F → F → F
  pub mul : F → F → F
  pub div : F → F → F
  pub neg : F → F
  pub sqrt : F → F
  pub of_ℕ : ℕ → F
  -- `decimal d k` is the literal d / 10 ^ k, rounded as Python reads it.
  pub decimal : ℕ → ℕ → F
  -- `int(floor(x))`, 0 below 0: the code clamps it at 0. Of a NaN or an infinity Python's `floor`
  -- raises, which is not modelled: validated targets are finite.
  pub floor : F → ℕ
  -- `nextafter(x, inf)` and `nextafter(x, -inf)`.
  pub next_up : F → F
  pub next_down : F → F
  pub inf : F
  pub neg_inf : F
  pub is_finite : F → Bool

module _ {F : Type 0} ⦃fl : FloatOps F⦄ where
  -- Python's `min(a, b)` and `max(a, b)`: the first argument unless the second is beyond it.
  abbrev pub fmin : F → F → F
  fmin a b = if fl.lt b a then b else a

  abbrev pub fmax : F → F → F
  fmax a b = if fl.lt a b then b else a

  -- No NaN.
  abbrev pub IsNumber : F → Type 0
  IsNumber a = fl.le a a ≡ true

pub record FloatLaws {F : Type 0} (fl : FloatOps F) : Type 0 where
  pub le_trans : (a b c : F) → fl.le a b ≡ true → fl.le b c ≡ true → fl.le a c ≡ true
  pub le_total :
      (a b : F) → fl.le a a ≡ true → fl.le b b ≡ true → fl.le a b ≡ false → fl.le b a ≡ true
  -- `<` is `<=` and not the converse.
  pub lt_le : (a b : F) → fl.lt a b ≡ true → fl.le a b ≡ true
  pub lt_not_le : (a b : F) → fl.lt a b ≡ true → fl.le b a ≡ false
  pub not_le_lt : (a b : F) → fl.le a b ≡ true → fl.le b a ≡ false → fl.lt a b ≡ true
  -- A comparison that holds is of numbers.
  pub le_left : (a b : F) → fl.le a b ≡ true → fl.le a a ≡ true
  pub le_right : (a b : F) → fl.le a b ≡ true → fl.le b b ≡ true
  -- The neighbours: nothing lies between.
  pub next_up_le :
      (a b : F) → fl.lt a fl.inf ≡ true → fl.le (fl.next_up a) b ≡ true → fl.lt a b ≡ true
  pub le_next_up : (a b : F) → fl.lt a b ≡ true → fl.le (fl.next_up a) b ≡ true
  pub next_down_lt :
      (a b : F) → fl.lt fl.neg_inf a ≡ true → fl.lt (fl.next_down a) b ≡ true → fl.le a b ≡ true
  pub lt_next_down :
      (a b : F) → fl.lt fl.neg_inf a ≡ true → fl.le a b ≡ true → fl.lt (fl.next_down a) b ≡ true

module _ {F : Type 0} ⦃fl : FloatOps F⦄ (laws : FloatLaws fl) where
  pub fmin-le_left : (a b : F) → fl.le a a ≡ true → fl.le (fmin a b) a ≡ true
  fmin-le_left a b h = elim (Bool-cases (fl.lt b a)) [
    | inl e ↦ rw e (laws.lt_le b a e)
    | inr e ↦ rw e h
  ]

  -- `max(lo, x)` of a number is at least `lo`.
  pub le-fmax_left : (a b : F) → fl.le a a ≡ true → fl.le a (fmax a b) ≡ true
  le-fmax_left a b h = elim (Bool-cases (fl.lt a b)) [
    | inl e ↦ rw e (laws.lt_le a b e)
    | inr e ↦ rw e h
  ]

  -- `min(hi, max(lo, x))` lies between the bounds.
  pub clamp_bounds :
      (lo hi x : F)
      → fl.le lo hi ≡ true
      → (fl.le lo (fmin hi (fmax lo x)) ≡ true) × (fl.le (fmin hi (fmax lo x)) hi ≡ true)
  clamp_bounds lo hi x h = (lower, fmin-le_left hi (fmax lo x) (laws.le_right lo hi h))
    where
      lower : fl.le lo (fmin hi (fmax lo x)) ≡ true
      lower = elim (Bool-cases (fl.lt (fmax lo x) hi)) [
        | inl e ↦ rw e (le-fmax_left lo x (laws.le_left lo hi h))
        | inr e ↦ rw e h
      ]

  pub lt_trans : (a b c : F) → fl.lt a b ≡ true → fl.lt b c ≡ true → fl.lt a c ≡ true
  lt_trans a b c h k = elim (Bool-cases (fl.le c a)) [
    | inr e ↦ laws.not_le_lt a c (laws.le_trans a b c (laws.lt_le a b h) (laws.lt_le b c k)) e
    | inl e ↦
        let back = laws.le_trans c a b e (laws.lt_le a b h) in
        absurd (ground (arith, laws.lt_not_le b c))
  ]
