-- ===== src/Feedback/Shadow/Rounds.antt =====
-- src/mlcache/feedback/shadow_collector.py: the arithmetic of `seen % calibration_every_n == 0`.
use mlcache.Prelude.{
  ℕ, ◌+◌, ◌*◌, ◌%◌, ◌<◌, ◌≡◌, sym, ◌∙◌, subst, ◌⊎◌, inl, inr, true, false, arith, ◌==◌,
  if◌then◌else◌, Bool-cases, if_true, if_false,
}
use native.Mathlib.Nat.{mod-add-mod, mod_self, mod-eq_of_lt, mod-lt, suc-mul}

-- As many pairs of a label went to calibration as there are full rounds of `n` pairs.
abbrev pub HasShare : ℕ → ℕ → ℕ → Type 0
HasShare n split calib = split ≡ calib * n + split % n

next_rest :
    (n r : ℕ) → r < n → (((r + 1) % n ≡ 0) × (r + 1 ≡ n)) ⊎ (((r + 1) % n ≡ r + 1) × (r + 1 < n))
next_rest n r h = elim (Bool-cases (r + 1 == n)) [
  | inl e ↦
      let full : r + 1 ≡ n = ground arith in
      inl (subst (λ m. m % n ≡ 0) (sym full) (mod_self n), full)
  | inr e ↦ let less : r + 1 < n = ground arith in inr (mod-eq_of_lt less, less)
]

share_full :
    (n s c : ℕ) → s ≡ c * n + s % n → s % n + 1 ≡ n → (s + 1) % n ≡ 0 → HasShare n (s + 1) (c + 1)
share_full n s c h full zero_rest =
    let next : (c + 1) * n ≡ c * n + n =
      subst (λ m. m * n ≡ c * n + n) (omega arith) (suc-mul c n) in
    ground arith

pub share_one :
    (n s c : ℕ)
    → 0 < n
    → HasShare n s c
    → HasShare n (s + 1) (if (s + 1) % n == 0 then c + 1 else c)
share_one n s c pos h = elim (next_rest n (s % n) (mod-lt s pos)) [
  | inl (z, full) ↦
      let rest : (s + 1) % n ≡ 0 = sym (mod-add-mod s n 1) ∙ z in
      let test : ((s + 1) % n == 0) ≡ true = ground arith in
      subst (HasShare n (s + 1)) (sym (if_true (c + 1) c test)) (share_full n s c h full rest)
  | inr (z, less) ↦
      let rest : (s + 1) % n ≡ s % n + 1 = sym (mod-add-mod s n 1) ∙ z in
      let test : ((s + 1) % n == 0) ≡ false = ground arith in
      subst (HasShare n (s + 1)) (sym (if_false (c + 1) c test)) (ground arith)
]
