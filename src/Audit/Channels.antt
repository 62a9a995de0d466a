-- ===== src/Audit/Channels.antt =====
-- src/mlcache/adaptive/audit_policy.py: the control channel does not depend on the margin, and the
-- zones agree with the threshold.
use mlcache.Prelude.{
  ℕ, zero, suc, ◌≡◌, refl, ap, inl, inr, Bool, true, false, List, [], ◌∷◌, map, arith, Bool-cases,
  length, ok,
}
use mlcache.Float.{FloatOps, FloatLaws}
use mlcache.Audit.{
  AuditZone, safe_accept, borderline_accept, borderline_reject, safe_reject, MarginBandAuditConfig,
  AuditDecision, Random, post_init, zone_of_margin, zone, decide,
}

abbrev pub is_accept : AuditZone → Bool
is_accept safe_accept = true
is_accept borderline_accept = true
is_accept borderline_reject = false
is_accept safe_reject = false

module _ {F : Type 0} ⦃fl : FloatOps F⦄ (g : Random F) (c : MarginBandAuditConfig F) where
  -- A stream of requests with their best scores and thresholds.
  unfoldable pub decide_all : List (F × F) → g.State → List (AuditDecision F) × g.State
  decide_all [] r = ([], r)
  decide_all ((s, tau) ∷ es) r =
      let (d, r') = decide g c s tau r in let (ds, r'') = decide_all es r' in (d ∷ ds, r'')

  -- The control draws of a generator: every other number against `p_control`.
  unfoldable pub control_draws : ℕ → g.State → List Bool × g.State
  control_draws zero r = ([], r)
  control_draws (suc n) r =
      let (a, r1) = g.random r in
      let (b, r2) = g.random r1 in
      let (bs, r3) = control_draws n r2 in (fl.lt a c.p_control ∷ bs, r3)

module _ {F : Type 0} ⦃fl : FloatOps F⦄ where
  -- Each decision is in a zone of acceptance exactly if its score is not below its threshold.
  pub ZonesAgree : List (F × F) → List (AuditDecision F) → Type 0
  ZonesAgree [] [] = Unit {0}
  ZonesAgree ((s, tau) ∷ es) (d ∷ ds) =
      (is_accept d.zone ≡ fl.le (fl.of_ℕ 0) (fl.sub s tau)) × ZonesAgree es ds
  ZonesAgree _ _ = ⊥

module _ {F : Type 0} ⦃fl : FloatOps F⦄ (laws : FloatLaws fl)
    (zero_number : fl.le (fl.of_ℕ 0) (fl.of_ℕ 0) ≡ true) where
  margin_lem :
      (c : MarginBandAuditConfig F)
      → post_init c ≡ ok tt
      → fl.lt c.accept_margin (fl.of_ℕ 0) ≡ false
  unfolding post_init
  margin_lem c h = ground arith

  above_lem :
      (a m : F) → fl.lt a (fl.of_ℕ 0) ≡ false → fl.le a m ≡ true → fl.le (fl.of_ℕ 0) m ≡ true
  above_lem a m h le = elim (Bool-cases (fl.le (fl.of_ℕ 0) a)) [
    | inl e ↦ laws.le_trans (fl.of_ℕ 0) a m e le
    | inr e ↦
        let below = laws.le_total (fl.of_ℕ 0) a zero_number (laws.le_left a m le) e in
        ground (arith, laws.not_le_lt a (fl.of_ℕ 0) below e)
  ]

  zone_lem :
      (c : MarginBandAuditConfig F) (m : F)
      → fl.lt c.accept_margin (fl.of_ℕ 0) ≡ false
      → is_accept (zone_of_margin c m) ≡ fl.le (fl.of_ℕ 0) m
  zone_lem c m h = ground (arith, above_lem c.accept_margin m h)

  -- A stream of requests under a valid audit policy, whatever their scores and thresholds: the
  -- control audits are those that the generator of random numbers draws for as many requests,
  -- independently of scores and thresholds, the generator ends in the same state, and each
  -- decision is in a zone of acceptance exactly if its margin is not negative. Floats obey the
  -- order laws, and 0 is a number.
  pub decide_all-control_draws :
      (g : Random F) (c : MarginBandAuditConfig F) (es : List (F × F)) (r : g.State)
      → post_init c ≡ ok tt
      → (map (λ d. d.control_audit) (decide_all g c es r).0 ≡ (control_draws g c (length es) r).0)
        × ((decide_all g c es r).1 ≡ (control_draws g c (length es) r).1)
        × ZonesAgree es (decide_all g c es r).0
  unfolding decide_all control_draws decide zone ZonesAgree
  decide_all-control_draws g c [] r h = (refl, refl, tt)
  decide_all-control_draws g c ((s, tau) ∷ es) r h =
      let (a, r1) = g.random r in
      let (same, state, zones) = decide_all-control_draws g c es (g.random r1).1 h in
      (
        ap (λ bs. fl.lt a c.p_control ∷ bs) same,
        state,
        (zone_lem c (fl.sub s tau) (margin_lem c h), zones),
      )
