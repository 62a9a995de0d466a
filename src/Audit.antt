-- ===== src/Audit.antt =====
-- src/mlcache/adaptive/audit_policy.py: `MarginBandAuditPolicy`. The generator of random numbers is
-- an argument with a state.

pub mod Channels
use mlcache.Prelude.{
  ℕ, zero, suc, ◌+◌, ◌-◌, ◌*◌, ◌%◌, ◌≤◌, ◌<◌, min, max, String, ◌≡◌, refl, sym, ap, ◌∙◌, subst, ◌≢◌,
  ◌↔◌, ◌⊎◌, inl, inr, ite, if_pos, if_neg, Bool, true, false, not, ◌&&◌, ◌||◌, Option, none, some,
  List, [], ◌∷◌, ◌++◌, map, arith, ltb, leb, ◌==◌, if◌then◌else◌, ltb→lt, leb→le, Bool-cases,
  Option-cases, is_some, if_true, if_false, str_dec, length, get_elem?, set, take, drop, count_if,
  All, get_elem?-some, get_elem?-All, length-append, length-drop, length-map, count_if-le,
  All-append, All-map, Error, Result, ok, raise, value_error, key_error, index_error, runtime_error,
}
use mlcache.Float.{FloatOps}

pub data AuditZone : Type 0 where
  safe_accept borderline_accept borderline_reject safe_reject : AuditZone

pub data AuditChannel : Type 0 where
  both control diagnostic nothing : AuditChannel

pub record MarginBandAuditConfig (F : Type 0) : Type 0 where
  pub accept_margin : F
  pub reject_margin : F
  pub p_control : F
  pub p_audit_safe_accept : F
  pub p_audit_borderline_accept : F
  pub p_audit_borderline_reject : F
  pub p_audit_safe_reject : F

pub record AuditDecision (F : Type 0) : Type 0 where
  pub zone : AuditZone
  pub control_audit : Bool
  pub diagnostic_audit : Bool
  pub p_control : F
  pub p_diagnostic : F

-- `random.Random`: the next number and the state after it.
pub record Random (F : Type 0) : Type 1 where
  pub State : Type 0
  pub random : State → F × State

module _ {F : Type 0} where
  abbrev pub judged : AuditDecision F → Bool
  judged d = d.control_audit || d.diagnostic_audit

  abbrev pub audit_channel : AuditDecision F → AuditChannel
  audit_channel d =
      if d.control_audit && d.diagnostic_audit
      then both
      else if d.control_audit
      then control
      else if d.diagnostic_audit
      then diagnostic
      else nothing

  -- `_p_diagnostic`
  abbrev pub p_diagnostic_of : MarginBandAuditConfig F → AuditZone → F
  p_diagnostic_of c safe_accept = c.p_audit_safe_accept
  p_diagnostic_of c borderline_accept = c.p_audit_borderline_accept
  p_diagnostic_of c borderline_reject = c.p_audit_borderline_reject
  p_diagnostic_of c safe_reject = c.p_audit_safe_reject

module _ {F : Type 0} ⦃fl : FloatOps F⦄ where
  abbrev pub audit_probability : AuditDecision F → F
  audit_probability d =
      fl.sub (fl.of_ℕ 1)
        (fl.mul (fl.sub (fl.of_ℕ 1) d.p_control) (fl.sub (fl.of_ℕ 1) d.p_diagnostic))

  abbrev pub is_probability : F → Bool
  is_probability v = fl.le (fl.of_ℕ 0) v && fl.le v (fl.of_ℕ 1)

  abbrev pub probabilities_ok : MarginBandAuditConfig F → Bool
  probabilities_ok c =
      is_probability c.p_control
      && (is_probability c.p_audit_safe_accept
          && (is_probability c.p_audit_borderline_accept
              && (is_probability c.p_audit_borderline_reject
                  && is_probability c.p_audit_safe_reject)))

  -- `__post_init__`
  unfoldable pub post_init : MarginBandAuditConfig F → Result (Unit {0})
  post_init c =
      if not (probabilities_ok c)
      then raise value_error
      else if fl.lt c.accept_margin (fl.of_ℕ 0) || fl.lt c.reject_margin (fl.of_ℕ 0)
      then raise value_error
      else ok tt

  abbrev pub zone_of_margin : MarginBandAuditConfig F → F → AuditZone
  zone_of_margin c margin =
      if fl.le c.accept_margin margin
      then safe_accept
      else if fl.le (fl.of_ℕ 0) margin
      then borderline_accept
      else if fl.le (fl.neg c.reject_margin) margin
      then borderline_reject
      else safe_reject

  unfoldable pub zone : MarginBandAuditConfig F → F → F → AuditZone
  zone c best_score tau = zone_of_margin c (fl.sub best_score tau)

  unfoldable pub decide :
      (g : Random F) → MarginBandAuditConfig F → F → F → g.State → AuditDecision F × g.State
  decide g c best_score tau r =
      let z = zone c best_score tau in
      let p_diag = p_diagnostic_of c z in
      let (a, r1) = g.random r in
      let (b, r2) = g.random r1 in
      (
        record {
          zone = z;
          control_audit = fl.lt a c.p_control;
          diagnostic_audit = fl.lt b p_diag;
          p_control = c.p_control;
          p_diagnostic = p_diag;
        },
        r2,
      )
