-- ===== src/Tests/Audit.antt =====
-- Examples for the audit policy.
use mlcache.Prelude.{ℕ, ◌+◌, ◌≡◌, refl, true, false, List, [], ◌∷◌, map, length, ok}
use mlcache.Audit.{MarginBandAuditConfig, Random, post_init}
use mlcache.Audit.Channels.{decide_all, control_draws, ZonesAgree, decide_all-control_draws}
use mlcache.Tests.Numbers.{hundredths, hundredths_laws}

-- A generator of 0, 1, 2 and so on.
abbrev counting : Random ℕ
counting = record { State = ℕ; random = λ n. (n, n + 1) }

abbrev a_config : MarginBandAuditConfig ℕ
a_config = record {
  accept_margin = 5;
  reject_margin = 5;
  p_control = 2;
  p_audit_safe_accept = 1;
  p_audit_borderline_accept = 20;
  p_audit_borderline_reject = 20;
  p_audit_safe_reject = 1;
}

abbrev events : List (ℕ × ℕ)
events = (90, 80) ∷ (82, 80) ∷ (40, 80) ∷ []

a_config_ok : post_init a_config ≡ ok tt
unfolding post_init
a_config_ok = refl

decide_all-control_draws_example :
    (map (λ d. d.control_audit) (decide_all counting a_config events 0).0
      ≡ (control_draws counting a_config (length events) 0).0)
    × ((decide_all counting a_config events 0).1
        ≡ (control_draws counting a_config (length events) 0).1)
    × ZonesAgree events (decide_all counting a_config events 0).0
decide_all-control_draws_example =
    decide_all-control_draws hundredths_laws refl counting a_config events 0 a_config_ok

-- The first of the requests is audited by the control channel.
control_audits :
    map (λ d. d.control_audit) (decide_all counting a_config events 0).0 ≡ true ∷ false ∷ false ∷ []
unfolding decide_all mlcache.Audit.decide
control_audits = refl
