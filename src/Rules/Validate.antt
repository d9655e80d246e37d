-- ===== src/Rules/Validate.antt =====
-- When `validateDomainRule` (blocklists.go) accepts a rule.
use moreno_dnsleaf.Prelude.{◌≤◌, true, false, none, ◌≡◌, ◌≢◌, ◌↔◌, length, arith}
use moreno_dnsleaf.Prelude.Text.{Str, is_empty}
use moreno_dnsleaf.Deps.{Regex}
use moreno_dnsleaf.Rules.{
  failed, compile_domain_rule, normalize_domain_rule, is_pattern_rule, max_domain_rule_len,
  validate_domain_rule,
}

module _ (re : Regex) where
  -- A rule is accepted exactly when its normal form is not empty, is at most 4096 bytes long and,
  -- if it is a regex or a wildcard, compiles.
  pub validate_domain_rule-eq-none_iff :
      (rule : Str)
      → (validate_domain_rule re rule ≡ none) ↔ (
          (is_empty (normalize_domain_rule rule) ≡ false)
          × (length (normalize_domain_rule rule) ≤ max_domain_rule_len)
          × (is_pattern_rule (normalize_domain_rule rule) ≡ true
              → compile_domain_rule re (normalize_domain_rule rule) ≢ failed))
  validate_domain_rule-eq-none_iff rule =
      unfold validate_domain_rule is_pattern_rule in (λ h. ground arith, λ h. ground arith)
