-- ===== src/Decision/Order.antt =====
-- What `blockDecision` answers, against the set of blocked names.
use moreno_dnsleaf.Prelude.{
  Bool, not, ◌&&◌, ◌||◌, List, [], ◌∷◌, none, some, ◌≡◌, refl, ap, ◌∙◌, sym, arith, is_some,
  Bool-cases, Option-cases, inl, inr,
}
use moreno_dnsleaf.Prelude.Text.{Str, split}
use moreno_dnsleaf.Prelude.Map.{Map, get}
use moreno_dnsleaf.Blocking.{Blocking, flag}
use moreno_dnsleaf.Blocking.Invariant.{IsValid}
use moreno_dnsleaf.Config.{Config}
use moreno_dnsleaf.Deps.{Regex, Net}
use moreno_dnsleaf.Gravity.Members.{gravity_contains-member}
use moreno_dnsleaf.Gravity.Sorted.{member}
use moreno_dnsleaf.Schedule.{Clock, scheduled_decision}
use moreno_dnsleaf.Decision.Ancestors.{blocked_parent, wildcard_verdict-blocked_parent}
use moreno_dnsleaf.Decision.{
  Verdict, skips_source, is_limited, wildcard_verdict, pattern_verdict, exact_verdict,
  first_verdict, rule_verdict, schedule_verdict, allow_verdict, profile_verdict, verdict_or_pass,
  decide_for, block_decision, profile_limits, query_name, profile_for_client, any_rule_matches,
}

-- The verdict blocks, and it never lets pass.
abbrev Blocks : Bool → Verdict → Type 0
Blocks blocked v = (is_some v ≡ blocked) × ((verdict_or_pass v).0 ≡ blocked)

or_assoc : (x y z : Bool) → ((x || y) || z) ≡ (x || (y || z))
or_assoc x y z = ground arith

module _ (re : Regex) where
  -- The names that the rules block: exactly, as a remote domain, below a wildcard or by a pattern.
  unfoldable pub is_blocked_name : Blocking → Str → Bool
  is_blocked_name b name =
      flag name b.blocked
      || member name b.gravity
      || blocked_parent b name
      || any_rule_matches re b.blocked_pat name

  module _ (cfg : Config) (b : Blocking) where
    wildcard_verdict-Blocks :
        (parts : List Str)
        → (verdict_or_pass (wildcard_verdict cfg none b parts)).0
          ≡ is_some (wildcard_verdict cfg none b parts)
    unfolding wildcard_verdict verdict_or_pass skips_source is_limited
    wildcard_verdict-Blocks [] = refl
    wildcard_verdict-Blocks (p ∷ []) = refl
    wildcard_verdict-Blocks (p ∷ q ∷ ps) = ground (arith, wildcard_verdict-Blocks (q ∷ ps))

    pattern_verdict-Blocks :
        (rules : List Str) (name : Str)
        → Blocks (any_rule_matches re rules name) (pattern_verdict re cfg none b rules name)
    unfolding pattern_verdict verdict_or_pass skips_source is_limited any_rule_matches
    pattern_verdict-Blocks [] name = (refl, refl)
    pattern_verdict-Blocks (r ∷ rules) name = ground (arith, pattern_verdict-Blocks rules name)

    exact_verdict-Blocks :
        (name : Str)
        → IsValid b
        → Blocks (flag name b.blocked || member name b.gravity) (exact_verdict cfg none b name)
    unfolding exact_verdict verdict_or_pass skips_source is_limited
    exact_verdict-Blocks name v = elim (Option-cases (get name b.blocked_src)) [
      | inl e ↦
          rw (e, exact_verdict, ← gravity_contains-member b.gravity v.ascending name) (ground arith)
      | inr (src, e) ↦ rw (e, exact_verdict) (ground (arith, v.sources name, ap is_some e))
    ]

    first_verdict-Blocks :
        (x y : Bool) (v w : Verdict) → Blocks x v → Blocks y w → Blocks (x || y) (first_verdict v w)
    unfolding first_verdict verdict_or_pass
    first_verdict-Blocks x y none w h k = ground arith
    first_verdict-Blocks x y (some a) w h k = ground arith

    rule_verdict-Blocks :
        (name : Str) → IsValid b → Blocks (is_blocked_name b name) (rule_verdict re cfg none b name)
    unfolding rule_verdict is_blocked_name
    rule_verdict-Blocks name v =
        let wild : Blocks (blocked_parent b name) (wildcard_verdict cfg none b (split b'.' name)) =
          (
            wildcard_verdict-blocked_parent cfg b name,
            wildcard_verdict-Blocks (split b'.' name) ∙ wildcard_verdict-blocked_parent cfg b name,
          ) in
        let rest =
          first_verdict-Blocks (blocked_parent b name) (any_rule_matches re b.blocked_pat name) _ _
            wild (pattern_verdict-Blocks b.blocked_pat name) in
        let all =
          first_verdict-Blocks (flag name b.blocked || member name b.gravity) _ _ _
            (exact_verdict-Blocks name v) rest in
        let regroup =
          or_assoc (flag name b.blocked || member name b.gravity) (blocked_parent b name)
            (any_rule_matches re b.blocked_pat name) in
        (all.0 ∙ sym regroup, all.1 ∙ sym regroup)

  allow_or_rules :
      (cfg : Config) (b : Blocking) (name : Str)
      → IsValid b
      → (verdict_or_pass (
          first_verdict none (
            first_verdict
              (allow_verdict re cfg name)
              (first_verdict none (rule_verdict re cfg none b name))))).0
        ≡ (not (any_rule_matches re cfg.allowed name) && is_blocked_name b name)
  allow_or_rules cfg b name v =
      let h = (rule_verdict-Blocks cfg b name v).1 in
      elim (Bool-cases (any_rule_matches re cfg.allowed name)) [
        | inl match ↦ unfold first_verdict verdict_or_pass allow_verdict in rw match
        | inr clear ↦ unfold first_verdict allow_verdict in rw clear h
      ]

  -- While the parts of the blocking state agree, for a client whose profile decides nothing (it is not
  -- disabled, does not switch blocking off, names no blocklists and has no rule that matches the name),
  -- and with no scheduled rule for the name, a query is blocked exactly if its name is among the
  -- blocked names and no rule of the allow list matches it.
  pub block_decision-is_blocked_name :
      (net : Net) (range : Map Str → Map Str) (cfg : Config) (b : Blocking) (now : Clock)
      (qname client : Str)
      → IsValid b
      → profile_limits (profile_for_client net range cfg client).1 ≡ none
      → profile_verdict re cfg b
          (query_name qname)
          (profile_for_client net range cfg client).0
          (profile_for_client net range cfg client).1
        ≡ none
      → scheduled_decision re cfg.scheduled_rules now (query_name qname) ≡ none
      → (block_decision re net range cfg b now qname client).0 ≡ (
          not (any_rule_matches re cfg.allowed (query_name qname))
          && is_blocked_name b (query_name qname))
  block_decision-is_blocked_name net range cfg b now qname client v limits own sched =
      let name = query_name qname in
      unfold block_decision decide_for schedule_verdict in
      rw (own, limits, sched, schedule_verdict) (allow_or_rules cfg b name v)
