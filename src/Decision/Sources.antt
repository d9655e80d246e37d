-- ===== src/Decision/Sources.antt =====
-- The sources that `blockDecision` (blocklists.go) gives to the log.
use moreno_dnsleaf.Prelude.{
  true, false, List, [], ◌∷◌, ◌++◌, Option, none, some, ◌≡◌, refl, arith, Option-cases, inl, inr,
}
use moreno_dnsleaf.Prelude.Text.{Str, codes, is_empty, join}
use moreno_dnsleaf.Prelude.Map.{Map, get}
use moreno_dnsleaf.Blocking.{Blocking, text_at}
use moreno_dnsleaf.Blocking.Invariant.{IsValid}
use moreno_dnsleaf.Config.{Config, ClientProfile, ScheduledRule}
use moreno_dnsleaf.Deps.{Regex, Net}
use moreno_dnsleaf.Schedule.{Clock, scheduled_decision}
use moreno_dnsleaf.Decision.{
  Verdict, or_else, wildcard_verdict, pattern_verdict, exact_verdict, first_verdict, rule_verdict,
  schedule_verdict, allow_verdict, profile_verdict, verdict_or_pass, decide_for, block_decision,
  profile_limits, query_name, profile_for_client,
}

-- A verdict to block has a source.
abbrev Named : Verdict → Type 0
Named none = Unit
Named (some (false, source)) = Unit
Named (some (true, source)) = is_empty source ≡ false

first_verdict-Named : (v w : Verdict) → Named v → Named w → Named (first_verdict v w)
unfolding first_verdict
first_verdict-Named none w h k = k
first_verdict-Named (some a) w h k = h

or_else-ne-nil : (s t : Str) → is_empty t ≡ false → is_empty (or_else s t) ≡ false
unfolding or_else
or_else-ne-nil [] t h = h
or_else-ne-nil (c ∷ s) t h = unfold is_empty in refl

module _ (re : Regex) (cfg : Config) (b : Blocking) where
  wildcard_verdict-Named :
      (limits : Option (List Str)) (parts : List Str) → Named (wildcard_verdict cfg limits b parts)
  unfolding wildcard_verdict is_empty
  wildcard_verdict-Named limits [] = tt
  wildcard_verdict-Named limits (p ∷ []) = tt
  wildcard_verdict-Named limits (p ∷ q ∷ ps) = ground (
    arith,
    wildcard_verdict-Named limits (q ∷ ps),
    or_else-ne-nil (text_at (codes "*." ++ join (codes ".") (q ∷ ps)) b.blocked_src)
        (codes "wildcard"),
  )

  pattern_verdict-Named :
      (limits : Option (List Str)) (rules : List Str) (name : Str)
      → Named (pattern_verdict re cfg limits b rules name)
  unfolding pattern_verdict is_empty
  pattern_verdict-Named limits [] name = tt
  pattern_verdict-Named limits (r ∷ rules) name = ground (
    arith,
    pattern_verdict-Named limits rules name,
    or_else-ne-nil (text_at r b.blocked_src) (codes "regex"),
  )

  exact_verdict-Named :
      (limits : Option (List Str)) (name : Str)
      → IsValid b
      → Named (exact_verdict cfg limits b name)
  unfolding exact_verdict
  exact_verdict-Named limits name v = elim (Option-cases (get name b.blocked_src)) [
    | inl e ↦ rw (e, exact_verdict) (unfold is_empty in ground arith)
    | inr (src, e) ↦ rw (e, exact_verdict) (ground (arith, v.named name src e))
  ]

  rule_verdict-Named :
      (limits : Option (List Str)) (name : Str)
      → IsValid b
      → Named (rule_verdict re cfg limits b name)
  unfolding rule_verdict
  rule_verdict-Named limits name v = first_verdict-Named _ _ (exact_verdict-Named limits name v) (
      first_verdict-Named _ _ (wildcard_verdict-Named limits _)
        (pattern_verdict-Named limits _ name))

  scheduled_decision-source :
      (rules : List ScheduledRule) (now : Clock) (name action source : Str)
      → scheduled_decision re rules now name ≡ some (action, source)
      → is_empty source ≡ false
  unfolding scheduled_decision is_empty
  scheduled_decision-source [] now name action source e = ground arith
  scheduled_decision-source (r ∷ rules) now name action source e =
      ground (arith, scheduled_decision-source rules now name action source)

  schedule_verdict-Named : (now : Clock) (name : Str) → Named (schedule_verdict re cfg now name)
  unfolding schedule_verdict
  schedule_verdict-Named now name =
      elim (Option-cases (scheduled_decision re cfg.scheduled_rules now name)) [
        | inl e ↦ rw (e, schedule_verdict) tt
        | inr ((action, source), e) ↦
            rw (e, schedule_verdict)
              (ground
                (arith, scheduled_decision-source cfg.scheduled_rules now name action source e))
      ]

  allow_verdict-Named : (name : Str) → Named (allow_verdict re cfg name)
  unfolding allow_verdict
  allow_verdict-Named name = ground arith

  profile_verdict-Named :
      (name profile_name : Str) (p : Option ClientProfile)
      → Named (profile_verdict re cfg b name profile_name p)
  unfolding profile_verdict is_empty
  profile_verdict-Named name profile_name none = tt
  profile_verdict-Named name profile_name (some p) = ground arith

  verdict_or_pass-source :
      (v : Verdict)
      → Named v
      → (verdict_or_pass v).0 ≡ true
      → is_empty (verdict_or_pass v).1 ≡ false
  unfolding verdict_or_pass
  verdict_or_pass-source none n h = ground arith
  verdict_or_pass-source (some (true, source)) n h = n
  verdict_or_pass-source (some (false, source)) n h = ground arith

  -- Whatever stage blocks a query of a valid state, it names a source.
  pub block_decision-source :
      (net : Net) (range : Map Str → Map Str) (now : Clock) (qname client : Str)
      → IsValid b
      → (block_decision re net range cfg b now qname client).0 ≡ true
      → is_empty (block_decision re net range cfg b now qname client).1 ≡ false
  unfolding block_decision decide_for
  block_decision-source net range now qname client v =
      let (profile_name, profile) = profile_for_client net range cfg client in
      let name = query_name qname in
      verdict_or_pass-source _ (
        first_verdict-Named _ _ (profile_verdict-Named name profile_name profile) (
          first_verdict-Named _ _ (allow_verdict-Named name) (
            first_verdict-Named _ _ (schedule_verdict-Named now name)
              (rule_verdict-Named (profile_limits profile) name v))))
