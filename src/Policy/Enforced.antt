-- ===== src/Policy/Enforced.antt =====
-- The rules of the configuration and those of the blocking state: `handleBlocked` and
-- `handleRegexRules` of policy_api.go.
use moreno_dnsleaf.Prelude.{
  Bool, true, false, not, ◌||◌, List, [], ◌∷◌, ◌++◌, Option, none, some, if◌then◌else◌, All,
  All-append, ◌≡◌, refl, ap, arith, inl, inr, Bool-cases, if-cases,
}
use moreno_dnsleaf.Prelude.Map.{Map}
use moreno_dnsleaf.Prelude.Text.{Str, codes, str_eq, str_eq_iff, str_eq_refl, is_empty}
use moreno_dnsleaf.Deps.{Regex}
use moreno_dnsleaf.Rules.{normalize_domain_rule, is_pattern_rule, ensure_rule}
use moreno_dnsleaf.Blocking.{Blocking, flag, add_blocked_rule, remove_blocked_rule}
use moreno_dnsleaf.Blocking.Invariant.{remove_blocked_rule_lem}
use moreno_dnsleaf.Loading.Rules.{flag-add_blocked_rule}
use moreno_dnsleaf.Guard.{Panel}
use moreno_dnsleaf.Policy.{
  RuleRequest, get_rules, post_rule, delete_rule, other_method, PolicyReply, has_normal,
  without_rule, is_accepted, drop_blocked, post_blocked, handle_blocked, post_pattern,
  handle_regex_rules,
}

-- A rule of the configuration that the blocking state has.
abbrev pub IsBlocked : Blocking → Str → Type 0
IsBlocked b rule =
    (is_empty (normalize_domain_rule rule) || flag (normalize_domain_rule rule) b.blocked) ≡ true

abbrev pub IsEnforced : Panel → Type 0
IsEnforced p = All (IsBlocked p.blocking) p.cfg.blocked

-- The normal form of the rule of the request is its own normal form: it does not end in two dots.
abbrev pub IsStable : RuleRequest → Type 0
IsStable (post_rule (some name)) =
    normalize_domain_rule (normalize_domain_rule name) ≡ normalize_domain_rule name
IsStable (delete_rule (some name)) =
    normalize_domain_rule (normalize_domain_rule name) ≡ normalize_domain_rule name
IsStable r = Unit

IsBlocked-add :
    (b : Blocking) (rule source : Str) (rules : List Str)
    → All (IsBlocked b) rules
    → All (IsBlocked (add_blocked_rule b rule source).0) rules
IsBlocked-add b rule source [] h = tt
IsBlocked-add b rule source (x ∷ rules) (first, rest) = (
  ground (arith, first, flag-add_blocked_rule b rule source (normalize_domain_rule x)),
  IsBlocked-add b rule source rules rest,
)

IsBlocked-added :
    (b : Blocking) (rule source : Str) → IsBlocked (add_blocked_rule b rule source).0 rule
IsBlocked-added b rule source = ground (
  arith,
  flag-add_blocked_rule b rule source (normalize_domain_rule rule),
  str_eq_refl (normalize_domain_rule rule),
)

other_stays :
    (b : Blocking) (domain x : Str)
    → normalize_domain_rule domain ≡ domain
    → IsBlocked b x
    → str_eq (normalize_domain_rule x) domain ≡ false
    → IsBlocked (remove_blocked_rule b domain) x
other_stays b domain x stable first stays = ground (
  arith,
  first,
  (remove_blocked_rule_lem b domain (normalize_domain_rule x)).0,
  ap (λ d. str_eq d (normalize_domain_rule x)) stable,
  str_eq_iff domain (normalize_domain_rule x),
  str_eq_iff (normalize_domain_rule x) domain,
)

IsBlocked-remove :
    (b : Blocking) (domain : Str) (rules : List Str)
    → normalize_domain_rule domain ≡ domain
    → All (IsBlocked b) rules
    → All (IsBlocked (remove_blocked_rule b domain)) (without_rule domain rules)
IsBlocked-remove b domain [] stable h = tt
IsBlocked-remove b domain (x ∷ rules) stable (first, rest) =
    elim (Bool-cases (str_eq (normalize_domain_rule x) domain)) [
      | inl gone ↦ rw gone (IsBlocked-remove b domain rules stable rest)
      | inr stays ↦
          rw stays
            (other_stays b domain x stable first stays, IsBlocked-remove b domain rules stable rest)
    ]

-- A new rule, or an old one, at the end of the rules.
post-All :
    (b : Blocking) (domain source : Str) (rules : List Str) (old : Bool)
    → All (IsBlocked b) rules
    → All
        (IsBlocked (add_blocked_rule b domain source).0)
        (if old then rules else rules ++ domain ∷ [])
post-All b domain source rules old h =
    let kept = IsBlocked-add b domain source rules h in
    if-cases (All (IsBlocked (add_blocked_rule b domain source).0)) old kept (
      All-append (IsBlocked (add_blocked_rule b domain source).0) rules (domain ∷ []) kept
        (IsBlocked-added b domain source, tt))

ensure-All :
    (b : Blocking) (rule source : Str) (rules : List Str)
    → normalize_domain_rule rule ≡ rule
    → All (IsBlocked b) rules
    → All (IsBlocked (add_blocked_rule b rule source).0) (ensure_rule rules rule)
ensure-All b rule source rules stable h =
    rw (same, stable) (post-All b rule source rules (has_normal rule rules) h)
  where
    same : ensure_rule rules rule ≡ (
        if has_normal (normalize_domain_rule rule) rules
        then rules
        else rules ++ normalize_domain_rule rule ∷ [])
    same = unfold ensure_rule in refl

abbrev posted_rules : Str → List Str → List Str
posted_rules domain rules = if has_normal domain rules then rules else rules ++ domain ∷ []

module _ (re : Regex) (range : Map Bool → Map Bool) where
  post_blocked-IsEnforced :
      (p : Panel) (body : Option Str) → IsEnforced p → IsEnforced (post_blocked re p body).0
  unfolding post_blocked
  post_blocked-IsEnforced p none h = h
  post_blocked-IsEnforced p (some name) h =
      let domain = normalize_domain_rule name in
      if-cases (λ (x : Panel × PolicyReply). IsEnforced x.0) (not (is_accepted re domain)) h
        (post-All p.blocking domain (codes "config") p.cfg.blocked (has_normal domain p.cfg.blocked)
          h)

  drop_blocked-IsEnforced :
      (p : Panel) (body : Option Str)
      → IsStable (delete_rule body)
      → IsEnforced p
      → IsEnforced (drop_blocked p body).0
  unfolding drop_blocked
  drop_blocked-IsEnforced p none stable h = h
  drop_blocked-IsEnforced p (some name) stable h =
      IsBlocked-remove p.blocking (normalize_domain_rule name) p.cfg.blocked stable h

  post_pattern-IsEnforced :
      (p : Panel) (body : Option Str)
      → IsStable (post_rule body)
      → IsEnforced p
      → IsEnforced (post_pattern re p body).0
  unfolding post_pattern ensure_rule
  post_pattern-IsEnforced p none stable h = h
  post_pattern-IsEnforced p (some text) stable h =
      let rule = normalize_domain_rule text in
      if-cases (λ (x : Panel × PolicyReply). IsEnforced x.0)
        (not (is_pattern_rule rule) || not (is_accepted re rule)) h
        (ensure-All p.blocking rule (codes "regex") p.cfg.blocked stable h)

  handle_blocked-IsEnforced :
      (r : RuleRequest) (p : Panel)
      → IsStable r
      → IsEnforced p
      → IsEnforced (handle_blocked re range r p).0
  unfolding handle_blocked
  handle_blocked-IsEnforced get_rules p stable h = h
  handle_blocked-IsEnforced (post_rule body) p stable h = post_blocked-IsEnforced p body h
  handle_blocked-IsEnforced (delete_rule body) p stable h = drop_blocked-IsEnforced p body stable h
  handle_blocked-IsEnforced other_method p stable h = h

  handle_regex_rules-IsEnforced :
      (r : RuleRequest) (p : Panel)
      → IsStable r
      → IsEnforced p
      → IsEnforced (handle_regex_rules re r p).0
  unfolding handle_regex_rules
  handle_regex_rules-IsEnforced get_rules p stable h = h
  handle_regex_rules-IsEnforced (post_rule body) p stable h =
      post_pattern-IsEnforced p body stable h
  handle_regex_rules-IsEnforced (delete_rule body) p stable h =
      drop_blocked-IsEnforced p body stable h
  handle_regex_rules-IsEnforced other_method p stable h = h

  -- The handlers of `/api/blocked` and `/api/regex-rules` keep that each rule of the configuration is
  -- blocked, for a rule whose normal form is its own normal form.
  pub handlers-IsEnforced :
      (r : RuleRequest) (p : Panel)
      → IsStable r
      → IsEnforced p
      → IsEnforced (handle_blocked re range r p).0 × IsEnforced (handle_regex_rules re r p).0
  handlers-IsEnforced r p stable h =
      (handle_blocked-IsEnforced r p stable h, handle_regex_rules-IsEnforced r p stable h)
