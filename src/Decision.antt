-- ===== src/Decision.antt =====
-- Whether a query is blocked: `blockDecision` of blocklists.go with the profile of the client, the
-- allow list, the scheduled rules, the blocked rules, `gravity`, wildcards and patterns.
-- A rule is matched by `rule_matches`, which answers as the method with its cache does.
pub mod Sources
pub mod Order
pub mod Ancestors
use moreno_dnsleaf.Prelude.{
  ℕ, Bool, true, false, not, ◌&&◌, ◌||◌, List, [], ◌∷◌, ◌++◌, Option, none, some, if◌then◌else◌,
  any, ltb, length,
}
use moreno_dnsleaf.Prelude.Text.{
  Str, codes, str_eq, is_empty, trim_space, to_lower, trim_suffix, contains, equal_fold, split,
  join,
}
use moreno_dnsleaf.Prelude.Map.{Map, get}
use moreno_dnsleaf.Addresses.{ip_in_list}
use moreno_dnsleaf.Blocking.{Blocking, flag, text_at}
use moreno_dnsleaf.Config.{Config, ClientProfile, BlocklistSource}
use moreno_dnsleaf.Deps.{Regex, Net}
use moreno_dnsleaf.Gravity.{gravity_contains, gravity_index_set_contains}
use moreno_dnsleaf.Rules.{rule_matches}
use moreno_dnsleaf.Schedule.{Clock, scheduled_decision}

-- `strings.ToLower(strings.TrimSuffix(qname, "."))`
unfoldable pub query_name : Str → Str
query_name qname = to_lower (trim_suffix (codes ".") qname)

-- The loop over the networks among the client profiles, in the order in which `range` visits them.
unfoldable pub network_profile : Net → Str → Map Str → Str
network_profile net client [] = []
network_profile net client ((rule, profile) ∷ rules) =
    if contains (codes "/") rule && ip_in_list net client (rule ∷ [])
    then trim_space profile
    else network_profile net client rules

unfoldable pub client_profile_name : Net → (Map Str → Map Str) → Config → Str → Str
client_profile_name net range cfg client =
    if is_empty client
    then []
    else let exact = trim_space (text_at client cfg.client_profiles) in
      if is_empty exact then network_profile net client (range cfg.client_profiles) else exact

unfoldable pub or_else : Str → Str → Str
or_else [] other = other
or_else (c ∷ cs) other = c ∷ cs

-- The name of the profile and the profile, if there is one.
unfoldable pub profile_in : Option (Map ClientProfile) → Str → Str × Option ClientProfile
profile_in none name = ([], none)
profile_in (some profiles) name = (name, get name profiles)

unfoldable pub profile_for_client :
    Net → (Map Str → Map Str) → Config → Str → Str × Option ClientProfile
profile_for_client net range cfg client = profile_in cfg.profiles (
    or_else (client_profile_name net range cfg client)
      (or_else (trim_space cfg.default_profile) (codes "default")))

unfoldable pub source_is_blocklist : List BlocklistSource → Str → Bool
source_is_blocklist lists source =
    any (λ src. equal_fold src.name source || equal_fold src.source source) lists

unfoldable pub profile_has_blocklist : List BlocklistSource → List Str → Str → Bool
profile_has_blocklist lists [] source = false
profile_has_blocklist lists (raw ∷ items) source =
    let item = trim_space raw in
    equal_fold item source
    || any
        (λ src.
          (equal_fold src.name item || equal_fold src.source item)
          && (equal_fold src.name source || equal_fold src.source source))
        lists
    || profile_has_blocklist lists items source

-- Whether the index set stored under a key holds the name.
unfoldable pub list_contains : Blocking → Str → Str → Bool
list_contains b key name = elim (get key b.gravity_by_list) [
  | none ↦ false
  | some indexes ↦ gravity_index_set_contains b.gravity indexes name
]

unfoldable pub profile_blocklist_contains : List BlocklistSource → Blocking → List Str → Str → Bool
profile_blocklist_contains lists b [] name = false
profile_blocklist_contains lists b (raw ∷ items) name =
    let list = trim_space raw in
    let rest = profile_blocklist_contains lists b items name in
    if is_empty list
    then rest
    else list_contains b list name
      || any
          (λ src.
            (equal_fold src.name list || equal_fold src.source list)
            && list_contains b src.source name)
          lists
      || rest

-- What a stage of the decision says: an answer with its source, or nothing.
abbrev pub Verdict : Type 0
Verdict = Option (Bool × Str)

-- A blocked rule from a blocklist is skipped for a profile that names other blocklists.
-- `limits` holds those of a profile that names any.
unfoldable pub skips_source : Config → Option (List Str) → Str → Bool
skips_source cfg none src = false
skips_source cfg (some items) src =
    source_is_blocklist cfg.blocklists src && not (profile_has_blocklist cfg.blocklists items src)

unfoldable pub is_limited : Option (List Str) → Bool
is_limited none = false
is_limited (some items) = true

-- The loop over the parents of the name, on its labels.
unfoldable pub wildcard_verdict : Config → Option (List Str) → Blocking → List Str → Verdict
wildcard_verdict cfg limits b [] = none
wildcard_verdict cfg limits b (part ∷ []) = none
wildcard_verdict cfg limits b (part ∷ next ∷ parts) =
    let wild = codes "*." ++ join (codes ".") (next ∷ parts) in
    let src = text_at wild b.blocked_src in
    let rest = wildcard_verdict cfg limits b (next ∷ parts) in
    if not (flag wild b.blocked)
    then rest
    else if skips_source cfg limits src || (is_limited limits && is_empty src)
    then rest
    else some (true, or_else src (codes "wildcard"))

-- The source of an exact rule, the rule with no source, and `gravity`.
unfoldable pub exact_verdict : Config → Option (List Str) → Blocking → Str → Verdict
exact_verdict cfg limits b name = elim (get name b.blocked_src) [
  | some src ↦ if skips_source cfg limits src then some (false, []) else some (true, src)
  | none ↦
      if flag name b.blocked
      then (if is_limited limits then some (false, []) else some (true, codes "manual"))
      else if not (is_limited limits) && gravity_contains b.gravity name
      then some (true, codes "gravity")
      else none
]

-- The first answer.
unfoldable pub first_verdict : Verdict → Verdict → Verdict
first_verdict none v = v
first_verdict (some a) v = some a

-- The blocklists of a profile, if it names any.
unfoldable pub profile_limits : Option ClientProfile → Option (List Str)
profile_limits none = none
profile_limits (some p) = if ltb 0 (length p.blocklists) then some p.blocklists else none

unfoldable pub verdict_or_pass : Verdict → Bool × Str
verdict_or_pass none = (false, [])
verdict_or_pass (some a) = a

module _ (re : Regex) where
  unfoldable pub any_rule_matches : List Str → Str → Bool
  any_rule_matches [] name = false
  any_rule_matches (rule ∷ rules) name = rule_matches re rule name || any_rule_matches rules name

  -- The loop over the patterns.
  unfoldable pub pattern_verdict : Config → Option (List Str) → Blocking → List Str → Str → Verdict
  pattern_verdict cfg limits b [] name = none
  pattern_verdict cfg limits b (rule ∷ rules) name =
      let src = text_at rule b.blocked_src in
      let rest = pattern_verdict cfg limits b rules name in
      if not (rule_matches re rule name)
      then rest
      else if skips_source cfg limits src || (is_limited limits && is_empty src)
      then rest
      else some (true, or_else src (codes "regex"))

  unfoldable pub rule_verdict : Config → Option (List Str) → Blocking → Str → Verdict
  rule_verdict cfg limits b name = first_verdict (exact_verdict cfg limits b name) (
      first_verdict (wildcard_verdict cfg limits b (split b'.' name))
        (pattern_verdict cfg limits b b.blocked_pat name))

  unfoldable pub schedule_verdict : Config → Clock → Str → Verdict
  schedule_verdict cfg now name = elim (scheduled_decision re cfg.scheduled_rules now name) [
    | none ↦ none
    | some (action, source) ↦ some (str_eq action (codes "block"), source)
  ]

  unfoldable pub allow_verdict : Config → Str → Verdict
  allow_verdict cfg name = if any_rule_matches cfg.allowed name then some (false, []) else none

  unfoldable pub profile_verdict : Config → Blocking → Str → Str → Option ClientProfile → Verdict
  profile_verdict cfg b name profile_name none = none
  profile_verdict cfg b name profile_name (some p) =
      if p.disable_blocking || p.disabled
      then some (false, [])
      else if any_rule_matches p.allowed name
      then some (false, [])
      else if any_rule_matches p.blocked name
      then some (true, codes "profile:" ++ profile_name)
      else if ltb 0 (length p.blocklists)
          && profile_blocklist_contains cfg.blocklists b p.blocklists name
      then some (true, codes "profile-list:" ++ profile_name)
      else none

  -- The decision on a name for the profile that was found.
  unfoldable pub decide_for :
      Config → Blocking → Clock → Str → Str × Option ClientProfile → Bool × Str
  decide_for cfg b now name (profile_name, profile) = verdict_or_pass (
      first_verdict (profile_verdict cfg b name profile_name profile) (
        first_verdict (allow_verdict cfg name) (
          first_verdict (schedule_verdict cfg now name)
            (rule_verdict cfg (profile_limits profile) b name))))

  unfoldable pub block_decision :
      Net → (Map Str → Map Str) → Config → Blocking → Clock → Str → Str → Bool × Str
  block_decision net range cfg b now qname client =
      decide_for cfg b now (query_name qname) (profile_for_client net range cfg client)

-- For tests: all that a run of these functions computes with.
unfoldable pub decision_program : Unit {0}
unfolding query_name network_profile client_profile_name or_else profile_in profile_for_client
    source_is_blocklist profile_has_blocklist list_contains profile_blocklist_contains skips_source
    is_limited wildcard_verdict exact_verdict first_verdict profile_limits verdict_or_pass
    any_rule_matches pattern_verdict rule_verdict schedule_verdict allow_verdict profile_verdict
    decide_for block_decision
decision_program = tt
