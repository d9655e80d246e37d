-- ===== src/Rules.antt =====
-- The domain rules of blocklists.go: their normal form, `validateDomainRule`, `ensureRule`, and
-- matching a name with and without the cache of compiled patterns.
pub mod Cache
pub mod Validate
pub mod Names
use moreno_dnsleaf.Prelude.{
  ℕ, suc, ◌+◌, ◌-◌, ◌<◌, ◌≤◌, Bool, true, false, not, ◌&&◌, ◌||◌, List, [], ◌∷◌, ◌++◌, Option, none,
  some, ◌≡◌, refl, ltb, leb, if◌then◌else◌, length, any, arith,
}
use moreno_dnsleaf.Prelude.Text.{
  Str, codes, str_eq, is_empty, trim_space, to_lower, has_prefix, has_suffix, trim_prefix,
  trim_suffix, contains, has_byte, text_program,
}
use moreno_dnsleaf.Prelude.Map.{Map, get, put}
use moreno_dnsleaf.Deps.{Regex}
use mathlib.Core.Option

abbrev pub max_rule_cache : ℕ
max_rule_cache = 4096

abbrev pub max_domain_rule_len : ℕ
max_domain_rule_len = 4096

unfoldable pub is_regex_rule : Str → Bool
is_regex_rule rule =
    has_prefix (codes "regex:") rule
    || (has_prefix (codes "/") rule && has_suffix (codes "/") rule && ltb 2 (length rule))

unfoldable pub normalize_domain_rule : Str → Str
normalize_domain_rule rule =
    let lowered = to_lower (trim_space rule) in
    if is_empty lowered
    then []
    else if is_regex_rule lowered
    then lowered
    else trim_suffix (codes ".") lowered

unfoldable pub regex_rule_pattern : Str → Str
regex_rule_pattern rule =
    if has_prefix (codes "regex:") rule
    then trim_space (trim_prefix (codes "regex:") rule)
    else if has_prefix (codes "/") rule && has_suffix (codes "/") rule && ltb 2 (length rule)
    then trim_suffix (codes "/") (trim_prefix (codes "/") rule)
    else []

unfoldable pub is_pattern_rule : Str → Bool
is_pattern_rule rule = is_regex_rule rule || contains (codes "*") rule

-- `regexp.QuoteMeta`: a backslash in front of each special character.
unfoldable pub quote_meta : Str → Str
quote_meta [] = []
quote_meta (c ∷ cs) =
    if has_byte (codes "\\.+*?()|[]{}^$") c then b'\\' ∷ c ∷ quote_meta cs else c ∷ quote_meta cs

-- `strings.Split` at the two bytes of an escaped star, put together again around `.*`.
unfoldable pub star_to_any : Str → Str
star_to_any [] = []
star_to_any (c ∷ []) = c ∷ []
star_to_any (c ∷ d ∷ cs) =
    let replaced = b'.' ∷ b'*' ∷ star_to_any cs in
    let kept = c ∷ star_to_any (d ∷ cs) in
    if str_eq (c ∷ d ∷ []) (codes "\\*") then replaced else kept

unfoldable pub wildcard_rule_pattern : Str → Str
wildcard_rule_pattern rule = codes "^" ++ (star_to_any (quote_meta rule) ++ codes "$")

-- `strings.ToLower(strings.TrimSuffix(strings.TrimSpace(name), "."))`
unfoldable pub match_name : Str → Str
match_name name = to_lower (trim_suffix (codes ".") (trim_space name))

-- How `ensureRule` and `validateDomainRule` see a rule.
unfoldable pub ensure_rule : List Str → Str → List Str
ensure_rule rules rule =
    let normalized = normalize_domain_rule rule in
    if any (λ existing. str_eq (normalize_domain_rule existing) normalized) rules
    then rules
    else rules ++ (normalized ∷ [])

pub data RuleError : Type 0 where
  domain_required rule_too_long invalid_regex invalid_wildcard : RuleError

module _ (re : Regex) where
  open re use {Regexp, compile, match_string}

  -- The result of `compileDomainRule`: no pattern, an error, or a compiled pattern.
  pub data Compiled : Type 0 where
    no_pattern : Compiled
    failed : Compiled
    compiled : Regexp → Compiled

  abbrev from_compile : Option Regexp → Compiled
  from_compile none = failed
  from_compile (some r) = compiled r

  unfoldable pub compile_domain_rule : Str → Compiled
  compile_domain_rule rule =
      let r = normalize_domain_rule rule in
      if not (is_pattern_rule r)
      then no_pattern
      else from_compile
          (compile (if is_regex_rule r then regex_rule_pattern r else wildcard_rule_pattern r))

  -- The free function `domainRuleMatches`.
  unfoldable pub domain_rule_matches : Str → Str → Bool
  domain_rule_matches rule name =
      let r = normalize_domain_rule rule in
      let n = match_name name in
      if is_empty r || is_empty n then false else elim (compile_domain_rule r) [
        | no_pattern ↦ str_eq r n
        | failed ↦ str_eq r n
        | compiled p ↦ match_string p n
      ]

  abbrev pub matches_compiled : Str → Compiled → Bool
  matches_compiled n no_pattern = false
  matches_compiled n failed = false
  matches_compiled n (compiled p) = match_string p n

  -- What the method `domainRuleMatches` answers, without its cache.
  unfoldable pub rule_matches : Str → Str → Bool
  rule_matches rule name =
      let r = normalize_domain_rule rule in
      let n = match_name name in
      if is_empty r || is_empty n
      then false
      else if not (is_pattern_rule r)
      then str_eq r n
      else matches_compiled n (compile_domain_rule r)

  abbrev pub RuleCache : Type 0
  RuleCache = Map Regexp

  -- A new pattern is stored while there is room.
  unfoldable pub store_compiled : RuleCache → Str → Str → Compiled → RuleCache × Bool
  store_compiled cache r n no_pattern = (cache, false)
  store_compiled cache r n failed = (cache, false)
  store_compiled cache r n (compiled p) =
      (if ltb (length cache) max_rule_cache then put r p cache else cache, match_string p n)

  -- The method below its first tests, on the entry that the cache has for the rule.
  unfoldable pub match_cached : RuleCache → Str → Str → Option Regexp → RuleCache × Bool
  match_cached cache r n (some p) = (cache, match_string p n)
  match_cached cache r n none = store_compiled cache r n (compile_domain_rule r)

  -- The method `domainRuleMatches` on the cache.
  unfoldable pub cached_rule_matches : RuleCache → Str → Str → RuleCache × Bool
  cached_rule_matches cache rule name =
      let r = normalize_domain_rule rule in
      let n = match_name name in
      if is_empty r || is_empty n
      then (cache, false)
      else if not (is_pattern_rule r)
      then (cache, str_eq r n)
      else match_cached cache r n (get r cache)

  unfoldable pub validate_domain_rule : Str → Option RuleError
  validate_domain_rule rule =
      let r = normalize_domain_rule rule in
      if is_empty r
      then some domain_required
      else if ltb max_domain_rule_len (length r)
      then some rule_too_long
      else if is_regex_rule r
      then elim (compile_domain_rule r) [ failed ↦ some invalid_regex | _ ↦ none ]
      else if contains (codes "*") r
      then elim (compile_domain_rule r) [ failed ↦ some invalid_wildcard | _ ↦ none ]
      else none

-- For tests: all that a run of these functions computes with.
unfoldable pub rules_program : Unit {0}
unfolding text_program is_regex_rule normalize_domain_rule regex_rule_pattern is_pattern_rule
    quote_meta star_to_any wildcard_rule_pattern match_name ensure_rule compile_domain_rule
    domain_rule_matches rule_matches store_compiled match_cached cached_rule_matches
    validate_domain_rule
rules_program = tt
