-- ===== src/Policy.antt =====
-- The rules of the panel: `handleBlocked`, `handleAllowed`, `handleBlockedIPs` and `handleRegexRules` of
-- policy_api.go. A decoded field is an argument, `none` where the body is not JSON.
pub mod Lists
pub mod Step
pub mod Enforced
use moreno_dnsleaf.Prelude.{
  ℕ, Bool, true, false, not, ◌&&◌, ◌||◌, List, [], ◌∷◌, ◌++◌, Option, none, some, map,
  if◌then◌else◌, keep, any, is_some,
}
use moreno_dnsleaf.Prelude.Map.{Map}
use moreno_dnsleaf.Prelude.Text.{Str, codes, str_eq, is_empty, trim_space}
use moreno_dnsleaf.Deps.{Regex, Net}
use moreno_dnsleaf.Rules.{
  normalize_domain_rule, is_pattern_rule, validate_domain_rule, ensure_rule, rules_program,
}
use moreno_dnsleaf.Blocking.{
  Blocking, text_at, add_blocked_rule, remove_blocked_rule, blocking_program,
}
use moreno_dnsleaf.Checks.{IpResult, normal, no_ip, normalize_ip_or_cidr, text_of, checks_program}
use moreno_dnsleaf.Guard.{Panel, Response}

-- A method with the decoded field of its body.
pub data RuleRequest : Type 0 where
  get_rules : RuleRequest
  post_rule : Option Str → RuleRequest
  delete_rule : Option Str → RuleRequest
  other_method : RuleRequest

-- What a handler writes: names with their sources, names, one name, 204, or an error.
pub data PolicyReply : Type 0 where
  entries : List (Str × Str) → PolicyReply
  names : List Str → PolicyReply
  one : Str → PolicyReply
  no_content : PolicyReply
  error : ℕ → PolicyReply

abbrev pub bad_request : PolicyReply
bad_request = error 400

-- The names that are not those of a rule.
abbrev pub without_rule : Str → List Str → List Str
without_rule domain rules = keep (λ r. not (str_eq (normalize_domain_rule r) domain)) rules

abbrev pub has_normal : Str → List Str → Bool
has_normal domain rules = any (λ r. str_eq (normalize_domain_rule r) domain) rules

abbrev pub set_blocked : Panel → Blocking → List Str → Panel
set_blocked p blocking rules = record p {
  blocking = blocking;
  cfg = record (p.cfg) { blocked = rules };
}

-- The first lines of the answer to GET: the rules with their sources, in the order of `range`.
unfoldable pub blocked_entries : (Map Bool → Map Bool) → Blocking → List (Str × Str)
blocked_entries range b =
    map
      (λ e. (
        e.0,
        if is_empty (text_at e.0 b.blocked_src) then codes "manual" else text_at e.0 b.blocked_src,
      ))
      (range b.blocked)
    ++ map (λ domain. (domain, codes "gravity")) b.gravity

unfoldable pub drop_blocked : Panel → Option Str → Panel × PolicyReply
drop_blocked p none = (p, bad_request)
drop_blocked p (some name) =
    let domain = normalize_domain_rule name in
    (
      set_blocked p (remove_blocked_rule p.blocking domain) (without_rule domain p.cfg.blocked),
      no_content,
    )

module _ (re : Regex) where
  abbrev pub is_accepted : Str → Bool
  is_accepted domain = not (is_some (validate_domain_rule re domain))

  unfoldable pub post_blocked : Panel → Option Str → Panel × PolicyReply
  post_blocked p none = (p, bad_request)
  post_blocked p (some name) =
      let domain = normalize_domain_rule name in
      if not (is_accepted domain) then (p, bad_request) else (
        set_blocked p (add_blocked_rule p.blocking domain (codes "config")).0 (
            if has_normal domain p.cfg.blocked
            then p.cfg.blocked
            else p.cfg.blocked ++ domain ∷ []),
        one domain,
      )

  unfoldable pub handle_blocked : (Map Bool → Map Bool) → RuleRequest → Panel → Panel × PolicyReply
  handle_blocked range get_rules p = (p, entries (blocked_entries range p.blocking))
  handle_blocked range (post_rule body) p = post_blocked p body
  handle_blocked range (delete_rule body) p = drop_blocked p body
  handle_blocked range other_method p = (p, error 405)

  abbrev pub set_allowed : Panel → List Str → Panel
  set_allowed p rules = record p { cfg = record (p.cfg) { allowed = rules } }

  unfoldable pub post_allowed : Panel → Option Str → Panel × PolicyReply
  post_allowed p none = (p, bad_request)
  post_allowed p (some name) =
      let domain = normalize_domain_rule name in
      if not (is_accepted domain)
      then (p, bad_request)
      else if has_normal domain p.cfg.allowed
      then (p, one domain)
      else (set_allowed p (p.cfg.allowed ++ domain ∷ []), one domain)

  unfoldable pub drop_allowed : Panel → Option Str → Panel × PolicyReply
  drop_allowed p none = (p, bad_request)
  drop_allowed p (some name) =
      (set_allowed p (without_rule (normalize_domain_rule name) p.cfg.allowed), no_content)

  unfoldable pub handle_allowed : RuleRequest → Panel → Panel × PolicyReply
  handle_allowed get_rules p = (p, names p.cfg.allowed)
  handle_allowed (post_rule body) p = post_allowed p body
  handle_allowed (delete_rule body) p = drop_allowed p body
  handle_allowed other_method p = (p, error 405)

  unfoldable pub post_pattern : Panel → Option Str → Panel × PolicyReply
  post_pattern p none = (p, bad_request)
  post_pattern p (some text) =
      let rule = normalize_domain_rule text in
      if not (is_pattern_rule rule) || not (is_accepted rule) then (p, bad_request) else (
        set_blocked p (add_blocked_rule p.blocking rule (codes "regex")).0
            (ensure_rule p.cfg.blocked rule),
        one rule,
      )

  unfoldable pub handle_regex_rules : RuleRequest → Panel → Panel × PolicyReply
  handle_regex_rules get_rules p = (p, names p.blocking.blocked_pat)
  handle_regex_rules (post_rule body) p = post_pattern p body
  handle_regex_rules (delete_rule body) p = drop_blocked p body
  handle_regex_rules other_method p = (p, error 405)

module _ (net : Net) where
  abbrev pub set_blocked_ips : Panel → List Str → Panel
  set_blocked_ips p ips = record p { cfg = record (p.cfg) { blocked_ips = ips } }

  abbrev pub normal_ip : Str → Str
  normal_ip item = text_of (normalize_ip_or_cidr net item)

  unfoldable pub post_normal : Panel → IpResult → Panel × PolicyReply
  post_normal p (no_ip e) = (p, bad_request)
  post_normal p (normal ip) =
      if any (λ existing. str_eq (normal_ip existing) ip) p.cfg.blocked_ips
      then (p, one ip)
      else (set_blocked_ips p (p.cfg.blocked_ips ++ ip ∷ []), one ip)

  unfoldable pub post_blocked_ip : Panel → Option Str → Panel × PolicyReply
  post_blocked_ip p none = (p, bad_request)
  post_blocked_ip p (some body) = post_normal p (normalize_ip_or_cidr net body)

  -- The address to delete: its normal form, or the text where it has none.
  unfoldable pub ip_to_drop : Str → IpResult → Str
  ip_to_drop body (normal ip) = ip
  ip_to_drop body (no_ip e) = trim_space body

  unfoldable pub drop_blocked_ip : Panel → Option Str → Panel × PolicyReply
  drop_blocked_ip p none = (p, bad_request)
  drop_blocked_ip p (some body) =
      let ip = ip_to_drop body (normalize_ip_or_cidr net body) in
      (
        set_blocked_ips p (
            keep (λ existing. not (str_eq existing ip) && not (str_eq (normal_ip existing) ip))
              p.cfg.blocked_ips),
        no_content,
      )

  unfoldable pub handle_blocked_ips : RuleRequest → Panel → Panel × PolicyReply
  handle_blocked_ips get_rules p = (p, names p.cfg.blocked_ips)
  handle_blocked_ips (post_rule body) p = post_blocked_ip p body
  handle_blocked_ips (delete_rule body) p = drop_blocked_ip p body
  handle_blocked_ips other_method p = (p, error 405)

-- The status that a reply is written with, 0 where the handler leaves it to the first write.
unfoldable pub reply_status : PolicyReply → ℕ
reply_status (entries es) = 0
reply_status (names ns) = 0
reply_status (one name) = 0
reply_status no_content = 204
reply_status (error status) = status

-- A handler for the guard, with `encode` for package json.
unfoldable pub respond : (PolicyReply → Str) → Panel × PolicyReply → Panel × Response
respond encode (p, reply) = (p, record { status = reply_status reply; body = encode reply })

-- For tests: all that a run of these functions computes with.
unfoldable pub policy_program : Unit {0}
unfolding rules_program blocking_program checks_program blocked_entries drop_blocked post_blocked
    handle_blocked post_allowed drop_allowed handle_allowed post_pattern handle_regex_rules
    post_normal post_blocked_ip ip_to_drop drop_blocked_ip handle_blocked_ips reply_status respond
policy_program = tt
