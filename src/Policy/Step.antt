-- ===== src/Policy/Step.antt =====
-- The handlers of policy_api.go behind the guard: a failure changes nothing.
use moreno_dnsleaf.Prelude.{
  Bool, true, false, not, ◌||◌, Option, none, some, if◌then◌else◌, any, ◌≡◌, ◌⊎◌, inl, inr, refl,
  ap, ◌∙◌, arith, Bool-cases, if-cases,
}
use moreno_dnsleaf.Prelude.Map.{Map}
use moreno_dnsleaf.Prelude.Text.{Str, codes, str_eq, eq_of_str_eq}
use moreno_dnsleaf.Deps.{Regex, Net}
use moreno_dnsleaf.Rules.{normalize_domain_rule, is_pattern_rule}
use moreno_dnsleaf.Checks.{IpResult, normal, no_ip, normalize_ip_or_cidr}
use moreno_dnsleaf.Logs.{Request}
use moreno_dnsleaf.Guard.{Panel, Handler, Outside, status_of, is_success, is_safe_method}
use moreno_dnsleaf.Guard.Transaction.{is_passed_on}
use moreno_dnsleaf.Guard.Runs.{IsOrderly}
use moreno_dnsleaf.Policy.{
  RuleRequest, get_rules, post_rule, delete_rule, other_method, PolicyReply, error, one, entries,
  names, no_content, has_normal, is_accepted, normal_ip, drop_blocked, post_blocked, handle_blocked,
  post_allowed, drop_allowed, handle_allowed, post_pattern, handle_regex_rules, post_normal,
  post_blocked_ip, drop_blocked_ip, handle_blocked_ips, reply_status, respond,
}

-- A reply that is an error comes with the panel as it was, and no reply touches the file.
abbrev pub IsQuiet : Panel → Panel × PolicyReply → Type 0
IsQuiet p (q, error status) = q ≡ p
IsQuiet p (q, reply) = q.stored ≡ p.stored

module _ (re : Regex) where
  post_blocked-IsQuiet : (p : Panel) (body : Option Str) → IsQuiet p (post_blocked re p body)
  unfolding post_blocked
  post_blocked-IsQuiet p none = refl
  post_blocked-IsQuiet p (some name) =
      if-cases (IsQuiet p) (not (is_accepted re (normalize_domain_rule name))) refl refl

  drop_blocked-IsQuiet : (p : Panel) (body : Option Str) → IsQuiet p (drop_blocked p body)
  unfolding drop_blocked
  drop_blocked-IsQuiet p none = refl
  drop_blocked-IsQuiet p (some name) = refl

  handle_blocked-IsQuiet :
      (range : Map Bool → Map Bool) (r : RuleRequest) (p : Panel)
      → IsQuiet p (handle_blocked re range r p)
  unfolding handle_blocked
  handle_blocked-IsQuiet range get_rules p = refl
  handle_blocked-IsQuiet range (post_rule body) p = post_blocked-IsQuiet p body
  handle_blocked-IsQuiet range (delete_rule body) p = drop_blocked-IsQuiet p body
  handle_blocked-IsQuiet range other_method p = refl

  handle_allowed-IsQuiet : (r : RuleRequest) (p : Panel) → IsQuiet p (handle_allowed re r p)
  unfolding handle_allowed post_allowed drop_allowed
  handle_allowed-IsQuiet get_rules p = refl
  handle_allowed-IsQuiet (post_rule none) p = refl
  handle_allowed-IsQuiet (post_rule (some name)) p =
      let domain = normalize_domain_rule name in
      if-cases (IsQuiet p) (not (is_accepted re domain)) refl
        (if-cases (IsQuiet p) (has_normal domain p.cfg.allowed) refl refl)
  handle_allowed-IsQuiet (delete_rule none) p = refl
  handle_allowed-IsQuiet (delete_rule (some name)) p = refl
  handle_allowed-IsQuiet other_method p = refl

  handle_regex_rules-IsQuiet : (r : RuleRequest) (p : Panel) → IsQuiet p (handle_regex_rules re r p)
  unfolding handle_regex_rules post_pattern
  handle_regex_rules-IsQuiet get_rules p = refl
  handle_regex_rules-IsQuiet (post_rule none) p = refl
  handle_regex_rules-IsQuiet (post_rule (some text)) p =
      let rule = normalize_domain_rule text in
      if-cases (IsQuiet p) (not (is_pattern_rule rule) || not (is_accepted re rule)) refl refl
  handle_regex_rules-IsQuiet (delete_rule body) p = drop_blocked-IsQuiet p body
  handle_regex_rules-IsQuiet other_method p = refl

module _ (net : Net) where
  post_normal-IsQuiet : (p : Panel) (ip : IpResult) → IsQuiet p (post_normal net p ip)
  unfolding post_normal
  post_normal-IsQuiet p (no_ip e) = refl
  post_normal-IsQuiet p (normal ip) =
      if-cases (IsQuiet p) (any (λ x. str_eq (normal_ip net x) ip) p.cfg.blocked_ips) refl refl

  handle_blocked_ips-IsQuiet :
      (r : RuleRequest) (p : Panel) → IsQuiet p (handle_blocked_ips net r p)
  unfolding handle_blocked_ips post_blocked_ip drop_blocked_ip
  handle_blocked_ips-IsQuiet get_rules p = refl
  handle_blocked_ips-IsQuiet (post_rule none) p = refl
  handle_blocked_ips-IsQuiet (post_rule (some body)) p =
      post_normal-IsQuiet p (normalize_ip_or_cidr net body)
  handle_blocked_ips-IsQuiet (delete_rule none) p = refl
  handle_blocked_ips-IsQuiet (delete_rule (some body)) p = refl
  handle_blocked_ips-IsQuiet other_method p = refl

-- The method of a request, with the field of its body.
abbrev pub rule_request : Request → Option Str → RuleRequest
rule_request r body =
    if str_eq r.method (codes "GET")
    then get_rules
    else if str_eq r.method (codes "POST")
    then post_rule body
    else if str_eq r.method (codes "DELETE")
    then delete_rule body
    else other_method

-- The four handlers by their paths in the panel.
pub data PolicyPath : Type 0 where
  blocked_path allowed_path blocked_ips_path regex_path : PolicyPath

abbrev pub path_text : PolicyPath → Str
path_text blocked_path = codes "/api/blocked"
path_text allowed_path = codes "/api/allowed"
path_text blocked_ips_path = codes "/api/blocked-ips"
path_text regex_path = codes "/api/regex-rules"

module _ (re : Regex) (net : Net) (range : Map Bool → Map Bool) (encode : PolicyReply → Str) where
  abbrev pub policy_reply : PolicyPath → RuleRequest → Panel → Panel × PolicyReply
  policy_reply blocked_path r p = handle_blocked re range r p
  policy_reply allowed_path r p = handle_allowed re r p
  policy_reply blocked_ips_path r p = handle_blocked_ips net r p
  policy_reply regex_path r p = handle_regex_rules re r p

  abbrev pub policy_handler : PolicyPath → Request → Option Str → Handler
  policy_handler path r body p = respond encode (policy_reply path (rule_request r body) p)

  policy_reply-IsQuiet :
      (path : PolicyPath) (r : RuleRequest) (p : Panel) → IsQuiet p (policy_reply path r p)
  policy_reply-IsQuiet blocked_path r p = handle_blocked-IsQuiet re range r p
  policy_reply-IsQuiet allowed_path r p = handle_allowed-IsQuiet re r p
  policy_reply-IsQuiet blocked_ips_path r p = handle_blocked_ips-IsQuiet net r p
  policy_reply-IsQuiet regex_path r p = handle_regex_rules-IsQuiet re r p

  quiet-stored : (p : Panel) (x : Panel × PolicyReply) → IsQuiet p x → (x.0).stored ≡ p.stored
  quiet-stored p (q, entries es) h = h
  quiet-stored p (q, names ns) h = h
  quiet-stored p (q, one name) h = h
  quiet-stored p (q, no_content) h = h
  quiet-stored p (q, error status) h = ap (λ r. r.stored) h

  quiet-failed :
      (p : Panel) (x : Panel × PolicyReply)
      → IsQuiet p x
      → is_success (status_of (respond encode x).1) ≡ false
      → (x.0).cfg ≡ p.cfg
  unfolding respond reply_status status_of
  quiet-failed p (q, entries es) h bad = ground arith
  quiet-failed p (q, names ns) h bad = ground arith
  quiet-failed p (q, one name) h bad = ground arith
  quiet-failed p (q, no_content) h bad = ground arith
  quiet-failed p (q, error status) h bad = ap (λ r. r.cfg) h

  panel-respond : (x : Panel × PolicyReply) → (respond encode x).0 ≡ x.0
  panel-respond (p, reply) = unfold respond in refl

  get_rules-same : (path : PolicyPath) (p : Panel) → (policy_reply path get_rules p).0 ≡ p
  unfolding handle_blocked handle_allowed handle_blocked_ips handle_regex_rules
  get_rules-same blocked_path p = refl
  get_rules-same allowed_path p = refl
  get_rules-same blocked_ips_path p = refl
  get_rules-same regex_path p = refl

  other_method-same : (path : PolicyPath) (p : Panel) → (policy_reply path other_method p).0 ≡ p
  unfolding handle_blocked handle_allowed handle_blocked_ips handle_regex_rules
  other_method-same blocked_path p = refl
  other_method-same allowed_path p = refl
  other_method-same blocked_ips_path p = refl
  other_method-same regex_path p = refl

  -- GET, HEAD and OPTIONS neither post nor delete.
  safe_request :
      (method : Str) (get post delete : RuleRequest)
      → is_safe_method method ≡ true
      → let chosen =
          if str_eq method (codes "GET")
          then get
          else if str_eq method (codes "POST")
          then post
          else if str_eq method (codes "DELETE")
          then delete
          else other_method in
        (chosen ≡ get) ⊎ (chosen ≡ other_method)
  safe_request method get post delete h = elim (Bool-cases (str_eq method (codes "GET"))) [
    | inl is_get ↦ inl (rw is_get)
    | inr not_get ↦ elim (Bool-cases (str_eq method (codes "HEAD"))) [
      | inl is_head ↦ inr (rw (eq_of_str_eq method (codes "HEAD") is_head) (unfold str_eq in refl))
      | inr not_head ↦
          inr (rw (eq_of_str_eq method (codes "OPTIONS") (ground arith)) (unfold str_eq in refl))
    ]
  ]

  path_text-lem :
      (path : PolicyPath)
      → (str_eq (path_text path) (codes "/dns-query") ≡ false)
        × (str_eq (path_text path) (codes "/api/login") ≡ false)
  unfolding str_eq
  path_text-lem blocked_path = (refl, refl)
  path_text-lem allowed_path = (refl, refl)
  path_text-lem blocked_ips_path = (refl, refl)
  path_text-lem regex_path = (refl, refl)

  passed-is_safe_method :
      (path : PolicyPath) (r : Request)
      → r.path ≡ path_text path
      → is_passed_on r ≡ true
      → is_safe_method r.method ≡ true
  passed-is_safe_method path r e h =
      let (dns_query, login) = path_text-lem path in
      ground (
        arith,
        ap (λ text. str_eq text (codes "/dns-query")) e ∙ dns_query,
        ap (λ text. str_eq text (codes "/api/login")) e ∙ login,
      )

  safe-same :
      (path : PolicyPath) (r : Request) (body : Option Str) (p : Panel)
      → is_safe_method r.method ≡ true
      → (policy_reply path (rule_request r body) p).0 ≡ p
  safe-same path r body p safe =
      elim (safe_request r.method get_rules (post_rule body) (delete_rule body) safe) [
        | inl gets ↦ ap (λ c. (policy_reply path c p).0) gets ∙ get_rules-same path p
        | inr others ↦ ap (λ c. (policy_reply path c p).0) others ∙ other_method-same path p
      ]

  -- The handlers of `/api/blocked`, `/api/allowed`, `/api/blocked-ips` and `/api/regex-rules` never
  -- write the file, and change the configuration in no request that they answer with a failure and in
  -- none that the guard passes on.
  pub policy_handler-IsOrderly :
      (o : Outside) (path : PolicyPath) (r : Request) (body : Option Str)
      → r.path ≡ path_text path
      → IsOrderly o (policy_handler path r body) r
  policy_handler-IsOrderly o path r body e p =
      let x = policy_reply path (rule_request r body) p in
      let quiet = policy_reply-IsQuiet path (rule_request r body) p in
      (
        ap (λ q. q.stored) (panel-respond x) ∙ quiet-stored p x quiet,
        λ why. elim why [
          | inl passed ↦
              ap (λ q. q.cfg)
                (panel-respond x ∙ safe-same path r body p (passed-is_safe_method path r e passed))
          | inr bad ↦ ap (λ q. q.cfg) (panel-respond x) ∙ quiet-failed p x quiet bad
        ],
      )
