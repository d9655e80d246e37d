-- ===== src/Settings/Upstreams/Targets.antt =====
-- Where the targets of `upstreamTargetsFor` (upstream.go) lead under a configuration that
-- `validateConfig` (config.go) accepts.
use moreno_dnsleaf.Prelude.{
  Bool, not, ◌&&◌, ◌||◌, List, [], ◌∷◌, ◌++◌, map, length, ◌==◌, All, All-keep, All-append, ◌≡◌,
  if-cases,
}
use moreno_dnsleaf.Prelude.Text.{Str, codes, str_eq, is_empty, has_suffix}
use moreno_dnsleaf.Prelude.Map.{Map}
use moreno_dnsleaf.Deps.{Net, Urls}
use moreno_dnsleaf.Messages.{Dns, Msg, Question}
use moreno_dnsleaf.Config.{Config, UpstreamEndpoint, ConditionalForward}
use moreno_dnsleaf.Checks.Network.{IsAddress}
use moreno_dnsleaf.Validate.{upstream_issues, validate_config}
use moreno_dnsleaf.Validate.Report.{endpoint_error}
use moreno_dnsleaf.Validate.Issues.{concat-eq-nil, issue_of-eq-nil, each-eq-nil}
use moreno_dnsleaf.Validate.Accepted.{IsForward, validate_config-IsAcceptable}
use moreno_dnsleaf.Upstream.{
  Target, plain, endpoint, disabled_upstream, forward_suffix, conditional_upstreams, upstreams_for,
  targets_for,
}
use moreno_dnsleaf.Settings.Upstreams.Routes.{IsUsable, validate_upstream_endpoint-IsUsable}

module _ (net : Net) (dns : Dns) (urls : Urls) where
  abbrev pub IsTarget : Target → Type 0
  IsTarget (plain addr) = IsAddress net addr
  IsTarget (endpoint e) = IsUsable net dns urls e

  All-map_plain : (addrs : List Str) → All (IsAddress net) addrs → All IsTarget (map plain addrs)
  All-map_plain [] h = tt
  All-map_plain (a ∷ addrs) (first, rest) = (first, All-map_plain addrs rest)

  All-map_endpoint :
      (es : List UpstreamEndpoint) → All (IsUsable net dns urls) es → All IsTarget (map endpoint es)
  All-map_endpoint [] h = tt
  All-map_endpoint (e ∷ es) (first, rest) = (first, All-map_endpoint es rest)

  conditional_upstreams-IsAddress :
      (addrs : List Str) (name : Str) (rules : List ConditionalForward)
      → All (IsAddress net) addrs
      → All (IsForward net dns) rules
      → All (IsAddress net) (conditional_upstreams addrs name rules)
  unfolding conditional_upstreams
  conditional_upstreams-IsAddress addrs name [] h k = h
  conditional_upstreams-IsAddress addrs name (rule ∷ rules) h ((suffix, some_left, first), rest) =
      let others = conditional_upstreams-IsAddress addrs name rules h rest in
      let suffix = forward_suffix rule in
      if-cases (All (IsAddress net)) (not rule.enabled || length rule.upstreams == 0) others (
        if-cases (All (IsAddress net))
          (not (is_empty suffix) && (str_eq name suffix || has_suffix (codes "." ++ suffix) name))
          first others)

  upstreams_for-IsAddress :
      (cfg : Config) (questions : List Question)
      → All (IsAddress net) cfg.upstreams
      → All (IsForward net dns) cfg.conditional_forward
      → All (IsAddress net) (upstreams_for cfg questions)
  unfolding upstreams_for
  upstreams_for-IsAddress cfg [] h k = h
  upstreams_for-IsAddress cfg (q ∷ questions) h k =
      conditional_upstreams-IsAddress cfg.upstreams _ cfg.conditional_forward h k

  upstream_issues-IsUsable :
      (cfg : Config)
      → upstream_issues net dns urls cfg ≡ []
      → All (IsUsable net dns urls) cfg.upstream_endpoints
  unfolding upstream_issues
  upstream_issues-IsUsable cfg h =
      let (needed, (addresses, (endpoints, others))) = concat-eq-nil _ h in
      each-eq-nil _ _ 0 cfg.upstream_endpoints
        (λ i e ok.
          validate_upstream_endpoint-IsUsable net dns urls e
            (issue_of-eq-nil endpoint_error _ _ ok))
        endpoints

  validate_config-IsUsable :
      (cfg : Config)
      → validate_config net dns urls cfg ≡ []
      → All (IsUsable net dns urls) cfg.upstream_endpoints
  unfolding validate_config
  validate_config-IsUsable cfg h =
      let (listen, (upstream, others)) = concat-eq-nil _ h in upstream_issues-IsUsable cfg upstream

  -- With a configuration that `validateConfig` accepts, each target of a query, whatever its
  -- question and the unhealthy upstreams, is an address with a host and a port from 1 to 65535, or
  -- an endpoint that `parseUpstreamEndpoint` reads, as such an address or as a URL of DNS over HTTPS.
  pub targets_for-IsTarget :
      (cfg : Config) (unhealthy : Map Bool) (r : Msg)
      → validate_config net dns urls cfg ≡ []
      → All IsTarget (targets_for cfg unhealthy r)
  unfolding targets_for
  targets_for-IsTarget cfg unhealthy r h =
      let (bounds, needed, addresses, records, forwards, good, distinct) =
        validate_config-IsAcceptable net dns urls cfg h in
      All-append IsTarget _ _
        (All-map_plain _ (
          All-keep (IsAddress net) (λ a. not (disabled_upstream cfg unhealthy a))
            (upstreams_for cfg r.question)
            (upstreams_for-IsAddress cfg r.question addresses forwards)))
        (All-map_endpoint _ (
          All-keep (IsUsable net dns urls) (λ e. not (disabled_upstream cfg unhealthy e.url))
            cfg.upstream_endpoints (validate_config-IsUsable cfg h)))
