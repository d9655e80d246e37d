-- ===== src/Validate/Accepted.antt =====
-- What a configuration has that `validateConfig` (config.go) accepts.
use moreno_dnsleaf.Prelude.{ℕ, Bool, true, false, ◌&&◌, List, [], none, All, ◌≤◌, ◌≡◌, refl, arith}
use moreno_dnsleaf.Prelude.Int.{ℤ, pos, negsuc, ltb_ℤ}
use moreno_dnsleaf.Prelude.Text.{Str}
use moreno_dnsleaf.Deps.{Net, Urls}
use moreno_dnsleaf.Messages.{Dns}
use moreno_dnsleaf.Config.{Config, ConditionalForward}
use moreno_dnsleaf.Checks.{valid_dns_name, validate_network_address}
use moreno_dnsleaf.Checks.Network.{IsAddress, validate_network_address-eq-none_iff}
use moreno_dnsleaf.Checks.Records.{validate_record}
use moreno_dnsleaf.Validate.{
  upstream_issues, cache_issues, log_issues, rate_limit_issues, anomaly_issues, health_issues,
  forward_issues, override_issues, validate_config,
}
use moreno_dnsleaf.Validate.Report.{
  Field, concat, is_empty_list, is_positive, is_negative, address_error, record_error, issue_if,
  each, address_issue,
}
use moreno_dnsleaf.Validate.Issues.{concat-eq-nil, issue_if-eq-nil, issue_of-eq-nil, each-eq-nil}
use moreno_dnsleaf.Validate.Users.{IsGoodUser, HasDistinctNames, user_issues-eq-nil_iff}

-- A number from 0 to a bound.
abbrev pub IsWithin : ℤ → ℕ → Type 0
IsWithin z bound = (n : ℕ) × (z ≡ pos n) × (n ≤ bound)

IsWithin-lem :
    (z : ℤ) (bound : ℕ) → is_negative z ≡ false → ltb_ℤ (pos bound) z ≡ false → IsWithin z bound
IsWithin-lem (pos n) bound h k = (n, refl, ground arith)
IsWithin-lem (negsuc n) bound h k = ground arith

-- `enabled` makes the numbers of the feature positive.
abbrev pub IsOnlyWith : Bool → Bool → Type 0
IsOnlyWith enabled ok = enabled ≡ true → ok ≡ true

abbrev pub HasBounds : Config → Type 0
HasBounds cfg =
    IsWithin cfg.cache_size 1000000
    × IsWithin cfg.cache_ttl 604800
    × IsWithin cfg.query_log_retention 8760
    × IsOnlyWith cfg.cache (is_positive cfg.cache_size && is_positive cfg.cache_ttl)
    × IsOnlyWith cfg.query_log_enabled (is_positive cfg.query_log_retention)
    × IsOnlyWith cfg.rate_limit.enabled
        (is_positive cfg.rate_limit.queries && is_positive cfg.rate_limit.window)
    × IsOnlyWith cfg.anomaly.enabled
        (is_positive cfg.anomaly.hits && is_positive cfg.anomaly.window)
    × IsOnlyWith cfg.upstream_health.enabled (
        is_positive cfg.upstream_health.interval
        && is_positive cfg.upstream_health.timeout
        && is_positive cfg.upstream_health.failures)

cache_issues-bounds :
    (cfg : Config)
    → cache_issues cfg ≡ []
    → IsWithin cfg.cache_size 1000000
      × IsWithin cfg.cache_ttl 604800
      × IsOnlyWith cfg.cache (is_positive cfg.cache_size && is_positive cfg.cache_ttl)
cache_issues-bounds cfg h =
    unfold cache_issues concat issue_if in
    (
      IsWithin-lem cfg.cache_size 1000000 (ground arith) (ground arith),
      IsWithin-lem cfg.cache_ttl 604800 (ground arith) (ground arith),
      λ on. ground arith,
    )

log_issues-bounds :
    (cfg : Config)
    → log_issues cfg ≡ []
    → IsWithin cfg.query_log_retention 8760
      × IsOnlyWith cfg.query_log_enabled (is_positive cfg.query_log_retention)
log_issues-bounds cfg h =
    unfold log_issues concat issue_if in
    (IsWithin-lem cfg.query_log_retention 8760 (ground arith) (ground arith), λ on. ground arith)

rate_limit_issues-bounds :
    (cfg : Config)
    → rate_limit_issues cfg.rate_limit ≡ []
    → IsOnlyWith cfg.rate_limit.enabled
        (is_positive cfg.rate_limit.queries && is_positive cfg.rate_limit.window)
rate_limit_issues-bounds cfg h on = unfold rate_limit_issues concat issue_if in ground arith

anomaly_issues-bounds :
    (cfg : Config)
    → anomaly_issues cfg.anomaly ≡ []
    → IsOnlyWith cfg.anomaly.enabled
        (is_positive cfg.anomaly.hits && is_positive cfg.anomaly.window)
anomaly_issues-bounds cfg h on = unfold anomaly_issues concat issue_if in ground arith

health_issues-bounds :
    (cfg : Config)
    → health_issues cfg.upstream_health ≡ []
    → IsOnlyWith cfg.upstream_health.enabled (
        is_positive cfg.upstream_health.interval
        && is_positive cfg.upstream_health.timeout
        && is_positive cfg.upstream_health.failures)
health_issues-bounds cfg h on = unfold health_issues concat issue_if in ground arith

module _ (net : Net) (dns : Dns) where
  address_issue-IsAddress :
      (f : Field) (value : Str) → address_issue net f value false ≡ [] → IsAddress net value
  address_issue-IsAddress f value h = (validate_network_address-eq-none_iff net value).0 (
      issue_of-eq-nil address_error f (validate_network_address net value false)
        (unfold address_issue in h))

  each-IsAddress :
      (name : ℕ → Field) (values : List Str)
      → each (λ i value. address_issue net (name i) value false) 0 values ≡ []
      → All (IsAddress net) values
  each-IsAddress name values =
      each-eq-nil (IsAddress net) (λ i value. address_issue net (name i) value false) 0 values
        (λ i value. address_issue-IsAddress (name i) value)

  abbrev pub IsForward : ConditionalForward → Type 0
  IsForward rule =
      (valid_dns_name dns rule.suffix ≡ true)
      × (is_empty_list rule.upstreams ≡ false)
      × All (IsAddress net) rule.upstreams

  forward_issues-IsForward :
      (i : ℕ) (rule : ConditionalForward) → forward_issues net dns i rule ≡ [] → IsForward rule
  unfolding forward_issues
  forward_issues-IsForward i rule h =
      let (suffix, (upstream, (addresses, done))) = concat-eq-nil _ h in
      (
        ground (arith, issue_if-eq-nil _ _ _ suffix),
        issue_if-eq-nil _ _ _ upstream,
        each-IsAddress _ rule.upstreams addresses,
      )

  module _ (urls : Urls) where
    abbrev pub IsAcceptable : Config → Type 0
    IsAcceptable cfg =
        HasBounds cfg
        × ((is_empty_list cfg.upstreams && is_empty_list cfg.upstream_endpoints) ≡ true
            → cfg.resolver_disabled ≡ true)
        × All (IsAddress net) cfg.upstreams
        × All (λ rec. validate_record net dns rec ≡ none) cfg.records
        × All IsForward cfg.conditional_forward
        × All IsGoodUser cfg.auth.users
        × HasDistinctNames cfg.auth.users

    upstream_issues-parts :
        (cfg : Config)
        → upstream_issues net dns urls cfg ≡ []
        → ((is_empty_list cfg.upstreams && is_empty_list cfg.upstream_endpoints) ≡ true
            → cfg.resolver_disabled ≡ true)
          × All (IsAddress net) cfg.upstreams
          × All (λ rec. validate_record net dns rec ≡ none) cfg.records
    unfolding upstream_issues
    upstream_issues-parts cfg h =
        let (needed, (addresses, (endpoints, (disabled, (records, done))))) = concat-eq-nil _ h in
        (
          λ none_left. ground (arith, issue_if-eq-nil _ _ _ needed),
          each-IsAddress _ cfg.upstreams addresses,
          each-eq-nil _ _ 0 cfg.records (λ i rec. issue_of-eq-nil record_error _ _) records,
        )

    override_issues-forwards :
        (cfg : Config) → override_issues net dns cfg ≡ [] → All IsForward cfg.conditional_forward
    unfolding override_issues
    override_issues-forwards cfg h =
        let (direct, (forwards, (v4, (v6, done)))) = concat-eq-nil _ h in
        each-eq-nil _ _ 0 cfg.conditional_forward forward_issues-IsForward forwards

    -- A configuration that `validateConfig` accepts has the bounds of `HasBounds` (a cache of at most
    -- 1000000 entries and seven days, a log of at most 8760 hours, and positive numbers for each of
    -- the cache, the query log, the rate limit, anomalies and health checks that is on), an upstream or endpoint unless the resolver is disabled, upstreams with a
    -- host and a port from 1 to 65535, records that `validateRecord` accepts, conditional rules with
    -- a name and upstreams, and users that are well formed with names that differ in more than case.
    pub validate_config-IsAcceptable :
        (cfg : Config) → validate_config net dns urls cfg ≡ [] → IsAcceptable cfg
    unfolding validate_config
    validate_config-IsAcceptable cfg h =
        let (
          listen,
          (
            upstream,
            (cache, (log, (portal, (limit, (anomaly, (health, (override, (users, done)))))))),
          ),
        ) =
          concat-eq-nil _ h in
        let (needed, addresses, records) = upstream_issues-parts cfg upstream in
        let (size, ttl, on) = cache_issues-bounds cfg cache in
        let (good, distinct) = (user_issues-eq-nil_iff cfg.auth.users).0 users in
        let (retention, logging) = log_issues-bounds cfg log in
        (
          (
            size,
            ttl,
            retention,
            on,
            logging,
            rate_limit_issues-bounds cfg limit,
            anomaly_issues-bounds cfg anomaly,
            health_issues-bounds cfg health,
          ),
          needed,
          addresses,
          records,
          override_issues-forwards cfg override,
          good,
          distinct,
        )
