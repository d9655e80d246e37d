-- ===== src/Validate.antt =====
-- `validateConfig` and `migrateConfig` of config.go: one function for each part of the list of issues,
-- in the order of the source. A message is text, or the error of a check.
pub mod Issues
pub mod Users
pub mod Accepted
pub mod Report
use moreno_dnsleaf.Prelude.{
  ℕ, suc, ◌+◌, Bool, true, false, not, ◌&&◌, ◌||◌, List, [], ◌∷◌, ◌++◌, Option, none, some,
  if◌then◌else◌, length,
}
use moreno_dnsleaf.Prelude.Int.{ℤ, pos, leb_ℤ, ltb_ℤ, int_program}
use moreno_dnsleaf.Prelude.Map.{Map, get, put, map_program}
use moreno_dnsleaf.Prelude.Text.{Str, codes, str_eq, is_empty, trim_space, to_lower}
use moreno_dnsleaf.Deps.{Net, Urls, Ip}
use moreno_dnsleaf.Messages.{Dns}
use moreno_dnsleaf.Config.{
  Config, ConditionalForward, RateLimitConfig, AnomalyConfig, UpstreamHealthConfig, UserAuth,
}
use moreno_dnsleaf.Blocking.{flag}
use moreno_dnsleaf.Checks.{
  AddressError, IpError, validate_network_address, valid_dns_name, normalize_ip_or_cidr, error_of,
}
use moreno_dnsleaf.Checks.Records.{RecordError, validate_record, is_ip_of, records_program}
use moreno_dnsleaf.Checks.Endpoints.{EndpointError, validate_upstream_endpoint, endpoints_program}
use moreno_dnsleaf.Auth.Users.{valid_username, is_role, users_program}
use moreno_dnsleaf.Validate.Report.{
  Field, Message, Issue, issue_if, issue_of, concat, each, is_blank, is_empty_list, is_none,
  is_positive, is_negative, current_config_schema, max_cache_entries, max_cache_ttl, address_issue,
  field, item, part_of, item_of, says, address_error, endpoint_error, record_error, ip_error,
}

unfoldable pub listener_issues : Net → Config → List Issue
listener_issues net cfg = concat (
    (issue_if
      (not (
        leb_ℤ cfg.schema_version current_config_schema
        && leb_ℤ current_config_schema cfg.schema_version))
      (field (codes "schema_version")) (codes "must be 1"))
    ∷ (address_issue net (field (codes "listen")) cfg.listen true)
    ∷ (address_issue net (field (codes "http")) cfg.http true)
    ∷ (issue_if (is_blank cfg.http) (field (codes "http")) (codes "is required"))
    ∷ (if is_blank cfg.https then [] else address_issue net (field (codes "https")) cfg.https true)
    ∷ (if is_blank cfg.dot then [] else address_issue net (field (codes "dot")) cfg.dot true)
    ∷ (issue_if
        ((not (is_blank cfg.https) || not (is_blank cfg.dot))
          && (is_blank cfg.tls_cert || is_blank cfg.tls_key))
        (field (codes "tls"))
        (codes "certificate and key paths are required when HTTPS or DoT is enabled"))
    ∷ [])

unfoldable pub upstream_issues : Net → Dns → Urls → Config → List Issue
upstream_issues net dns urls cfg = concat (
    (issue_if
      (is_empty_list cfg.upstreams
        && is_empty_list cfg.upstream_endpoints
        && not cfg.resolver_disabled)
      (field (codes "upstreams"))
      (codes
        "at least one upstream or upstream endpoint is required unless resolver_disabled is enabled"))
    ∷ (each (λ i upstream. address_issue net (item (codes "upstreams") i) upstream false) 0
        cfg.upstreams)
    ∷ (each
        (λ i endpoint.
          issue_of endpoint_error (item (codes "upstream_endpoints") i)
            (validate_upstream_endpoint net dns urls endpoint))
        0 cfg.upstream_endpoints)
    ∷ (each (λ i upstream. address_issue net (item (codes "disabled_upstreams") i) upstream false) 0
        cfg.disabled_upstreams)
    ∷ (each
        (λ i rec. issue_of record_error (item (codes "records") i) (validate_record net dns rec)) 0
        cfg.records)
    ∷ [])

unfoldable pub cache_issues : Config → List Issue
cache_issues cfg = concat (
    (issue_if (is_negative cfg.cache_size || ltb_ℤ max_cache_entries cfg.cache_size)
      (field (codes "cache_size")) (codes "must be between 0 and 1000000"))
    ∷ (issue_if (cfg.cache && not (is_positive cfg.cache_size && is_positive cfg.cache_ttl))
        (field (codes "cache"))
        (codes "cache_size and cache_ttl_seconds must be positive when caching is enabled"))
    ∷ (issue_if (is_negative cfg.cache_ttl || ltb_ℤ max_cache_ttl cfg.cache_ttl)
        (field (codes "cache_ttl_seconds")) (codes "must be between 0 and 604800"))
    ∷ [])

unfoldable pub log_issues : Config → List Issue
log_issues cfg = concat (
    (issue_if (is_negative cfg.query_log_retention || ltb_ℤ (pos 8760) cfg.query_log_retention)
      (field (codes "query_log_retention_hours")) (codes "must be between 0 and 8760"))
    ∷ (issue_if (cfg.query_log_enabled && not (is_positive cfg.query_log_retention))
        (field (codes "query_log_retention_hours"))
        (codes "must be positive when query logging is enabled"))
    ∷ [])

unfoldable pub portal_issues : Net → Dns → Config → List Issue
portal_issues net dns cfg = concat (
    (issue_if (not (valid_dns_name dns cfg.portal_host)) (field (codes "portal_host"))
      (codes "must be a valid DNS name"))
    ∷ (issue_if (is_none (net.parse_ip (trim_space cfg.portal_ip))) (field (codes "portal_ip"))
        (codes "must be a valid IP address"))
    ∷ (each
        (λ i x.
          issue_of ip_error (item (codes "whitelist") i) (error_of (normalize_ip_or_cidr net x)))
        0 cfg.whitelist)
    ∷ (each
        (λ i x.
          issue_of ip_error (item (codes "blocked_ips") i) (error_of (normalize_ip_or_cidr net x)))
        0 cfg.blocked_ips)
    ∷ [])

unfoldable pub rate_limit_issues : RateLimitConfig → List Issue
rate_limit_issues limit =
    let action = to_lower (trim_space limit.action) in
    concat (
      (issue_if (is_negative limit.queries || is_negative limit.window) (field (codes "rate_limit"))
        (codes "queries and window_seconds cannot be negative"))
      ∷ (issue_if (limit.enabled && not (is_positive limit.queries && is_positive limit.window))
          (field (codes "rate_limit"))
          (codes "queries and window_seconds must be positive when enabled"))
      ∷ (issue_if
          (not
            (is_empty action || str_eq action (codes "nxdomain") || str_eq action (codes "drop")))
          (field (codes "rate_limit.action")) (codes "must be nxdomain or drop"))
      ∷ [])

unfoldable pub anomaly_issues : AnomalyConfig → List Issue
anomaly_issues anomaly = concat (
    (issue_if (is_negative anomaly.hits || is_negative anomaly.window) (field (codes "anomaly"))
      (codes "hits and window_seconds cannot be negative"))
    ∷ (issue_if (anomaly.enabled && not (is_positive anomaly.hits && is_positive anomaly.window))
        (field (codes "anomaly")) (codes "hits and window_seconds must be positive when enabled"))
    ∷ [])

unfoldable pub health_issues : UpstreamHealthConfig → List Issue
health_issues health = concat (
    (issue_if
      (is_negative health.interval || is_negative health.timeout || is_negative health.failures)
      (field (codes "upstream_health"))
      (codes "interval, timeout, and failures cannot be negative"))
    ∷ (issue_if
        (health.enabled
          && not (
              is_positive health.interval
              && is_positive health.timeout
              && is_positive health.failures))
        (field (codes "upstream_health"))
        (codes "interval, timeout, and failures must be positive when enabled"))
    ∷ [])

unfoldable pub forward_issues : Net → Dns → ℕ → ConditionalForward → List Issue
forward_issues net dns i rule = concat (
    (issue_if (not (valid_dns_name dns rule.suffix))
      (part_of (codes "conditional_forwarding") i (codes "suffix"))
      (codes "must be a valid DNS name"))
    ∷ (issue_if (is_empty_list rule.upstreams)
        (part_of (codes "conditional_forwarding") i (codes "upstreams"))
        (codes "must not be empty"))
    ∷ (each
        (λ j upstream.
          address_issue net (item_of (codes "conditional_forwarding") i (codes "upstreams") j)
            upstream false)
        0 rule.upstreams)
    ∷ [])

unfoldable pub override_issues : Net → Dns → Config → List Issue
override_issues net dns cfg = concat (
    (issue_if
      (not (is_empty cfg.direct_override_to) && not (valid_dns_name dns cfg.direct_override_to))
      (field (codes "direct_override_to")) (codes "must be a valid DNS name"))
    ∷ (each (forward_issues net dns) 0 cfg.conditional_forward)
    ∷ (each
        (λ i x.
          issue_if (not (is_ip_of net true (net.parse_ip (trim_space x))))
            (item (codes "troll_ipv4") i) (codes "must be an IPv4 address"))
        0 cfg.troll_ipv4)
    ∷ (each
        (λ i x.
          issue_if (not (is_ip_of net false (net.parse_ip (trim_space x))))
            (item (codes "troll_ipv6") i) (codes "must be an IPv6 address"))
        0 cfg.troll_ipv6)
    ∷ [])

-- The issues of one user, with the names that the loop has seen.
unfoldable pub user_issues_at : Map Bool → ℕ → UserAuth → List Issue
user_issues_at seen i user = concat (
    (issue_if (not (valid_username user.username))
      (part_of (codes "auth.users") i (codes "username")) (codes "is invalid"))
    ∷ (issue_if (flag (to_lower user.username) seen)
        (part_of (codes "auth.users") i (codes "username")) (codes "is duplicated"))
    ∷ (issue_if (not (is_role user.role)) (part_of (codes "auth.users") i (codes "role"))
        (codes "must be admin or viewer"))
    ∷ (issue_if (is_blank user.password_hash)
        (part_of (codes "auth.users") i (codes "password_hash")) (codes "is required"))
    ∷ [])

unfoldable pub user_issues : Map Bool → ℕ → List UserAuth → List Issue
user_issues seen i [] = []
user_issues seen i (user ∷ users) =
    user_issues_at seen i user ++ user_issues (put (to_lower user.username) true seen) (suc i) users

-- `validateConfig`; the empty list is `nil`.
unfoldable pub validate_config : Net → Dns → Urls → Config → List Issue
validate_config net dns urls cfg = concat (
    (listener_issues net cfg)
    ∷ (upstream_issues net dns urls cfg)
    ∷ (cache_issues cfg)
    ∷ (log_issues cfg)
    ∷ (portal_issues net dns cfg)
    ∷ (rate_limit_issues cfg.rate_limit)
    ∷ (anomaly_issues cfg.anomaly)
    ∷ (health_issues cfg.upstream_health)
    ∷ (override_issues net dns cfg)
    ∷ (user_issues [] 0 cfg.auth.users)
    ∷ [])

-- `migrateConfig`, with `none` for a schema that is too new.
unfoldable pub migrate_config : Config → Option Config
migrate_config cfg =
    if ltb_ℤ current_config_schema cfg.schema_version
    then none
    else if leb_ℤ cfg.schema_version (pos 0) && leb_ℤ (pos 0) cfg.schema_version
    then some (record cfg { schema_version = current_config_schema })
    else some cfg

-- For tests: all that a run of these functions computes with.
unfoldable pub validate_program : Unit {0}
unfolding records_program endpoints_program users_program map_program flag concat issue_if issue_of
    each address_issue listener_issues upstream_issues cache_issues log_issues portal_issues
    rate_limit_issues anomaly_issues health_issues forward_issues override_issues user_issues_at
    user_issues validate_config migrate_config
validate_program = tt
