-- ===== src/Config.antt =====
-- The configuration types of main.go. A slice is a list and a map an association list; `profiles`
-- is `none` where the map is nil, which the program tells from an empty one. `int` is ℤ.
use moreno_dnsleaf.Prelude.{ℕ, Bool, List, Option}
use moreno_dnsleaf.Prelude.Int.{ℤ}
use moreno_dnsleaf.Prelude.Text.{Str}
use moreno_dnsleaf.Prelude.Map.{Map}

pub record Record : Type 0 where
  pub host : Str
  pub record_type : Str
  pub value : Str
  pub ip : Str
  pub note : Str
  pub priority : ℕ
  pub weight : ℕ
  pub port : ℕ

pub record BlocklistSource : Type 0 where
  pub name : Str
  pub source : Str
  pub enabled : Bool
  pub allowlist : List Str
  pub groups : List Str
  pub last_loaded : ℕ
  pub last_error : Str
  pub last_checked : Str
  pub last_refreshed : Str
  pub cache_age : ℤ

pub record UpstreamEndpoint : Type 0 where
  pub url : Str
  pub server_name : Str

pub record BlockGroup : Type 0 where
  pub name : Str
  pub domains : List Str
  pub sources : List Str

pub record ClientProfile : Type 0 where
  pub disabled : Bool
  pub disable_blocking : Bool
  pub safe_search : Bool
  pub blocklists : List Str
  pub blocked : List Str
  pub allowed : List Str

pub record ScheduledRule : Type 0 where
  pub domain : Str
  pub action : Str
  pub start : Str
  pub end : Str
  pub days : List Str
  pub enabled : Bool

pub record RateLimitConfig : Type 0 where
  pub enabled : Bool
  pub queries : ℤ
  pub window : ℤ
  pub action : Str

pub record AnomalyConfig : Type 0 where
  pub enabled : Bool
  pub hits : ℤ
  pub window : ℤ

pub record ConditionalForward : Type 0 where
  pub suffix : Str
  pub upstreams : List Str
  pub enabled : Bool

pub record UpstreamHealthConfig : Type 0 where
  pub enabled : Bool
  pub interval : ℤ
  pub timeout : ℤ
  pub failures : ℤ

pub record UserAuth : Type 0 where
  pub username : Str
  pub password_hash : Str
  pub role : Str
  pub created_at : Str

pub record AuthConfig : Type 0 where
  pub enabled : Bool
  pub users : List UserAuth

pub record Config : Type 0 where
  pub schema_version : ℤ
  pub listen : Str
  pub http : Str
  pub https : Str
  pub tls_cert : Str
  pub tls_key : Str
  pub upstreams : List Str
  pub disabled_upstreams : List Str
  pub records : List Record
  pub blocked : List Str
  pub blocked_ips : List Str
  pub allowed : List Str
  pub blocklist : Str
  pub blocklists : List BlocklistSource
  pub upstream_endpoints : List UpstreamEndpoint
  pub block_groups : List BlockGroup
  pub cache : Bool
  pub cache_size : ℤ
  pub cache_ttl : ℤ
  pub strip_ecs : Bool
  pub query_log_enabled : Bool
  pub query_log_retention : ℤ
  pub anonymize_client_ips : Bool
  pub portal_host : Str
  pub portal_ip : Str
  pub lan_only : Bool
  pub whitelist_only : Bool
  pub whitelist : List Str
  pub resolver_disabled : Bool
  pub client_names : Option (Map Str)
  pub client_profiles : Map Str
  pub default_profile : Str
  pub profiles : Option (Map ClientProfile)
  pub scheduled_rules : List ScheduledRule
  pub dot : Str
  pub rate_limit : RateLimitConfig
  pub anomaly : AnomalyConfig
  pub conditional_forward : List ConditionalForward
  pub dhcp_leases_file : Str
  pub upstream_health : UpstreamHealthConfig
  pub direct_override : Bool
  pub direct_override_to : Str
  pub troll_mode : Bool
  pub troll_hosts : List Str
  pub troll_ipv4 : List Str
  pub troll_ipv6 : List Str
  pub http_proxy_enabled : Bool
  pub http_proxy : Str
  pub socks_proxy_enabled : Bool
  pub socks_proxy : Str
  pub auth : AuthConfig
