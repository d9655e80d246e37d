-- ===== src/Settings.antt =====
-- `handleSettings` and `cleanStringList` of settings_api.go. A decoded body is an argument, `none` where
-- it is not JSON; a list or map of the body that may be nil is an `Option`. The answer to GET is
-- modelled as far as it shows what a PUT sets; the answer to PUT, the configuration, is left out.
pub mod Builtins
pub mod Shown
pub mod Upstreams
use moreno_dnsleaf.Prelude.{
  Bool, true, false, not, List, [], ◌∷◌, Option, none, some, if◌then◌else◌,
}
use moreno_dnsleaf.Prelude.Int.{ℤ, pos, ltb_ℤ, int_program}
use moreno_dnsleaf.Prelude.Map.{Map}
use moreno_dnsleaf.Prelude.Text.{Str, codes, is_empty, trim_space, text_program}
use moreno_dnsleaf.Config.{
  Config, ClientProfile, ScheduledRule, RateLimitConfig, AnomalyConfig, ConditionalForward,
  UpstreamHealthConfig,
}
use moreno_dnsleaf.Profiles.{Answer, done, failed, ensure_builtin_profiles, profiles_program}

-- The body of a PUT.
pub record SettingsChange : Type 0 where
  pub listen : Str
  pub http : Str
  pub cache : Bool
  pub cache_size : ℤ
  pub cache_ttl : ℤ
  pub blocklist : Str
  pub lan_only : Bool
  pub whitelist_only : Bool
  pub resolver_disabled : Bool
  pub whitelist : List Str
  pub direct_override : Bool
  pub direct_override_to : Str
  pub troll_mode : Bool
  pub troll_hosts : List Str
  pub troll_ipv4 : List Str
  pub troll_ipv6 : List Str
  pub http_proxy_enabled : Bool
  pub http_proxy : Str
  pub socks_proxy_enabled : Bool
  pub socks_proxy : Str
  pub https : Str
  pub tls_cert : Str
  pub tls_key : Str
  pub portal_host : Str
  pub portal_ip : Str
  pub dot : Str
  pub dhcp_leases_file : Str
  pub client_profiles : Option (Map Str)
  pub default_profile : Str
  pub profiles : Option (Map ClientProfile)
  pub scheduled_rules : Option (List ScheduledRule)
  pub rate_limit : RateLimitConfig
  pub anomaly : AnomalyConfig
  pub conditional_forward : Option (List ConditionalForward)
  pub upstream_health : UpstreamHealthConfig

unfoldable pub clean_string_list : List Str → List Str
clean_string_list [] = []
clean_string_list (item ∷ items) =
    let rest = clean_string_list items in
    if is_empty (trim_space item) then rest else trim_space item ∷ rest

abbrev pub default_troll_hosts : List Str
default_troll_hosts =
    codes "4chan.org"
    ∷ codes "neopets.com"
    ∷ codes "homestarrunner.com"
    ∷ codes "theonion.com"
    ∷ codes "archive.org"
    ∷ codes "wikipedia.org"
    ∷ []

abbrev pub hosts_or_default : List Str → List Str
hosts_or_default [] = default_troll_hosts
hosts_or_default (host ∷ hosts) = host ∷ hosts

-- A text that is kept where the new one is blank, a number where the new one is not positive, and a
-- value where the new one is nil.
unfoldable pub new_text : Str → Str → Str
new_text s old = if is_empty (trim_space s) then old else trim_space s

abbrev pub if_positive {ℓ} : {A : Type ℓ} → ℤ → A → A → A
if_positive n new old = if ltb_ℤ (pos 0) n then new else old

abbrev pub given_or {ℓ} : {A : Type ℓ} → Option A → A → A
given_or none old = old
given_or (some new) old = new

abbrev pub given_map :
    Option (Map ClientProfile) → Option (Map ClientProfile) → Option (Map ClientProfile)
given_map none old = old
given_map (some new) old = some new

unfoldable pub put_settings : SettingsChange → Config → Config
put_settings body cfg = ensure_builtin_profiles (record cfg {
  listen = new_text body.listen cfg.listen;
  http = new_text body.http cfg.http;
  https = trim_space body.https;
  dot = trim_space body.dot;
  tls_cert = trim_space body.tls_cert;
  tls_key = trim_space body.tls_key;
  portal_host = new_text body.portal_host cfg.portal_host;
  portal_ip = new_text body.portal_ip cfg.portal_ip;
  cache = body.cache;
  cache_size = if_positive body.cache_size body.cache_size cfg.cache_size;
  cache_ttl = if_positive body.cache_ttl body.cache_ttl cfg.cache_ttl;
  blocklist = trim_space body.blocklist;
  dhcp_leases_file = trim_space body.dhcp_leases_file;
  client_profiles = given_or body.client_profiles cfg.client_profiles;
  default_profile = new_text body.default_profile cfg.default_profile;
  profiles = given_map body.profiles cfg.profiles;
  scheduled_rules = given_or body.scheduled_rules cfg.scheduled_rules;
  rate_limit = if_positive (body.rate_limit.queries) body.rate_limit cfg.rate_limit;
  anomaly = if_positive (body.anomaly.hits) body.anomaly cfg.anomaly;
  conditional_forward = given_or body.conditional_forward cfg.conditional_forward;
  upstream_health =
      if_positive (body.upstream_health.interval) body.upstream_health cfg.upstream_health;
  lan_only = body.lan_only;
  whitelist_only = body.whitelist_only;
  resolver_disabled = body.resolver_disabled;
  direct_override = body.direct_override;
  direct_override_to = trim_space body.direct_override_to;
  troll_mode = body.troll_mode;
  troll_hosts = hosts_or_default (clean_string_list body.troll_hosts);
  troll_ipv4 = clean_string_list body.troll_ipv4;
  troll_ipv6 = clean_string_list body.troll_ipv6;
  http_proxy_enabled = body.http_proxy_enabled;
  http_proxy = trim_space body.http_proxy;
  socks_proxy_enabled = body.socks_proxy_enabled;
  socks_proxy = trim_space body.socks_proxy;
  whitelist = clean_string_list body.whitelist;
})

-- What the answer to GET shows of the values that a PUT sets, as the body of a PUT.
abbrev pub shown_settings : Config → SettingsChange
shown_settings cfg = record {
  listen = cfg.listen;
  http = cfg.http;
  https = cfg.https;
  tls_cert = cfg.tls_cert;
  tls_key = cfg.tls_key;
  portal_host = cfg.portal_host;
  portal_ip = cfg.portal_ip;
  blocklist = cfg.blocklist;
  cache = cfg.cache;
  cache_size = cfg.cache_size;
  cache_ttl = cfg.cache_ttl;
  lan_only = cfg.lan_only;
  whitelist_only = cfg.whitelist_only;
  resolver_disabled = cfg.resolver_disabled;
  whitelist = cfg.whitelist;
  direct_override = cfg.direct_override;
  direct_override_to = cfg.direct_override_to;
  troll_mode = cfg.troll_mode;
  troll_hosts = cfg.troll_hosts;
  troll_ipv4 = cfg.troll_ipv4;
  troll_ipv6 = cfg.troll_ipv6;
  http_proxy_enabled = cfg.http_proxy_enabled;
  http_proxy = cfg.http_proxy;
  socks_proxy_enabled = cfg.socks_proxy_enabled;
  socks_proxy = cfg.socks_proxy;
  client_profiles = some cfg.client_profiles;
  default_profile = cfg.default_profile;
  profiles = cfg.profiles;
  scheduled_rules = some cfg.scheduled_rules;
  dot = cfg.dot;
  rate_limit = cfg.rate_limit;
  anomaly = cfg.anomaly;
  conditional_forward = some cfg.conditional_forward;
  dhcp_leases_file = cfg.dhcp_leases_file;
  upstream_health = cfg.upstream_health;
}

pub data SettingsRequest : Type 0 where
  get_settings : SettingsRequest
  put_body : Option SettingsChange → SettingsRequest
  other_settings_method : SettingsRequest

unfoldable pub handle_settings : SettingsRequest → Config → Config × Answer
handle_settings get_settings cfg = (cfg, done)
handle_settings (put_body none) cfg = (cfg, failed 400)
handle_settings (put_body (some body)) cfg = (put_settings body cfg, done)
handle_settings other_settings_method cfg = (cfg, failed 405)

-- For tests: all that a run of these functions computes with.
unfoldable pub settings_program : Unit {0}
unfolding text_program int_program profiles_program clean_string_list new_text put_settings
    handle_settings
settings_program = tt
