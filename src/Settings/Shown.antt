-- ===== src/Settings/Shown.antt =====
-- What `handleSettings` of settings_api.go shows after a change.
use moreno_dnsleaf.Prelude.{
  true, false, List, [], ◌∷◌, Option, none, some, if◌then◌else◌, is_some, All, ◌≡◌, refl, ap, ◌∙◌,
  arith,
}
use moreno_dnsleaf.Prelude.Int.{ℤ, pos, ltb_ℤ}
use moreno_dnsleaf.Prelude.Map.{Map, get}
use moreno_dnsleaf.Prelude.Text.{Str, codes, is_empty, trim_space}
use moreno_dnsleaf.Config.{
  Config, ClientProfile, RateLimitConfig, AnomalyConfig, UpstreamHealthConfig, ScheduledRule,
  ConditionalForward,
}
use moreno_dnsleaf.Profiles.{empty_profile, put_missing, map_or_new, ensure_builtin_profiles}
use moreno_dnsleaf.Settings.{
  SettingsChange, new_text, if_positive, given_or, given_map, hosts_or_default, clean_string_list,
  put_settings, handle_settings, put_body, shown_settings,
}
use moreno_dnsleaf.Settings.Builtins.{put_missing_present, with_builtins}

-- A text with no space around it, and one that is not empty either.
abbrev pub IsTrimmed : Str → Type 0
IsTrimmed s = trim_space s ≡ s

abbrev pub IsText : Str → Type 0
IsText s = IsTrimmed s × (is_empty s ≡ false)

abbrev pub IsPositive : ℤ → Type 0
IsPositive n = ltb_ℤ (pos 0) n ≡ true

-- A change that gives each value, in the form in which it is stored.
pub record IsTidy (body : SettingsChange) : Type 0 where
  pub listen : IsText body.listen
  pub http : IsText body.http
  pub portal_host : IsText body.portal_host
  pub portal_ip : IsText body.portal_ip
  pub default_profile : IsText body.default_profile
  pub https : IsTrimmed body.https
  pub dot : IsTrimmed body.dot
  pub tls_cert : IsTrimmed body.tls_cert
  pub tls_key : IsTrimmed body.tls_key
  pub blocklist : IsTrimmed body.blocklist
  pub dhcp_leases_file : IsTrimmed body.dhcp_leases_file
  pub direct_override_to : IsTrimmed body.direct_override_to
  pub http_proxy : IsTrimmed body.http_proxy
  pub socks_proxy : IsTrimmed body.socks_proxy
  pub whitelist : All IsText body.whitelist
  pub troll_hosts : All IsText body.troll_hosts
  pub some_host : (body.troll_hosts ≡ []) → ⊥
  pub troll_ipv4 : All IsText body.troll_ipv4
  pub troll_ipv6 : All IsText body.troll_ipv6
  pub cache_size : IsPositive body.cache_size
  pub cache_ttl : IsPositive body.cache_ttl
  pub queries : IsPositive body.rate_limit.queries
  pub hits : IsPositive body.anomaly.hits
  pub interval : IsPositive body.upstream_health.interval
  pub client_profiles : is_some body.client_profiles ≡ true
  pub scheduled_rules : is_some body.scheduled_rules ≡ true
  pub conditional_forward : is_some body.conditional_forward ≡ true
  pub profiles : is_some body.profiles ≡ true
  pub default_is_there : is_some (get (codes "default") (map_or_new body.profiles)) ≡ true
  pub off_is_there : is_some (get (codes "off") (map_or_new body.profiles)) ≡ true

new_text_given : (s old : Str) → IsText s → new_text s old ≡ s
unfolding new_text
new_text_given s old (trimmed, some_text) = rw (trimmed, some_text) refl

named_given :
    (s old : Str)
    → IsText s
    → (if is_empty (trim_space (new_text s old)) then codes "default" else new_text s old) ≡ s
named_given s old h = rw (new_text_given s old h, h.0, h.1) refl

clean_string_list_given : (items : List Str) → All IsText items → clean_string_list items ≡ items
unfolding clean_string_list
clean_string_list_given [] h = refl
clean_string_list_given (item ∷ items) ((trimmed, some_text), rest) =
    rw (trimmed, some_text, clean_string_list_given items rest) refl

hosts_given :
    (hosts : List Str)
    → All IsText hosts
    → ((hosts ≡ []) → ⊥)
    → hosts_or_default (clean_string_list hosts) ≡ hosts
hosts_given [] h k = absurd (k refl)
hosts_given (host ∷ hosts) h k = ap hosts_or_default (clean_string_list_given (host ∷ hosts) h)

given_positive {ℓ} : {A : Type ℓ} (n : ℤ) (new old : A) → IsPositive n → if_positive n new old ≡ new
given_positive n new old h = rw h refl

given_back {ℓ} :
    {A : Type ℓ} (o : Option A) (old : A) → is_some o ≡ true → some (given_or o old) ≡ o
given_back none old h = absurd (ground arith)
given_back (some new) old h = refl

profiles_given :
    (o old : Option (Map ClientProfile))
    → is_some o ≡ true
    → is_some (get (codes "default") (map_or_new o)) ≡ true
    → is_some (get (codes "off") (map_or_new o)) ≡ true
    → some (with_builtins (map_or_new (given_map o old))) ≡ o
profiles_given none old h d f = absurd (ground arith)
profiles_given (some m) old h d f = ap some (
    ap (put_missing (codes "off") (empty_profile true))
      (put_missing_present (codes "default") (empty_profile false) m d)
    ∙ put_missing_present (codes "off") (empty_profile true) m f)

-- What a change of the settings leaves alone.
abbrev pub other_values : Config → Config
other_values cfg = record cfg {
  listen = [];
  http = [];
  https = [];
  tls_cert = [];
  tls_key = [];
  portal_host = [];
  portal_ip = [];
  blocklist = [];
  cache = false;
  cache_size = pos 0;
  cache_ttl = pos 0;
  lan_only = false;
  whitelist_only = false;
  resolver_disabled = false;
  whitelist = [];
  direct_override = false;
  direct_override_to = [];
  troll_mode = false;
  troll_hosts = [];
  troll_ipv4 = [];
  troll_ipv6 = [];
  http_proxy_enabled = false;
  http_proxy = [];
  socks_proxy_enabled = false;
  socks_proxy = [];
  client_profiles = [];
  default_profile = [];
  profiles = none;
  scheduled_rules = [];
  dot = [];
  rate_limit = record { enabled = false; queries = pos 0; window = pos 0; action = [] };
  anomaly = record { enabled = false; hits = pos 0; window = pos 0 };
  conditional_forward = [];
  dhcp_leases_file = [];
  upstream_health = record { enabled = false; interval = pos 0; timeout = pos 0; failures = pos 0 };
}

-- A change that gives none of the values that a PUT may leave out.
pub record IsGap (body : SettingsChange) : Type 0 where
  pub listen : is_empty (trim_space body.listen) ≡ true
  pub http : is_empty (trim_space body.http) ≡ true
  pub portal_host : is_empty (trim_space body.portal_host) ≡ true
  pub portal_ip : is_empty (trim_space body.portal_ip) ≡ true
  pub cache_size : ltb_ℤ (pos 0) body.cache_size ≡ false
  pub cache_ttl : ltb_ℤ (pos 0) body.cache_ttl ≡ false
  pub queries : ltb_ℤ (pos 0) body.rate_limit.queries ≡ false
  pub hits : ltb_ℤ (pos 0) body.anomaly.hits ≡ false
  pub interval : ltb_ℤ (pos 0) body.upstream_health.interval ≡ false
  pub client_profiles : body.client_profiles ≡ none
  pub scheduled_rules : body.scheduled_rules ≡ none
  pub conditional_forward : body.conditional_forward ≡ none

-- The values that a PUT may leave out, except those of the profiles.
abbrev pub optional_values :
    Config
    → (Str × Str × Str × Str)
      × (ℤ × ℤ × RateLimitConfig × AnomalyConfig × UpstreamHealthConfig)
      × (Map Str × List ScheduledRule × List ConditionalForward)
optional_values cfg = (
  (cfg.listen, cfg.http, cfg.portal_host, cfg.portal_ip),
  (cfg.cache_size, cfg.cache_ttl, cfg.rate_limit, cfg.anomaly, cfg.upstream_health),
  (cfg.client_profiles, cfg.scheduled_rules, cfg.conditional_forward),
)

put_settings-gap :
    (gap : SettingsChange) (cfg : Config)
    → IsGap gap
    → optional_values (put_settings gap cfg) ≡ optional_values cfg
unfolding put_settings ensure_builtin_profiles new_text
put_settings-gap gap cfg h =
    rw
      (
        h.listen, h.http, h.portal_host, h.portal_ip, h.cache_size, h.cache_ttl, h.queries, h.hits,
        h.interval, h.client_profiles, h.scheduled_rules, h.conditional_forward,
      )
      refl

-- After a PUT that gives every value in the form in which it is stored (texts without space around
-- them, and not empty where an empty one is ignored; positive numbers; both built-in profiles), GET
-- shows exactly the values of the body, and all that a PUT does not set is as it was. A PUT that gives
-- blank texts, numbers that are not positive, and no lists or maps leaves the values that a PUT may
-- leave out, those of the profiles aside, as they were.
pub handle_settings-shown :
    (body gap : SettingsChange) (cfg : Config)
    → IsTidy body
    → IsGap gap
    → (shown_settings (handle_settings (put_body (some body)) cfg).0 ≡ body)
      × (other_values (handle_settings (put_body (some body)) cfg).0 ≡ other_values cfg)
      × (optional_values (handle_settings (put_body (some gap)) cfg).0 ≡ optional_values cfg)
unfolding handle_settings put_settings ensure_builtin_profiles
handle_settings-shown body gap cfg h left_out = (
  rw
      (
        new_text_given body.listen cfg.listen h.listen,
        new_text_given body.http cfg.http h.http,
        new_text_given body.portal_host cfg.portal_host h.portal_host,
        new_text_given body.portal_ip cfg.portal_ip h.portal_ip,
        named_given body.default_profile cfg.default_profile h.default_profile,
        h.https,
        h.dot,
        h.tls_cert,
        h.tls_key,
        h.blocklist,
        h.dhcp_leases_file,
        h.direct_override_to,
        h.http_proxy,
        h.socks_proxy,
        clean_string_list_given body.whitelist h.whitelist,
        hosts_given body.troll_hosts h.troll_hosts h.some_host,
        clean_string_list_given body.troll_ipv4 h.troll_ipv4,
        clean_string_list_given body.troll_ipv6 h.troll_ipv6,
        given_positive body.cache_size body.cache_size cfg.cache_size h.cache_size,
        given_positive body.cache_ttl body.cache_ttl cfg.cache_ttl h.cache_ttl,
        given_positive body.rate_limit.queries body.rate_limit cfg.rate_limit h.queries,
        given_positive body.anomaly.hits body.anomaly cfg.anomaly h.hits,
        given_positive body.upstream_health.interval body.upstream_health cfg.upstream_health
            h.interval,
        given_back body.client_profiles cfg.client_profiles h.client_profiles,
        given_back body.scheduled_rules cfg.scheduled_rules h.scheduled_rules,
        given_back body.conditional_forward cfg.conditional_forward h.conditional_forward,
        profiles_given body.profiles cfg.profiles h.profiles h.default_is_there h.off_is_there,
      )
      refl,
  refl,
  unfold put_settings in put_settings-gap gap cfg left_out,
)
