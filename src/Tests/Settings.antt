-- ===== src/Tests/Settings.antt =====
-- Changes of the settings and of the upstreams on concrete inputs.
use moreno_dnsleaf.Prelude.{arith, true, false, [], ◌∷◌, none, some, ◌≡◌, refl, All}
use moreno_dnsleaf.Prelude.Int.{pos, negsuc}
use moreno_dnsleaf.Prelude.Text.{codes}
use moreno_dnsleaf.Prelude.Map.{map_program}
use moreno_dnsleaf.Deps.{Urls}
use moreno_dnsleaf.Config.{Config}
use moreno_dnsleaf.Validate.{validate_config, validate_program}
use moreno_dnsleaf.Profiles.{no_content, empty_profile}
use moreno_dnsleaf.Upstream.{targets_for}
use moreno_dnsleaf.Settings.{
  SettingsChange, shown_settings, handle_settings, put_body, settings_program,
}
use moreno_dnsleaf.Settings.Shown.{
  IsTidy, IsGap, other_values, optional_values, handle_settings-shown,
}
use moreno_dnsleaf.Settings.Upstreams.{
  NewUpstream, handle_upstreams, post_upstream, delete_upstream, upstreams_program,
}
use moreno_dnsleaf.Settings.Upstreams.Removed.{IsNew, added_address, handle_upstreams-post_delete}
use moreno_dnsleaf.Settings.Upstreams.Targets.{IsTarget, targets_for-IsTarget}
use moreno_dnsleaf.Tests.Samples.{
  sample_config, sample_limit, query_of, sample_net, sample_dns, sample_parts, sample_split,
}

-- Every URL is `tls://dns.org`.
abbrev tls_urls : Urls
tls_urls = record {
  parse = λ s. some (record {
    scheme = codes "tls";
    host = codes "dns.org";
    hostname = codes "dns.org";
    port = [];
    path = [];
    raw_query = [];
    fragment = [];
    has_user = false;
  });
  to_string = λ u. u.host;
}

abbrev tls_upstream : NewUpstream
tls_upstream = record { address = codes " dns.org "; protocol = codes "TLS"; server_name = [] }

tls_upstream-IsNew : IsNew (added_address tls_upstream) sample_config
unfolding upstreams_program
tls_upstream-IsNew = (refl, refl, refl)

handle_upstreams-post_delete_example :
    handle_upstreams sample_net sample_dns tls_urls
      (delete_upstream (some (added_address tls_upstream)))
      (handle_upstreams sample_net sample_dns tls_urls
        (post_upstream (some tls_upstream))
        sample_config).0
    ≡ (sample_config, no_content)
handle_upstreams-post_delete_example =
    handle_upstreams-post_delete sample_net sample_dns tls_urls tls_upstream sample_config
      tls_upstream-IsNew

-- The endpoint is accepted.
abbrev endpoint_config : Config
endpoint_config = record sample_config {
  upstream_endpoints = record { url = codes "TLS://dns.org"; server_name = [] } ∷ [];
}

add_tls_upstream :
    (handle_upstreams sample_net sample_dns tls_urls
      (post_upstream (some tls_upstream))
      sample_config).0
    ≡ record sample_config {
      upstream_endpoints = record { url = codes "tls://dns.org"; server_name = [] } ∷ [];
    }
unfolding upstreams_program sample_parts sample_split
add_tls_upstream = refl

endpoint_issues : validate_config sample_net sample_dns tls_urls endpoint_config ≡ []
unfolding validate_program sample_parts sample_split
endpoint_issues = refl

targets_for-IsTarget_example :
    All
      (IsTarget sample_net sample_dns tls_urls)
      (targets_for endpoint_config [] (query_of 1 (codes "a.org")))
targets_for-IsTarget_example =
    targets_for-IsTarget sample_net sample_dns tls_urls endpoint_config []
      (query_of 1 (codes "a.org")) endpoint_issues

-- A change that leaves out what it may leave out.
abbrev gap : SettingsChange
gap = record {
  listen = codes " ";
  http = [];
  cache = true;
  cache_size = negsuc 4;
  cache_ttl = pos 0;
  blocklist = [];
  lan_only = false;
  whitelist_only = false;
  resolver_disabled = false;
  whitelist = codes " 10.0.0.2" ∷ codes "  " ∷ [];
  direct_override = false;
  direct_override_to = [];
  troll_mode = true;
  troll_hosts = [];
  troll_ipv4 = [];
  troll_ipv6 = [];
  http_proxy_enabled = false;
  http_proxy = [];
  socks_proxy_enabled = false;
  socks_proxy = [];
  https = [];
  tls_cert = [];
  tls_key = [];
  portal_host = [];
  portal_ip = [];
  dot = [];
  dhcp_leases_file = [];
  client_profiles = none;
  default_profile = [];
  profiles = none;
  scheduled_rules = none;
  rate_limit = record sample_limit { queries = pos 0 };
  anomaly = record { enabled = false; hits = pos 0; window = pos 0 };
  conditional_forward = none;
  upstream_health = record { enabled = false; interval = pos 0; timeout = pos 0; failures = pos 0 };
}

-- A change that gives every value.
abbrev change : SettingsChange
change = record gap {
  listen = codes ":53";
  http = codes ":80";
  portal_host = codes "dns.leaf";
  portal_ip = codes "10.0.0.1";
  cache_size = pos 10;
  cache_ttl = pos 30;
  whitelist = codes "10.0.0.2" ∷ [];
  troll_hosts = codes "leaf.org" ∷ [];
  default_profile = codes "off";
  client_profiles = some ((codes "10.0.0.2", codes "off") ∷ []);
  scheduled_rules = some [];
  conditional_forward = some [];
  profiles = some ((codes "off", empty_profile true) ∷ (codes "default", empty_profile false) ∷ []);
  rate_limit = sample_limit;
  anomaly = record { enabled = true; hits = pos 5; window = pos 60 };
  upstream_health = record {
    enabled = true;
    interval = pos 30;
    timeout = pos 900;
    failures = pos 3;
  };
}

gap-IsGap : IsGap gap
unfolding settings_program
gap-IsGap = record {
  listen = refl;
  http = refl;
  portal_host = refl;
  portal_ip = refl;
  cache_size = refl;
  cache_ttl = refl;
  queries = refl;
  hits = refl;
  interval = refl;
  client_profiles = refl;
  scheduled_rules = refl;
  conditional_forward = refl;
}

change-IsTidy : IsTidy change
unfolding settings_program map_program
change-IsTidy = record {
  listen = (refl, refl);
  http = (refl, refl);
  portal_host = (refl, refl);
  portal_ip = (refl, refl);
  default_profile = (refl, refl);
  https = refl;
  dot = refl;
  tls_cert = refl;
  tls_key = refl;
  blocklist = refl;
  dhcp_leases_file = refl;
  direct_override_to = refl;
  http_proxy = refl;
  socks_proxy = refl;
  whitelist = ((refl, refl), tt);
  troll_hosts = ((refl, refl), tt);
  some_host = λ h. absurd (ground arith);
  troll_ipv4 = tt;
  troll_ipv6 = tt;
  cache_size = refl;
  cache_ttl = refl;
  queries = refl;
  hits = refl;
  interval = refl;
  client_profiles = refl;
  scheduled_rules = refl;
  conditional_forward = refl;
  profiles = refl;
  default_is_there = refl;
  off_is_there = refl;
}

handle_settings-shown_example :
    (shown_settings (handle_settings (put_body (some change)) sample_config).0 ≡ change)
    × (other_values (handle_settings (put_body (some change)) sample_config).0
        ≡ other_values sample_config)
    × (optional_values (handle_settings (put_body (some gap)) sample_config).0
        ≡ optional_values sample_config)
handle_settings-shown_example =
    handle_settings-shown change gap sample_config change-IsTidy gap-IsGap
