-- ===== src/Tests/Samples.antt =====
-- Sample libraries, configurations and messages.
use moreno_dnsleaf.Prelude.{
  ℕ, true, false, not, List, [], ◌∷◌, ◌++◌, Option, none, some, if◌then◌else◌, refl,
}
use moreno_dnsleaf.Prelude.Int.{pos}
use moreno_dnsleaf.Prelude.Text.{Str, codes, str_eq, has_prefix, contains, is_empty, split}
use moreno_dnsleaf.Deps.{Regex, Net}
use moreno_dnsleaf.Messages.{Msg, Question, Rr, Dns, IsDns, new_msg, type_a, class_inet, a}
use moreno_dnsleaf.Config.{Config, RateLimitConfig}
use moreno_dnsleaf.Blocking.{Blocking}
use moreno_dnsleaf.Schedule.{Clock}

-- A pattern matches the names that contain it.
abbrev pub sample_regex : Regex
sample_regex = record {
  Regexp = Str;
  compile = λ p. if is_empty p then none else some p;
  match_string = λ p n. contains p n;
}

-- A text with one colon is a host and a port.
unfoldable pub sample_parts : List Str → Option (Str × Str)
sample_parts (host ∷ port ∷ []) = some (host, port)
sample_parts parts = none

unfoldable pub sample_split : Str → Option (Str × Str)
sample_split s = sample_parts (split b':' s)

-- The addresses are the texts that start with a digit 1.
abbrev pub sample_net : Net
sample_net = record {
  Network = Str;
  parse_ip = λ s. if has_prefix (codes "1") s then some s else none;
  parse_cidr = λ s. none;
  network_contains = λ n ip. false;
  ip_equal = str_eq;
  ip_string = λ ip. ip;
  is_v4 = λ ip. true;
  is_private = λ ip. has_prefix (codes "10.") ip;
  is_loopback = λ ip. has_prefix (codes "127.") ip;
  is_link_local_unicast = λ ip. false;
  split_host_port = λ s. sample_split s;
  join_host_port = λ host port. host ++ codes ":" ++ port;
  parse_cidr_ip = λ s. none;
  with_masked_ip = λ ip n. n;
  network_string = λ n. n;
  to_4 = λ ip. some ip;
  to_16 = λ ip. ip;
}

abbrev pub sample_dns : Dns
sample_dns = record {
  set_reply = λ r. record new_msg { id = r.id; question = r.question };
  set_rcode = λ r code. record new_msg { id = r.id; question = r.question; rcode = code };
  fqdn = λ s. s;
  new_rr = λ s. none;
  is_edns0 = λ m. none;
  udp_size = λ rr. rr.hdr.class;
  edns_version = λ rr. 0;
  edns_do = λ rr. false;
  is_domain_name = λ s. not (is_empty s);
  set_options = λ m options. m;
}

pub sample_dns-IsDns : IsDns sample_dns
sample_dns-IsDns = record {
  reply_id = λ r. refl;
  reply_success = λ r. refl;
  reply_empty = λ r. refl;
  rcode_id = λ r code. refl;
  rcode_is = λ r code. refl;
  options_id = λ r options. refl;
  rcode_empty = λ r code. refl;
}

abbrev pub sample_limit : RateLimitConfig
sample_limit = record {
  enabled = true;
  queries = pos 2;
  window = pos 10;
  action = codes "nxdomain";
}

abbrev pub sample_config : Config
sample_config = record {
  schema_version = pos 1;
  listen = codes ":53";
  http = codes ":8080";
  https = [];
  tls_cert = [];
  tls_key = [];
  upstreams = codes "1.1.1.1:53" ∷ codes "1.0.0.1:53" ∷ [];
  disabled_upstreams = [];
  records = [];
  blocked = [];
  blocked_ips = codes "1.2.3.4" ∷ [];
  allowed = [];
  blocklist = [];
  blocklists = [];
  upstream_endpoints = [];
  block_groups = [];
  cache = true;
  cache_size = pos 2;
  cache_ttl = pos 60;
  strip_ecs = false;
  query_log_enabled = true;
  query_log_retention = pos 100;
  anonymize_client_ips = false;
  portal_host = codes "dns.leaf";
  portal_ip = codes "10.0.0.1";
  lan_only = true;
  whitelist_only = false;
  whitelist = [];
  resolver_disabled = false;
  client_names = none;
  client_profiles = [];
  default_profile = [];
  profiles = none;
  scheduled_rules = [];
  dot = [];
  rate_limit = sample_limit;
  anomaly = record { enabled = false; hits = pos 0; window = pos 0 };
  conditional_forward = [];
  dhcp_leases_file = [];
  upstream_health = record {
    enabled = true;
    interval = pos 30;
    timeout = pos 1200;
    failures = pos 3;
  };
  direct_override = false;
  direct_override_to = [];
  troll_mode = false;
  troll_hosts = [];
  troll_ipv4 = [];
  troll_ipv6 = [];
  http_proxy_enabled = false;
  http_proxy = [];
  socks_proxy_enabled = false;
  socks_proxy = [];
  auth = record { enabled = true; users = [] };
}

abbrev pub ask_for : Str → Question
ask_for name = record { name = name; qtype = type_a; qclass = class_inet }

abbrev pub query_of : ℕ → Str → Msg
query_of id name = record new_msg {
  id = id;
  recursion_desired = true;
  question = ask_for name ∷ [];
}

abbrev pub address_of : Str → ℕ → Str → Rr
address_of name ttl ip = record {
  hdr = record { name = name; rrtype = type_a; class = class_inet; ttl = ttl };
  body = a ip;
}

abbrev pub answer_to : Msg → Str → ℕ → Str → Msg
answer_to query name ttl ip = record query { answer = address_of name ttl ip ∷ [] }

-- `ads.com` and the wildcard `*.bad.org` are blocked.
abbrev pub sample_blocking : Blocking
sample_blocking = record {
  blocked = (codes "ads.com", true) ∷ (codes "*.bad.org", true) ∷ [];
  blocked_src = (codes "ads.com", codes "manual") ∷ [];
  blocked_pat = codes "*.bad.org" ∷ [];
  gravity = codes "evil.net" ∷ codes "track.io" ∷ [];
  gravity_by_list = [];
}

abbrev pub sample_clock : Clock
sample_clock = record { weekday = 1; hour = 12; minute = 30 }
