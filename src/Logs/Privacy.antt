-- ===== src/Logs/Privacy.antt =====
-- What `anonymize_client_ips` hides: `addLog` (main.go) and `anonymizeClientIP` (dns_policy.go).
use moreno_dnsleaf.Prelude.{ℕ, true, [], ◌∷◌, some, ◌≡◌, sym, ◌∙◌}
use moreno_dnsleaf.Prelude.Text.{Str, trim_space}
use moreno_dnsleaf.Deps.{Net, Ip}
use moreno_dnsleaf.Config.{Config}
use moreno_dnsleaf.Addresses.{normalize_client_ip}
use moreno_dnsleaf.Logs.{Logs, Query, Machine, logged_client, add_log}
use moreno_dnsleaf.Logs.Names.{set_zero, zero_host, anonymize_parsed, anonymize_client_ip}

-- The address of a client, as bytes of version 4.
abbrev pub IsAt : Net → Str → ℕ → ℕ → ℕ → ℕ → Type 0
IsAt net client a b c d =
    (ip : Ip) × (net.parse_ip (trim_space (normalize_client_ip net client)) ≡ some ip)
    × (net.to_4 ip ≡ some (a ∷ b ∷ c ∷ d ∷ []))

anonymize_client_ip-v4 :
    (net : Net) (client : Str) (a b c d : ℕ)
    → IsAt net client a b c d
    → anonymize_client_ip net (normalize_client_ip net client) ≡ net.ip_string (a ∷ b ∷ c ∷ 0 ∷ [])
unfolding anonymize_client_ip anonymize_parsed zero_host set_zero
anonymize_client_ip-v4 net client a b c d (ip, parsed, bytes) = rw (parsed, bytes)

module _ (net : Net) (machine : Machine) where
  logged_client-anonymous :
      (cfg : Config) (client other local_addr other_addr : Str)
      → cfg.anonymize_client_ips ≡ true
      → anonymize_client_ip net (normalize_client_ip net client)
        ≡ anonymize_client_ip net (normalize_client_ip net other)
      → logged_client net machine cfg client local_addr
        ≡ logged_client net machine cfg other other_addr
  unfolding logged_client
  logged_client-anonymous cfg client other local_addr other_addr on same = rw (on, same)

  -- With `anonymize_client_ips`, all logs are the same for two clients whose IPv4 addresses differ in
  -- the last byte only, whatever their ports and the addresses that they asked.
  pub add_log-anonymous :
      (cfg : Config) (now : ℕ) (logs : Logs) (q : Query) (client other local_addr other_addr : Str)
      (a b c d e : ℕ)
      → cfg.anonymize_client_ips ≡ true
      → IsAt net client a b c d
      → IsAt net other a b c e
      → add_log net machine cfg now logs client local_addr q
        ≡ add_log net machine cfg now logs other other_addr q
  unfolding add_log
  add_log-anonymous cfg now logs q client other local_addr other_addr a b c d e on at at_other =
      rw (
        logged_client-anonymous cfg client other local_addr other_addr on (
          anonymize_client_ip-v4 net client a b c d at
          ∙ sym (anonymize_client_ip-v4 net other a b c e at_other)))
