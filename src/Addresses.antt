-- ===== src/Addresses.antt =====
-- Client addresses of dns_policy.go. Parsing and comparing addresses is package net's (Deps.Net).
pub mod Access
use moreno_dnsleaf.Prelude.{
  Bool, true, false, not, ◌&&◌, ◌||◌, List, [], ◌∷◌, Option, none, some, if◌then◌else◌,
}
use moreno_dnsleaf.Prelude.Text.{Str, str_eq, is_empty, trim_space, trim_by, has_byte, codes}
use moreno_dnsleaf.Config.{Config}
use moreno_dnsleaf.Deps.{Net, Ip}

module _ (net : Net) where
  open net use {
    Network, parse_ip, parse_cidr, network_contains, ip_equal, ip_string, is_private, is_loopback,
    is_link_local_unicast, split_host_port,
  }

  unfoldable pub host_of : Option (Str × Str) → Str → Str
  host_of none addr = addr
  host_of (some (host, port)) addr = host

  unfoldable pub canonical_ip : Option Ip → Str → Str
  canonical_ip none host = host
  canonical_ip (some ip) host = ip_string ip

  unfoldable pub normalize_client_ip : Str → Str
  normalize_client_ip addr =
      let host = trim_by (has_byte (codes "[]")) (host_of (split_host_port addr) addr) in
      canonical_ip (parse_ip host) host

  -- What one entry of the list says of the address: an answer, or `none` to go on. The program
  -- parses `ip` once, before its loop.
  unfoldable pub item_contains : Option Ip → Str → Option Network → Option Ip → Str → Bool
  item_contains (some p) ip (some network) item_ip item = network_contains network p
  item_contains (some p) ip none (some item_ip) item = ip_equal item_ip p
  item_contains (some p) ip none none item = str_eq item ip
  item_contains none ip network item_ip item = str_eq item ip

  unfoldable pub ip_in_list : Str → List Str → Bool
  ip_in_list ip [] = false
  ip_in_list ip (raw ∷ list) =
      let item = trim_space raw in
      let rest = ip_in_list ip list in
      if is_empty item
      then rest
      else item_contains (parse_ip ip) ip (parse_cidr item) (parse_ip item) item || rest

  unfoldable pub is_lan_address : Option Ip → Bool
  is_lan_address none = false
  is_lan_address (some p) = is_private p || is_loopback p || is_link_local_unicast p

  unfoldable pub is_lan_ip : Str → Bool
  is_lan_ip ip = is_lan_address (parse_ip ip)

  unfoldable pub client_allowed : Config → Str → Bool
  client_allowed cfg ip =
      if cfg.whitelist_only
      then ip_in_list ip cfg.whitelist
      else if cfg.lan_only && not (is_lan_ip ip) && not (ip_in_list ip cfg.whitelist)
      then false
      else true

-- For tests: all that a run of these functions computes with.
unfoldable pub addresses_program : Unit {0}
unfolding host_of canonical_ip normalize_client_ip item_contains ip_in_list is_lan_address is_lan_ip
    client_allowed
addresses_program = tt
