-- ===== src/Deps.antt =====
-- What the program takes from packages that are no part of it: the engine of package regexp and
-- the addresses of package net. Each record is an argument of the definitions that use it.
use moreno_dnsleaf.Prelude.{Bool, Option}
use moreno_dnsleaf.Prelude.Text.{Str}

-- `regexp.Compile` (with `none` for its error) and `Regexp.MatchString`.
pub record Regex : Type 1 where
  pub Regexp : Type 0
  pub compile : Str → Option Regexp
  pub match_string : Regexp → Str → Bool

-- `net.IP`, a slice of bytes.
abbrev pub Ip : Type 0
Ip = Str

-- Package net. `is_v4 ip` is `ip.To4() != nil`.
pub record Net : Type 1 where
  pub Network : Type 0
  pub parse_ip : Str → Option Ip
  pub parse_cidr : Str → Option Network
  pub network_contains : Network → Ip → Bool
  pub ip_equal : Ip → Ip → Bool
  pub ip_string : Ip → Str
  pub is_v4 : Ip → Bool
  -- `IsPrivate() || IsLoopback() || IsLinkLocalUnicast()`
  pub is_private : Ip → Bool
  pub is_loopback : Ip → Bool
  pub is_link_local_unicast : Ip → Bool
  -- `net.SplitHostPort`: the host and the port
  pub split_host_port : Str → Option (Str × Str)
  pub join_host_port : Str → Str → Str
  -- The address that `net.ParseCIDR` returns, `network.IP = ip.Mask(network.Mask)`, and `String`.
  pub parse_cidr_ip : Str → Option Ip
  pub with_masked_ip : Ip → Network → Network
  pub network_string : Network → Str
  -- `To4`, which is nil for an address of version 6, and `To16`
  pub to_4 : Ip → Option Ip
  pub to_16 : Ip → Ip

-- What `url.Parse` finds: the fields of a `url.URL` and the results of its methods.
pub record UrlParts : Type 0 where
  pub scheme : Str
  pub host : Str
  pub has_user : Bool
  pub path : Str
  pub raw_query : Str
  pub fragment : Str
  pub hostname : Str
  pub port : Str

-- Package net/url.
pub record Urls : Type 0 where
  pub parse : Str → Option UrlParts
  pub to_string : UrlParts → Str
