-- ===== src/Checks.antt =====
-- The checks of single values: `validateNetworkAddress`, `validDNSName` and `validateRecord` of
-- config.go, `normalizeIPOrCIDR` of dns_policy.go. An error is a constructor, one for each message.
pub mod Network
pub mod Endpoints
pub mod Records
use moreno_dnsleaf.Prelude.{
  ℕ, Bool, true, false, not, ◌&&◌, ◌||◌, List, [], ◌∷◌, ◌++◌, Option, none, some, if◌then◌else◌,
  ltb, length, is_some,
}
use moreno_dnsleaf.Prelude.Int.{ℤ, pos, ltb_ℤ}
use moreno_dnsleaf.Prelude.Number.{atoi, number_program}
use moreno_dnsleaf.Prelude.Text.{Str, codes, str_eq, is_empty, trim_space, trim_suffix, to_upper}
use moreno_dnsleaf.Deps.{Net, Ip}
use moreno_dnsleaf.Messages.{Dns}
use moreno_dnsleaf.Config.{Record}

pub data AddressError : Type 0 where
  not_host_port : AddressError
  host_required : AddressError
  port_out_of_range : AddressError

unfoldable pub check_port : Option ℤ → Option AddressError
check_port none = some port_out_of_range
check_port (some n) =
    if ltb_ℤ n (pos 1) || ltb_ℤ (pos 65535) n then some port_out_of_range else none

unfoldable pub check_host_port : Bool → Option (Str × Str) → Option AddressError
check_host_port allow_empty_host none = some not_host_port
check_host_port allow_empty_host (some (host, port)) =
    if not allow_empty_host && is_empty (trim_space host)
    then some host_required
    else check_port (atoi port)

-- `none` is acceptance, here and below.
unfoldable pub validate_network_address : Net → Str → Bool → Option AddressError
validate_network_address net value allow_empty_host =
    check_host_port allow_empty_host (net.split_host_port (trim_space value))

abbrev pub without_root : Str → Str
without_root value = trim_suffix (codes ".") (trim_space value)

unfoldable pub valid_dns_name : Dns → Str → Bool
valid_dns_name dns value =
    if is_empty (without_root value)
    then false
    else dns.is_domain_name (dns.fqdn (without_root value))

pub data IpError : Type 0 where
  ip_required : IpError
  invalid_ip : Str → IpError

-- The normal form, or an error.
pub data IpResult : Type 0 where
  normal : Str → IpResult
  no_ip : IpError → IpResult

module _ (net : Net) where
  unfoldable pub normalize_cidr : Str → Option Ip → Option net.Network → IpResult
  normalize_cidr value (some ip) (some network) =
      normal (net.network_string (net.with_masked_ip ip network))
  normalize_cidr value ip network = no_ip (invalid_ip value)

  unfoldable pub normalize_parsed : Str → Option Ip → IpResult
  normalize_parsed value none =
      normalize_cidr value (net.parse_cidr_ip value) (net.parse_cidr value)
  normalize_parsed value (some ip) = normal (net.ip_string ip)

  unfoldable pub normalize_ip_or_cidr : Str → IpResult
  normalize_ip_or_cidr value =
      if is_empty (trim_space value)
      then no_ip ip_required
      else normalize_parsed (trim_space value) (net.parse_ip (trim_space value))

-- Of a result with `_` for its error: the text, empty on an error.
unfoldable pub text_of : IpResult → Str
text_of (normal s) = s
text_of (no_ip e) = []

unfoldable pub error_of : IpResult → Option IpError
error_of (normal s) = none
error_of (no_ip e) = some e

-- For tests: all that a run of these functions computes with.
unfoldable pub checks_program : Unit {0}
unfolding number_program check_port check_host_port validate_network_address valid_dns_name
    normalize_cidr normalize_parsed normalize_ip_or_cidr text_of error_of
checks_program = tt
