-- ===== src/Logs/Names.antt =====
-- `anonymizeClientIP`, `clientName` and `dhcpClientName` of dns_policy.go.
use moreno_dnsleaf.Prelude.{
  ℕ, zero, suc, not, ◌&&◌, List, [], ◌∷◌, Option, none, some, if◌then◌else◌,
}
use moreno_dnsleaf.Prelude.Map.{Map}
use moreno_dnsleaf.Prelude.Text.{Str, codes, str_eq, is_empty, trim_space, split, fields}
use moreno_dnsleaf.Deps.{Net, Ip}
use moreno_dnsleaf.Config.{Config}
use moreno_dnsleaf.Blocking.{text_at}

unfoldable pub set_zero : ℕ → Ip → Ip
set_zero i [] = []
set_zero zero (b ∷ bs) = 0 ∷ bs
set_zero (suc i) (b ∷ bs) = b ∷ set_zero i bs

-- The bytes from an index on become 0.
unfoldable pub zero_from : ℕ → Ip → Ip
zero_from i [] = []
zero_from zero (b ∷ bs) = 0 ∷ zero_from zero bs
zero_from (suc i) (b ∷ bs) = b ∷ zero_from i bs

unfoldable pub zero_host : Net → Ip → Option Ip → Str
zero_host net ip (some v4) = net.ip_string (set_zero 3 v4)
zero_host net ip none = net.ip_string (zero_from 8 (net.to_16 ip))

unfoldable pub anonymize_parsed : Net → Option Ip → Str
anonymize_parsed net none = []
anonymize_parsed net (some ip) = zero_host net ip (net.to_4 ip)

unfoldable pub anonymize_client_ip : Net → Str → Str
anonymize_client_ip net value = anonymize_parsed net (net.parse_ip (trim_space value))

-- The name in a line of the lease file, by the fields of the line.
unfoldable pub lease_name : Str → List Str → Option Str
lease_name ip (a ∷ b ∷ c ∷ d ∷ rest) =
    if str_eq c ip && not (str_eq d (codes "*"))
    then some d
    else if str_eq a ip
    then some b
    else none
lease_name ip (a ∷ b ∷ rest) = if str_eq a ip then some b else none
lease_name ip rest = none

unfoldable pub name_or : Option Str → Str → Str
name_or none other = other
name_or (some name) other = name

unfoldable pub lease_lines : Str → List Str → Str
lease_lines ip [] = []
lease_lines ip (line ∷ lines) = name_or (lease_name ip (fields line)) (lease_lines ip lines)

unfoldable pub dhcp_client_name : Config → Option Str → Str → Str
dhcp_client_name cfg none ip = []
dhcp_client_name cfg (some leases) ip =
    if is_empty cfg.dhcp_leases_file then [] else lease_lines ip (split 10 leases)

unfoldable pub known_name : Config → Option Str → Option (Map Str) → Str → Str
known_name cfg leases none ip = []
known_name cfg leases (some names) ip =
    if not (is_empty (text_at ip names)) then text_at ip names else dhcp_client_name cfg leases ip

unfoldable pub client_name : Config → Option Str → Str → Str
client_name cfg leases ip = known_name cfg leases cfg.client_names ip
