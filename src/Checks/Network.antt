-- ===== src/Checks/Network.antt =====
-- When `validateNetworkAddress` (config.go) accepts an address.
use moreno_dnsleaf.Prelude.{
  ℕ, false, Option, none, some, ◌≤◌, ◌≡◌, ◌↔◌, inl, inr, refl, Bool-cases, arith,
}
use moreno_dnsleaf.Prelude.Int.{ℤ, pos, negsuc}
use moreno_dnsleaf.Prelude.Number.{atoi}
use moreno_dnsleaf.Prelude.Text.{Str, is_empty, trim_space}
use moreno_dnsleaf.Deps.{Net}
use moreno_dnsleaf.Checks.{validate_network_address, check_host_port, check_port}

-- The text of a port from 1 to 65535.
abbrev pub IsPort : Str → Type 0
IsPort port = (n : ℕ) × (atoi port ≡ some (pos n)) × (1 ≤ n) × (n ≤ 65535)

abbrev pub IsAddress : Net → Str → Type 0
IsAddress net value =
    (host : Str) × (port : Str) × (net.split_host_port (trim_space value) ≡ some (host, port))
    × (is_empty (trim_space host) ≡ false)
    × IsPort port

check_port-none :
    (o : Option ℤ) → check_port o ≡ none → (n : ℕ) × (o ≡ some (pos n)) × (1 ≤ n) × (n ≤ 65535)
unfolding check_port
check_port-none none h = grind arith
check_port-none (some (pos n)) h = (n, refl, ground arith, ground arith)
check_port-none (some (negsuc n)) h = ground arith

check_port-port : (port : Str) → IsPort port → check_port (atoi port) ≡ none
check_port-port port (n, e, lo, hi) = unfold check_port in rw e (ground arith)

check_host_port-none :
    (o : Option (Str × Str))
    → check_host_port false o ≡ none
    → (host : Str) × (port : Str) × (o ≡ some (host, port))
      × (is_empty (trim_space host) ≡ false)
      × IsPort port
unfolding check_host_port
check_host_port-none none h = grind arith
check_host_port-none (some (host, port)) h = elim (Bool-cases (is_empty (trim_space host))) [
  | inl e ↦ ground arith
  | inr e ↦ (host, port, refl, e, check_port-none (atoi port) (ground arith))
]

-- `validateNetworkAddress` without the empty host accepts exactly the texts that, trimmed, are a host
-- and a port with a host that is not blank and a port that is a number from 1 to 65535.
pub validate_network_address-eq-none_iff :
    (net : Net) (value : Str)
    → (validate_network_address net value false ≡ none) ↔ IsAddress net value
validate_network_address-eq-none_iff net value =
    unfold validate_network_address in
    (
      λ h. check_host_port-none _ h,
      λ (host, port, e, blank, p). unfold check_host_port in rw (e, blank) (check_port-port port p),
    )
