-- ===== src/Addresses/Access.antt =====
-- Who may ask: `clientAllowed` and the list test below it.
use moreno_dnsleaf.Prelude.{not, ◌&&◌, ◌||◌, List, [], ◌∷◌, ◌++◌, ◌≡◌, refl, arith}
use moreno_dnsleaf.Prelude.Text.{Str}
use moreno_dnsleaf.Config.{Config}
use moreno_dnsleaf.Deps.{Net}
use moreno_dnsleaf.Addresses.{ip_in_list, is_lan_ip, client_allowed}

module _ (net : Net) where
  -- A list of addresses holds what its parts hold: order and repetition do not matter.
  pub ip_in_list-append :
      (ip : Str) (xs ys : List Str)
      → ip_in_list net ip (xs ++ ys) ≡ (ip_in_list net ip xs || ip_in_list net ip ys)
  unfolding ip_in_list
  ip_in_list-append ip [] ys = refl
  ip_in_list-append ip (x ∷ xs) ys = ground (arith, ip_in_list-append ip xs ys)

  -- A client on the whitelist is served under every policy; in whitelist mode no other client is,
  -- and in LAN mode no other client from outside the local networks.
  pub client_allowed_lem :
      (cfg : Config) (ip : Str)
      → client_allowed net cfg ip ≡ (
          ip_in_list net ip cfg.whitelist
          || (not cfg.whitelist_only && (not cfg.lan_only || is_lan_ip net ip)))
  unfolding client_allowed
  client_allowed_lem cfg ip = ground arith
