-- ===== src/Settings/Upstreams/Routes.antt =====
-- The routes that `parseUpstreamEndpoint` of config.go reads in upstream endpoints.
use moreno_dnsleaf.Prelude.{
  true, false, not, ◌&&◌, ◌||◌, [], Option, none, some, if◌then◌else◌, is_some, ◌≡◌, ◌⊎◌, inl, inr,
  refl, arith, Bool-cases, if-cases,
}
use moreno_dnsleaf.Prelude.Text.{Str, codes, str_eq, eq_of_str_eq, is_empty, trim_space, to_lower}
use moreno_dnsleaf.Deps.{Net, Urls, UrlParts}
use moreno_dnsleaf.Messages.{Dns}
use moreno_dnsleaf.Config.{UpstreamEndpoint}
use moreno_dnsleaf.Checks.{AddressError, validate_network_address, valid_dns_name}
use moreno_dnsleaf.Checks.Network.{IsAddress, validate_network_address-eq-none_iff}
use moreno_dnsleaf.Checks.Endpoints.{
  UpstreamRoute, EndpointError, RouteResult, route_to, no_route, default_port, is_plain_scheme,
  is_ip_or_name, tls_route, checked_route, plain_route, https_route, route_of_url,
  parse_upstream_endpoint, validate_upstream_endpoint,
}

module _ (net : Net) where
  -- A route has a host and a port, or is a URL of DNS over HTTPS.
  abbrev pub HasAddress : UpstreamRoute → Type 0
  HasAddress route =
      ((is_plain_scheme route.scheme ≡ true) × IsAddress net route.address)
      ⊎ (route.scheme ≡ codes "https")

  abbrev LeadsOn : RouteResult → Type 0
  LeadsOn (no_route e) = Unit
  LeadsOn (route_to route) = HasAddress route

  module _ (dns : Dns) where
    tls_route-LeadsOn :
        (route : UpstreamRoute) (server_name hostname : Str)
        → HasAddress route
        → LeadsOn (tls_route net dns route server_name hostname)
    unfolding tls_route
    tls_route-LeadsOn route server_name hostname h =
        let name = if is_empty server_name then hostname else server_name in
        if-cases LeadsOn (is_some (net.parse_ip name))
          (if-cases LeadsOn (is_empty server_name) tt h)
          (if-cases LeadsOn (not (valid_dns_name dns name)) tt h)

    checked_route-LeadsOn :
        (route : UpstreamRoute) (server_name hostname : Str) (o : Option AddressError)
        → is_plain_scheme route.scheme ≡ true
        → (o ≡ none → IsAddress net route.address)
        → LeadsOn (checked_route net dns route server_name hostname o)
    unfolding checked_route
    checked_route-LeadsOn route server_name hostname (some e) scheme h = tt
    checked_route-LeadsOn route server_name hostname none scheme h =
        if-cases LeadsOn (str_eq route.scheme (codes "tls"))
          (tls_route-LeadsOn route server_name hostname (inl (scheme, h refl)))
          (inl (scheme, h refl))

    plain_route-LeadsOn :
        (scheme : Str) (u : UrlParts) (server_name : Str)
        → is_plain_scheme scheme ≡ true
        → LeadsOn (plain_route net dns scheme u server_name)
    unfolding plain_route
    plain_route-LeadsOn scheme u server_name plain_scheme =
        let address = net.join_host_port u.hostname (default_port scheme u.port) in
        if-cases LeadsOn (not (is_empty u.path) || not (is_empty u.raw_query)) tt (
          checked_route-LeadsOn
            (record { scheme = scheme; address = address; url = []; server_name = [] }) server_name
            u.hostname (validate_network_address net address false) plain_scheme
            (λ ok. (validate_network_address-eq-none_iff net address).0 ok))

    module _ (urls : Urls) where
      https_route-LeadsOn :
          (scheme : Str) (u : UrlParts) (server_name : Str)
          → scheme ≡ codes "https"
          → LeadsOn (https_route net dns urls scheme u server_name)
      unfolding https_route
      https_route-LeadsOn scheme u server_name https =
          if-cases LeadsOn (not (is_ip_or_name net dns u.hostname)) tt (
            if-cases LeadsOn (not (is_empty server_name) && not (is_ip_or_name net dns server_name))
              tt (inr https))

      route_of_url-LeadsOn :
          (server_name : Str) (o : Option UrlParts)
          → LeadsOn (route_of_url net dns urls server_name o)
      unfolding route_of_url
      route_of_url-LeadsOn server_name none = tt
      route_of_url-LeadsOn server_name (some u) =
          let scheme = to_lower u.scheme in
          if-cases LeadsOn
            (is_empty u.scheme || is_empty u.host || u.has_user || not (is_empty u.fragment)) tt
            (elim (Bool-cases (is_plain_scheme scheme)) [
              | inl plain_scheme ↦
                  rw plain_scheme (plain_route-LeadsOn scheme u server_name plain_scheme)
              | inr not_plain ↦ rw not_plain (elim (Bool-cases (str_eq scheme (codes "https"))) [
                | inl https ↦ rw https (
                    https_route-LeadsOn scheme u server_name
                      (eq_of_str_eq scheme (codes "https") https))
                | inr other ↦ rw other tt
              ])
            ])

      -- An endpoint that `parseUpstreamEndpoint` reads, with a route that has an address.
      abbrev pub IsUsable : UpstreamEndpoint → Type 0
      IsUsable e =
          (route : UpstreamRoute) × (parse_upstream_endpoint net dns urls e ≡ route_to route)
          × HasAddress route

      parse_upstream_endpoint-LeadsOn :
          (e : UpstreamEndpoint) → LeadsOn (parse_upstream_endpoint net dns urls e)
      unfolding parse_upstream_endpoint
      parse_upstream_endpoint-LeadsOn e =
          if-cases LeadsOn (is_empty (trim_space e.url)) tt
            (route_of_url-LeadsOn (trim_space e.server_name) (urls.parse (trim_space e.url)))

      pub validate_upstream_endpoint-IsUsable :
          (e : UpstreamEndpoint) → validate_upstream_endpoint net dns urls e ≡ none → IsUsable e
      unfolding validate_upstream_endpoint
      validate_upstream_endpoint-IsUsable e h =
          go (parse_upstream_endpoint net dns urls e) refl h (parse_upstream_endpoint-LeadsOn e)
        where
          go :
              (x : RouteResult)
              → parse_upstream_endpoint net dns urls e ≡ x
              → (elim x as (λ y. Option EndpointError) [
                | route_to route ↦ none
                | no_route err ↦ some err
              ])
                ≡ none
              → LeadsOn x
              → IsUsable e
          go (route_to route) same h leads = (route, same, leads)
          go (no_route err) same h leads = ground arith
