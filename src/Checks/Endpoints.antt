-- ===== src/Checks/Endpoints.antt =====
-- `parseUpstreamEndpoint` and `validateUpstreamEndpoint` of config.go, with package net/url as the
-- argument `urls`.
use moreno_dnsleaf.Prelude.{
  Bool, false, not, ◌&&◌, ◌||◌, [], Option, none, some, if◌then◌else◌, is_some,
}
use moreno_dnsleaf.Prelude.Text.{Str, codes, str_eq, is_empty, trim_space, to_lower}
use moreno_dnsleaf.Deps.{Net, Urls, UrlParts}
use moreno_dnsleaf.Messages.{Dns}
use moreno_dnsleaf.Config.{UpstreamEndpoint}
use moreno_dnsleaf.Checks.{AddressError, validate_network_address, valid_dns_name, checks_program}

pub record UpstreamRoute : Type 0 where
  pub scheme : Str
  pub address : Str
  pub url : Str
  pub server_name : Str

pub data EndpointError : Type 0 where
  url_required : EndpointError
  not_url : EndpointError
  path_or_query : Str → EndpointError
  bad_address : AddressError → EndpointError
  server_name_required : EndpointError
  invalid_server_name : EndpointError
  invalid_host : EndpointError
  invalid_scheme : EndpointError

-- The route that comes with an error, of which `handleUpstreams` shows the scheme, is left out.
pub data RouteResult : Type 0 where
  route_to : UpstreamRoute → RouteResult
  no_route : EndpointError → RouteResult

abbrev pub default_port : Str → Str → Str
default_port scheme port =
    if is_empty port then if str_eq scheme (codes "tls") then codes "853" else codes "53" else port

abbrev pub is_plain_scheme : Str → Bool
is_plain_scheme scheme =
    str_eq scheme (codes "udp") || str_eq scheme (codes "tcp") || str_eq scheme (codes "tls")

module _ (net : Net) (dns : Dns) where
  -- The name of a TLS server: the configured one, or that of the URL.
  unfoldable pub tls_route : UpstreamRoute → Str → Str → RouteResult
  tls_route route server_name hostname =
      let name = if is_empty server_name then hostname else server_name in
      if is_some (net.parse_ip name)
      then if is_empty server_name
        then no_route server_name_required
        else route_to (record route { server_name = name })
      else if not (valid_dns_name dns name)
      then no_route invalid_server_name
      else route_to (record route { server_name = name })

  unfoldable pub checked_route : UpstreamRoute → Str → Str → Option AddressError → RouteResult
  checked_route route server_name hostname (some e) = no_route (bad_address e)
  checked_route route server_name hostname none =
      if str_eq route.scheme (codes "tls")
      then tls_route route server_name hostname
      else route_to route

  unfoldable pub plain_route : Str → UrlParts → Str → RouteResult
  plain_route scheme u server_name =
      let address = net.join_host_port u.hostname (default_port scheme u.port) in
      if not (is_empty u.path) || not (is_empty u.raw_query)
      then no_route (path_or_query scheme)
      else checked_route (record { scheme = scheme; address = address; url = []; server_name = [] })
          server_name u.hostname (validate_network_address net address false)

  unfoldable pub is_ip_or_name : Str → Bool
  is_ip_or_name host = is_some (net.parse_ip host) || valid_dns_name dns host

  module _ (urls : Urls) where
    unfoldable pub https_route : Str → UrlParts → Str → RouteResult
    https_route scheme u server_name =
        let path = if is_empty u.path then codes "/dns-query" else u.path in
        if not (is_ip_or_name u.hostname)
        then no_route invalid_host
        else if not (is_empty server_name) && not (is_ip_or_name server_name)
        then no_route invalid_server_name
        else route_to (record {
          scheme = scheme;
          address = [];
          url = urls.to_string (record u { path = path });
          server_name = server_name;
        })

    unfoldable pub route_of_url : Str → Option UrlParts → RouteResult
    route_of_url server_name none = no_route not_url
    route_of_url server_name (some u) =
        if is_empty u.scheme || is_empty u.host || u.has_user || not (is_empty u.fragment)
        then no_route not_url
        else if is_plain_scheme (to_lower u.scheme)
        then plain_route (to_lower u.scheme) u server_name
        else if str_eq (to_lower u.scheme) (codes "https")
        then https_route (to_lower u.scheme) u server_name
        else no_route invalid_scheme

    unfoldable pub parse_upstream_endpoint : UpstreamEndpoint → RouteResult
    parse_upstream_endpoint endpoint =
        if is_empty (trim_space endpoint.url)
        then no_route url_required
        else route_of_url (trim_space endpoint.server_name) (urls.parse (trim_space endpoint.url))

    unfoldable pub validate_upstream_endpoint : UpstreamEndpoint → Option EndpointError
    validate_upstream_endpoint endpoint = elim (parse_upstream_endpoint endpoint) [
      | route_to route ↦ none
      | no_route e ↦ some e
    ]

-- For tests: all that a run of these functions computes with.
unfoldable pub endpoints_program : Unit {0}
unfolding checks_program tls_route checked_route plain_route is_ip_or_name https_route route_of_url
    parse_upstream_endpoint validate_upstream_endpoint
endpoints_program = tt
