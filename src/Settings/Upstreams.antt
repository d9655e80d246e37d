-- ===== src/Settings/Upstreams.antt =====
-- `handleUpstreams` of clients_api.go. A decoded body is an argument, `none` where it is not JSON; the
-- data of an answer are left out.
pub mod Removed
pub mod Routes
pub mod Targets
use moreno_dnsleaf.Prelude.{
  Bool, true, false, not, ◌||◌, List, [], ◌∷◌, ◌++◌, Option, none, some, if◌then◌else◌, keep,
  is_some,
}
use moreno_dnsleaf.Prelude.Text.{
  Str, codes, str_eq, is_empty, trim_space, to_lower, contains, text_program,
}
use moreno_dnsleaf.Deps.{Net, Urls}
use moreno_dnsleaf.Messages.{Dns}
use moreno_dnsleaf.Config.{Config, UpstreamEndpoint}
use moreno_dnsleaf.Checks.Endpoints.{validate_upstream_endpoint, endpoints_program}
use moreno_dnsleaf.Profiles.{Answer, done, no_content, failed}

pub record NewUpstream : Type 0 where
  pub address : Str
  pub protocol : Str
  pub server_name : Str

pub record UpstreamSwitch : Type 0 where
  pub address : Str
  pub enabled : Bool

pub data UpstreamRequest : Type 0 where
  get_upstreams : UpstreamRequest
  post_upstream : Option NewUpstream → UpstreamRequest
  patch_upstream : Option UpstreamSwitch → UpstreamRequest
  delete_upstream : Option Str → UpstreamRequest
  other_upstream_method : UpstreamRequest

abbrev pub is_plain_protocol : Str → Bool
is_plain_protocol protocol = is_empty protocol || str_eq protocol (codes "udp")

-- The port of DNS, and the scheme of the protocol, where the address has none.
unfoldable pub with_port : Str → Str
with_port addr = if contains (codes ":") addr then addr else addr ++ codes ":53"

unfoldable pub with_scheme : Str → Str → Str
with_scheme protocol addr =
    if contains (codes "://") addr then addr else protocol ++ codes "://" ++ addr

abbrev pub endpoint_of : NewUpstream → UpstreamEndpoint
endpoint_of body = record {
  url = with_scheme (to_lower (trim_space body.protocol)) (trim_space body.address);
  server_name = trim_space body.server_name;
}

-- Without the first element that is equal to a text.
unfoldable pub remove_first : Str → List Str → List Str
remove_first s [] = []
remove_first s (x ∷ xs) = let rest = remove_first s xs in if str_eq x s then xs else x ∷ rest

abbrev pub others : Str → List Str → List Str
others addr items = keep (λ item. not (str_eq item addr)) items

unfoldable pub switch_upstream : Config → Option UpstreamSwitch → Config × Answer
switch_upstream cfg none = (cfg, failed 400)
switch_upstream cfg (some body) =
    let addr = trim_space body.address in
    let next = others addr cfg.disabled_upstreams in
    if is_empty addr then (cfg, failed 400) else (
      record cfg { disabled_upstreams = if not body.enabled then next ++ addr ∷ [] else next },
      done,
    )

unfoldable pub remove_upstream : Config → Option Str → Config × Answer
remove_upstream cfg none = (cfg, failed 400)
remove_upstream cfg (some addr) = (
  record cfg {
    upstreams = remove_first addr cfg.upstreams;
    upstream_endpoints = keep (λ e. not (str_eq e.url addr)) cfg.upstream_endpoints;
    disabled_upstreams = others addr cfg.disabled_upstreams;
  },
  no_content,
)

module _ (net : Net) (dns : Dns) (urls : Urls) where
  unfoldable pub add_upstream : Config → Option NewUpstream → Config × Answer
  add_upstream cfg none = (cfg, failed 400)
  add_upstream cfg (some body) =
      let addr = trim_space body.address in
      if is_empty addr
      then (cfg, failed 400)
      else if is_plain_protocol (to_lower (trim_space body.protocol))
      then (record cfg { upstreams = cfg.upstreams ++ with_port addr ∷ [] }, done)
      else if is_some (validate_upstream_endpoint net dns urls (endpoint_of body))
      then (cfg, failed 400)
      else (
        record cfg { upstream_endpoints = cfg.upstream_endpoints ++ endpoint_of body ∷ [] },
        done,
      )

  unfoldable pub handle_upstreams : UpstreamRequest → Config → Config × Answer
  handle_upstreams get_upstreams cfg = (cfg, done)
  handle_upstreams (post_upstream body) cfg = add_upstream cfg body
  handle_upstreams (patch_upstream body) cfg = switch_upstream cfg body
  handle_upstreams (delete_upstream body) cfg = remove_upstream cfg body
  handle_upstreams other_upstream_method cfg = (cfg, failed 405)

-- For tests: all that a run of these functions computes with.
unfoldable pub upstreams_program : Unit {0}
unfolding text_program endpoints_program with_port with_scheme remove_first switch_upstream
    remove_upstream add_upstream handle_upstreams
upstreams_program = tt
