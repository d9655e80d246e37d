-- ===== src/Upstream.antt =====
-- The choice of an upstream and the exchange with it: upstream.go (`stripClientSubnet`,
-- `validUpstreamResponse`, `forward`, `upstreamsForQuery`, one round of `monitorUpstreams`) and
-- `disabledUpstream` of dns_policy.go. The exchange over the network is an argument.
pub mod Forward
pub mod Monitor
use moreno_dnsleaf.Prelude.{
  ℕ, zero, suc, ◌+◌, Bool, true, false, not, ◌&&◌, ◌||◌, List, [], ◌∷◌, ◌++◌, Option, none, some,
  map, if◌then◌else◌, ltb, leb, ◌==◌, length, any, keep, is_some,
}
use moreno_dnsleaf.Prelude.Int.{ℤ, pos, ltb_ℤ, leb_ℤ}
use moreno_dnsleaf.Prelude.Map.{Map, get, put, delete}
use moreno_dnsleaf.Prelude.Text.{
  Str, codes, str_eq, is_empty, to_lower, equal_fold, trim_space, trim_by, trim_suffix, has_suffix,
}
use moreno_dnsleaf.Config.{Config, UpstreamEndpoint, ConditionalForward, UpstreamHealthConfig}
use moreno_dnsleaf.Messages.{
  Msg, Question, Rr, Rdata, opt, EdnsOption, subnet, other_option, Dns, rcode_server_failure,
}

abbrev pub is_subnet : EdnsOption → Bool
is_subnet subnet = true
is_subnet (other_option code) = false

abbrev pub options_of : Rdata → List EdnsOption
options_of (opt options) = options
options_of _ = []

unfoldable pub without_subnet : Dns → Msg → Option Rr → Msg
without_subnet dns msg none = msg
without_subnet dns msg (some rr) =
    dns.set_options msg (keep (λ o. not (is_subnet o)) (options_of rr.body))

unfoldable pub strip_client_subnet : Dns → Msg → Msg
strip_client_subnet dns msg = without_subnet dns msg (dns.is_edns0 msg)

unfoldable pub same_question : List Question → List Question → Bool
same_question (want ∷ []) (got ∷ []) =
    equal_fold want.name got.name && want.qtype == got.qtype && want.qclass == got.qclass
same_question _ _ = false

-- A nil response is `none`.
unfoldable pub valid_upstream_response : Msg → Option Msg → Bool
valid_upstream_response query none = false
valid_upstream_response query (some response) =
    response.id == query.id && same_question query.question response.question

-- The value that reading the map of unhealthy upstreams gives.
abbrev pub is_bad : Option Bool → Bool
is_bad none = false
is_bad (some b) = b

-- `disabledUpstream`: found unhealthy, or disabled in the configuration.
unfoldable pub disabled_upstream : Config → Map Bool → Str → Bool
disabled_upstream cfg unhealthy addr =
    is_bad (get addr unhealthy) || any (λ item. str_eq item addr) cfg.disabled_upstreams

unfoldable pub forward_suffix : ConditionalForward → Str
forward_suffix rule = to_lower (trim_by (λ c. c == b'.') (trim_space rule.suffix))

-- The loop over the rules of conditional forwarding.
unfoldable pub conditional_upstreams : List Str → Str → List ConditionalForward → List Str
conditional_upstreams upstreams name [] = upstreams
conditional_upstreams upstreams name (rule ∷ rules) =
    let rest = conditional_upstreams upstreams name rules in
    let suffix = forward_suffix rule in
    if not rule.enabled || length rule.upstreams == 0
    then rest
    else if not (is_empty suffix) && (str_eq name suffix || has_suffix (codes "." ++ suffix) name)
    then rule.upstreams
    else rest

unfoldable pub upstreams_for : Config → List Question → List Str
upstreams_for cfg [] = cfg.upstreams
upstreams_for cfg (q ∷ questions) =
    conditional_upstreams cfg.upstreams (to_lower (trim_suffix (codes ".") q.name))
      cfg.conditional_forward

pub data Target : Type 0 where
  plain : Str → Target
  endpoint : UpstreamEndpoint → Target

-- The targets in the order of the configuration.
unfoldable pub targets_for : Config → Map Bool → Msg → List Target
targets_for cfg unhealthy r =
    map plain (keep (λ a. not (disabled_upstream cfg unhealthy a)) (upstreams_for cfg r.question))
    ++ map endpoint (keep (λ e. not (disabled_upstream cfg unhealthy e.url)) cfg.upstream_endpoints)

-- What `parseUpstreamEndpoint` (config.go) finds in an endpoint.
pub record Route : Type 0 where
  pub scheme : Str
  pub address : Str

-- The network: an exchange by UDP or TCP with an address, an exchange with an endpoint, each `none`
-- on an error, and the random order of the targets.
pub record Exchange : Type 0 where
  pub udp : Msg → Str → Option Msg
  pub tcp : Msg → Str → Option Msg
  pub with_endpoint : UpstreamEndpoint → Msg → Option Msg
  pub route_of : UpstreamEndpoint → Option Route
  pub shuffle : List Target → List Target

module _ (net : Exchange) where
  -- A truncated answer is asked for again by TCP.
  unfoldable pub retry_plain : Msg → Str → Option Msg → Option Msg
  retry_plain query addr none = none
  retry_plain query addr (some resp) = if resp.truncated then net.tcp query addr else some resp

  unfoldable pub retry_endpoint : Msg → UpstreamEndpoint → Option Route → Option Msg → Option Msg
  retry_endpoint query e route none = none
  retry_endpoint query e none (some resp) = some resp
  retry_endpoint query e (some route) (some resp) =
      if str_eq route.scheme (codes "udp") && resp.truncated
      then net.with_endpoint (record e { url = codes "tcp://" ++ route.address }) query
      else some resp

  unfoldable pub ask : Msg → Target → Option Msg
  ask query (plain addr) = retry_plain query addr (net.udp query addr)
  ask query (endpoint e) = retry_endpoint query e (net.route_of e) (net.with_endpoint e query)

  -- The loop over the targets: the first valid answer.
  unfoldable pub ask_all : Msg → List Target → Option Msg
  ask_all query [] = none
  ask_all query (target ∷ targets) =
      let rest = ask_all query targets in
      if valid_upstream_response query (ask query target) then ask query target else rest

  unfoldable pub answer_or_failure : Dns → Msg → Option Msg → Msg
  answer_or_failure dns r none = dns.set_rcode r rcode_server_failure
  answer_or_failure dns r (some resp) = resp

  unfoldable pub query_for : Dns → Config → Msg → Msg
  query_for dns cfg r = if cfg.strip_ecs then strip_client_subnet dns r else r

  unfoldable pub forward : Dns → Config → Map Bool → Msg → Msg
  forward dns cfg unhealthy r =
      answer_or_failure dns r
        (ask_all (query_for dns cfg r) (net.shuffle (targets_for cfg unhealthy r)))

-- What the loop of `monitorUpstreams` keeps: the failures in a row and the unhealthy upstreams.
pub record Health : Type 0 where
  pub failures : Map ℕ
  pub unhealthy : Map Bool

unfoldable pub failures_needed : UpstreamHealthConfig → ℤ
failures_needed health = if leb_ℤ health.failures (pos 0) then pos 3 else health.failures

abbrev pub count_of : Option ℕ → ℕ
count_of none = 0
count_of (some n) = n

-- One probe of an upstream that answers or does not.
unfoldable pub note_probe : ℤ → Health → Str → Bool → Health
note_probe needed h upstream ok =
    let count = count_of (get upstream h.failures) + 1 in
    if ok
    then record { failures = put upstream 0 h.failures; unhealthy = delete upstream h.unhealthy }
    else record {
      failures = put upstream count h.failures;
      unhealthy = if ltb_ℤ (pos count) needed then h.unhealthy else put upstream true h.unhealthy;
    }

-- One round: each upstream is probed.
unfoldable pub probe_round : ℤ → (Str → Bool) → List Str → Health → Health
probe_round needed probe [] h = h
probe_round needed probe (upstream ∷ upstreams) h =
    probe_round needed probe upstreams (note_probe needed h upstream (probe upstream))

-- For tests: all that a run of these functions computes with.
unfoldable pub upstream_program : Unit {0}
unfolding without_subnet strip_client_subnet same_question valid_upstream_response disabled_upstream
    forward_suffix conditional_upstreams upstreams_for targets_for retry_plain retry_endpoint ask
    ask_all answer_or_failure query_for forward failures_needed note_probe probe_round
upstream_program = tt
