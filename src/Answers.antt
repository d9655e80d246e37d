-- ===== src/Answers.antt =====
-- The answers that the program makes itself, from dns_policy.go: blocked names, safe search, clients
-- that are not allowed, and the records of the configuration (`resolveLocal`, `resolvePortal`).
pub mod Shape
use moreno_dnsleaf.Prelude.{
  ℕ, zero, suc, ◌+◌, Bool, true, false, not, ◌&&◌, ◌||◌, List, [], ◌∷◌, ◌++◌, Option, none, some,
  map, if◌then◌else◌, ltb, leb, ◌==◌, length, any, keep, is_some,
}
use moreno_dnsleaf.Prelude.Text.{
  Str, codes, str_eq, is_empty, to_lower, to_upper, trim_space, trim_suffix, has_prefix, has_suffix,
  contains,
}
use moreno_dnsleaf.Config.{Config, Record, ClientProfile}
use moreno_dnsleaf.Deps.{Net, Ip}
use moreno_dnsleaf.Addresses.{ip_in_list}
use moreno_dnsleaf.Messages.{
  Msg, Header, Rr, Rdata, a, aaaa, txt, cname, mx, srv, ptr, svcb, Dns, type_a, type_aaaa, type_txt,
  type_cname, type_mx, type_srv, type_ptr, type_svcb, type_https, class_inet,
}

abbrev pub header : Str → ℕ → ℕ → Header
header qname rrtype ttl = record { name = qname; rrtype = rrtype; class = class_inet; ttl = ttl }

-- A nil address has no bytes.
abbrev pub ip_or_nil : Option Ip → Ip
ip_or_nil none = []
ip_or_nil (some ip) = ip

unfoldable pub trim_dot : Str → Str
trim_dot qname = to_lower (trim_suffix (codes ".") qname)

unfoldable pub safe_search_google : Str → Bool
safe_search_google name =
    str_eq name (codes "google.com")
    || has_prefix (codes "www.google.") name
    || has_prefix (codes "google.") name
    || contains (codes ".google.") name

unfoldable pub safe_search_bing : Str → Bool
safe_search_bing name = str_eq name (codes "bing.com") || has_suffix (codes ".bing.com") name

unfoldable pub safe_search_youtube : Str → Bool
safe_search_youtube name =
    str_eq name (codes "youtube.com")
    || has_suffix (codes ".youtube.com") name
    || str_eq name (codes "youtube.googleapis.com")
    || str_eq name (codes "youtubei.googleapis.com")
    || has_suffix (codes ".youtube-nocookie.com") name

unfoldable pub safe_search_target : Str → Str
safe_search_target name =
    if safe_search_google name
    then codes "216.239.38.120"
    else if safe_search_bing name
    then codes "204.79.197.220"
    else if safe_search_youtube name
    then codes "216.239.38.120"
    else []

module _ (dns : Dns) (net : Net) where
  unfoldable pub append_answer : Msg → Rr → Msg
  append_answer m rr = record m { answer = m.answer ++ (rr ∷ []) }

  unfoldable pub blocked_response : Msg → Str → ℕ → Msg
  blocked_response r qname qtype =
      let m = dns.set_reply r in
      if qtype == type_a
      then append_answer m (record {
        hdr = header qname type_a 3600;
        body = a (ip_or_nil (net.parse_ip (codes "0.0.0.0")));
      })
      else if qtype == type_aaaa
      then append_answer m (record {
        hdr = header qname type_aaaa 3600;
        body = aaaa (ip_or_nil (net.parse_ip (codes "::")));
      })
      else m

  -- The profile of the client is an argument, `none` where there is none.
  unfoldable pub safe_search_response : Msg → Str → ℕ → Option ClientProfile → Option Msg
  safe_search_response r qname qtype none = none
  safe_search_response r qname qtype (some p) =
      let target = safe_search_target (trim_dot qname) in
      if not p.safe_search || p.disable_blocking || p.disabled || not (qtype == type_a)
      then none
      else if is_empty target
      then none
      else some (
          append_answer (dns.set_reply r)
            (record { hdr = header qname type_a 300; body = a (ip_or_nil (net.parse_ip target)) }))

  unfoldable pub response_with_ip : Msg → Str → ℕ → Ip → Msg
  response_with_ip r qname qtype ip =
      let m = dns.set_reply r in
      if qtype == type_a && net.is_v4 ip
      then append_answer m (record { hdr = header qname type_a 60; body = a ip })
      else if qtype == type_aaaa && not (net.is_v4 ip)
      then append_answer m (record { hdr = header qname type_aaaa 60; body = aaaa ip })
      else m

  -- The text of the address of a record of type A or AAAA.
  unfoldable pub address_text : Rr → Str
  address_text rr = elim rr.body [ a ip ↦ net.ip_string ip | aaaa ip ↦ net.ip_string ip | _ ↦ [] ]

  unfoldable pub is_blocked_ip : List Str → Str → Bool
  is_blocked_ip [] ip = false
  is_blocked_ip (blocked ∷ rest) ip =
      str_eq ip blocked || ip_in_list net ip (blocked ∷ []) || is_blocked_ip rest ip

  unfoldable pub answer_blocked : Config → Msg → Bool
  answer_blocked cfg msg =
      not (length cfg.blocked_ips == 0)
      && any
          (λ rr.
            not (is_empty (address_text rr)) && is_blocked_ip cfg.blocked_ips (address_text rr))
          msg.answer

  -- The type and the value of a configured record, with their defaults.
  unfoldable pub record_type_of : Record → Str
  record_type_of rec =
      let t = to_upper (trim_space rec.record_type) in
      if is_empty t then (if contains (codes ":") rec.ip then codes "AAAA" else codes "A") else t

  unfoldable pub record_value_of : Record → Str
  record_value_of rec = let v = trim_space rec.value in if is_empty v then trim_space rec.ip else v

  abbrev pub service_text : Str → Str → Str → Str
  service_text qname rec_type value =
      dns.fqdn qname ++ (codes " 300 IN " ++ (rec_type ++ (codes " " ++ value)))

  abbrev pub one_of : Option Rr → List Rr
  one_of none = []
  one_of (some rr) = rr ∷ []

  -- The chain of cases on the type of the question, for one record of the name.
  unfoldable pub address_record : Str → ℕ → Str → Option Ip → List Rr
  address_record qname qtype rec_type none = []
  address_record qname qtype rec_type (some ip) =
      if qtype == type_a && str_eq rec_type (codes "A") && net.is_v4 ip
      then record { hdr = header qname type_a 3600; body = a ip } ∷ []
      else if qtype == type_aaaa && str_eq rec_type (codes "AAAA")
      then record { hdr = header qname type_aaaa 3600; body = aaaa ip } ∷ []
      else []

  abbrev pub answer_of : Str → ℕ → Rdata → List Rr
  answer_of qname qtype body = record { hdr = header qname qtype 3600; body = body } ∷ []

  unfoldable pub named_record : Record → Str → ℕ → Str → Str → List Rr
  named_record rec qname qtype rec_type value =
      let is = λ (t : ℕ) (text : Str). qtype == t && str_eq rec_type text in
      if is_empty value
      then []
      else if is type_txt (codes "TXT")
      then answer_of qname qtype (txt (value ∷ []))
      else if is type_cname (codes "CNAME")
      then answer_of qname qtype (cname (dns.fqdn value))
      else if is type_mx (codes "MX")
      then answer_of qname qtype (mx rec.priority (dns.fqdn value))
      else if is type_srv (codes "SRV")
      then answer_of qname qtype (srv rec.priority rec.weight rec.port (dns.fqdn value))
      else if is type_ptr (codes "PTR")
      then answer_of qname qtype (ptr (dns.fqdn value))
      else []

  unfoldable pub record_answers : Str → ℕ → Record → List Rr
  record_answers qname qtype rec =
      let rec_type = record_type_of rec in
      let value = record_value_of rec in
      if qtype == type_https || qtype == type_svcb
      then (if (qtype == type_https && str_eq rec_type (codes "HTTPS"))
            || (qtype == type_svcb && str_eq rec_type (codes "SVCB"))
          then one_of (dns.new_rr (service_text qname rec_type value))
          else [])
      else if qtype == type_a || qtype == type_aaaa
      then address_record qname qtype rec_type (net.parse_ip value)
      else named_record rec qname qtype rec_type value

  -- The loop over the records of the configuration.
  unfoldable pub records_for : Str → Str → ℕ → List Record → List Rr
  records_for name qname qtype [] = []
  records_for name qname qtype (rec ∷ records) =
      let rest = records_for name qname qtype records in
      if str_eq (to_lower rec.host) name then record_answers qname qtype rec ++ rest else rest

  -- `fmt.Sscanf` of a port is an argument, `none` where it fails.
  module _ (scan_port : Str → Option ℕ) where
    abbrev pub port_or : Option ℕ → ℕ
    port_or none = 443
    port_or (some port) = port

    abbrev pub scanned_port : Option (Str × Str) → ℕ
    scanned_port none = 443
    scanned_port (some (host, port)) = if is_empty port then 443 else port_or (scan_port port)

    unfoldable pub portal_port : Config → ℕ
    portal_port cfg =
        if is_empty cfg.https && contains (codes ":") cfg.http
        then scanned_port (net.split_host_port cfg.http)
        else 443

    abbrev pub has_v4 : Option Ip → Bool
    has_v4 none = false
    has_v4 (some ip) = net.is_v4 ip

    abbrev pub has_v6 : Option Ip → Bool
    has_v6 none = false
    has_v6 (some ip) = not (net.is_v4 ip)

    -- The answer for the name of the portal, if the type has one.
    unfoldable pub portal_answer : Config → Str → ℕ → Option Rr
    portal_answer cfg qname qtype =
        let ip = net.parse_ip cfg.portal_ip in
        if qtype == type_a && has_v4 ip
        then some (record { hdr = header qname type_a 300; body = a (ip_or_nil ip) })
        else if qtype == type_aaaa && has_v6 ip
        then some (record { hdr = header qname type_aaaa 300; body = aaaa (ip_or_nil ip) })
        else if qtype == type_https || qtype == type_svcb
        then some
            (record { hdr = header qname qtype 300; body = svcb 1 (codes ".") (portal_port cfg) })
        else none

    unfoldable pub is_portal : Config → Str → Bool
    is_portal cfg name =
        not (is_empty (trim_dot cfg.portal_host)) && str_eq name (trim_dot cfg.portal_host)

    abbrev pub portal_or_records : Config → Str → Str → ℕ → Option Rr → List Rr
    portal_or_records cfg name qname qtype (some rr) = rr ∷ []
    portal_or_records cfg name qname qtype none = records_for name qname qtype cfg.records

    unfoldable pub resolve_local : Config → Str → ℕ → List Rr
    resolve_local cfg qname qtype =
        let name = trim_dot qname in
        portal_or_records cfg name qname qtype
          (if is_portal cfg name then portal_answer cfg qname qtype else none)

    unfoldable pub resolve_portal : Config → Str → ℕ → List Rr
    resolve_portal cfg qname qtype =
        if not (is_portal cfg (trim_dot qname)) then [] else resolve_local cfg qname qtype

    abbrev pub renamed : Str → Rr → Rr
    renamed qname rr = record rr { hdr = record (rr.hdr) { name = qname } }

    abbrev pub override_portal : Msg → Str → ℕ → Option Ip → Option Msg
    override_portal r qname qtype none = none
    override_portal r qname qtype (some ip) = some (response_with_ip r qname qtype ip)

    unfoldable pub override_to : Config → Msg → Str → ℕ → Str → Option Ip → Option Msg
    override_to cfg r qname qtype target (some ip) = some (response_with_ip r qname qtype ip)
    override_to cfg r qname qtype target none =
        let found = resolve_local cfg (dns.fqdn target) qtype in
        let m = dns.set_reply r in
        if ltb 0 (length found)
        then some (record m { answer = m.answer ++ map (renamed qname) found })
        else override_portal r qname qtype (net.parse_ip cfg.portal_ip)

    unfoldable pub direct_override_response : Config → Msg → Str → ℕ → Option Msg
    direct_override_response cfg r qname qtype =
        let asked = trim_space cfg.direct_override_to in
        let target = if is_empty asked then cfg.portal_host else asked in
        if is_empty target then none else override_to cfg r qname qtype target (net.parse_ip target)

    unfoldable pub troll_with : Msg → Str → ℕ → Option Ip → Msg
    troll_with r qname qtype none = dns.set_reply r
    troll_with r qname qtype (some ip) = response_with_ip r qname qtype ip

    -- `randomTrollIP` looks names up and draws lots: an argument.
    unfoldable pub troll_response : (ℕ → Option Ip) → Msg → Str → ℕ → Msg
    troll_response random_troll_ip r qname qtype =
        if not (qtype == type_a) && not (qtype == type_aaaa)
        then dns.set_reply r
        else troll_with r qname qtype (random_troll_ip qtype)

    -- The answer and the mode for a client that is not allowed.
    unfoldable pub denied_client_response :
        (ℕ → Option Ip) → Config → Msg → Str → ℕ → Option Msg × Str
    denied_client_response random_troll_ip cfg r qname qtype =
        if cfg.direct_override
        then (direct_override_response cfg r qname qtype, codes "override")
        else if cfg.troll_mode
        then (some (troll_response random_troll_ip r qname qtype), codes "trolled")
        else (none, [])

-- For tests: all that a run of these functions computes with.
unfoldable pub answers_program : Unit {0}
unfolding trim_dot safe_search_google safe_search_bing safe_search_youtube safe_search_target
    append_answer blocked_response safe_search_response response_with_ip address_text is_blocked_ip
    answer_blocked record_type_of record_value_of address_record named_record record_answers
    records_for portal_port portal_answer is_portal resolve_local resolve_portal override_to
    direct_override_response troll_with troll_response denied_client_response
answers_program = tt
