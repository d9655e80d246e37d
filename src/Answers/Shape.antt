-- ===== src/Answers/Shape.antt =====
-- The identifier of the answers that the program makes itself.
use moreno_dnsleaf.Prelude.{
  ℕ, not, ◌&&◌, Option, none, some, if◌then◌else◌, ◌==◌, ltb, length, ◌≡◌, arith, Bool-cases, inl,
  inr, if-cases,
}
use moreno_dnsleaf.Prelude.Text.{Str, is_empty, trim_space}
use moreno_dnsleaf.Config.{Config, ClientProfile}
use moreno_dnsleaf.Deps.{Net, Ip}
use moreno_dnsleaf.Messages.{Msg, Dns, IsDns, type_a, type_aaaa}
use moreno_dnsleaf.Answers.{
  append_answer, blocked_response, safe_search_response, response_with_ip, troll_response,
  troll_with, override_to, override_portal, direct_override_response, denied_client_response,
  resolve_local,
}

-- A message with the identifier, if there is one.
abbrev pub HasId : ℕ → Option Msg → Type 0
HasId id none = Unit
HasId id (some m) = m.id ≡ id

module _ (dns : Dns) (net : Net) (laws : IsDns dns) where
  pub blocked_response-id :
      (r : Msg) (qname : Str) (qtype : ℕ) → (blocked_response dns net r qname qtype).id ≡ r.id
  unfolding blocked_response append_answer
  blocked_response-id r qname qtype = ground (arith, laws.reply_id r)

  pub response_with_ip-id :
      (r : Msg) (qname : Str) (qtype : ℕ) (ip : Ip)
      → (response_with_ip dns net r qname qtype ip).id ≡ r.id
  unfolding response_with_ip append_answer
  response_with_ip-id r qname qtype ip = ground (arith, laws.reply_id r)

  pub safe_search_response-HasId :
      (r : Msg) (qname : Str) (qtype : ℕ) (profile : Option ClientProfile)
      → HasId r.id (safe_search_response dns net r qname qtype profile)
  unfolding safe_search_response append_answer
  safe_search_response-HasId r qname qtype none = tt
  safe_search_response-HasId r qname qtype (some p) = ground (arith, laws.reply_id r)

  module _ (scan_port : Str → Option ℕ) where
    override_portal-HasId :
        (r : Msg) (qname : Str) (qtype : ℕ) (ip : Option Ip)
        → HasId r.id (override_portal dns net scan_port r qname qtype ip)
    override_portal-HasId r qname qtype none = tt
    override_portal-HasId r qname qtype (some ip) = response_with_ip-id r qname qtype ip

    override_to-HasId :
        (cfg : Config) (r : Msg) (qname : Str) (qtype : ℕ) (target : Str) (ip : Option Ip)
        → HasId r.id (override_to dns net scan_port cfg r qname qtype target ip)
    unfolding override_to
    override_to-HasId cfg r qname qtype target (some ip) = response_with_ip-id r qname qtype ip
    override_to-HasId cfg r qname qtype target none =
        let portal = override_portal-HasId r qname qtype (net.parse_ip cfg.portal_ip) in
        elim (Bool-cases
          (ltb 0 (length (resolve_local dns net scan_port cfg (dns.fqdn target) qtype)))) [
            | inl found ↦ rw found (laws.reply_id r)
            | inr absent ↦ rw absent portal
          ]

    direct_override_response-HasId :
        (cfg : Config) (r : Msg) (qname : Str) (qtype : ℕ)
        → HasId r.id (direct_override_response dns net scan_port cfg r qname qtype)
    unfolding direct_override_response
    direct_override_response-HasId cfg r qname qtype =
        let asked = trim_space cfg.direct_override_to in
        let target = if is_empty asked then cfg.portal_host else asked in
        if-cases {A = Option Msg} (HasId r.id) (is_empty target) tt
          (override_to-HasId cfg r qname qtype target (net.parse_ip target))

    troll_with-id :
        (r : Msg) (qname : Str) (qtype : ℕ) (ip : Option Ip)
        → (troll_with dns net scan_port r qname qtype ip).id ≡ r.id
    unfolding troll_with
    troll_with-id r qname qtype none = laws.reply_id r
    troll_with-id r qname qtype (some ip) = response_with_ip-id r qname qtype ip

    troll_response-id :
        (random_troll_ip : ℕ → Option Ip) (r : Msg) (qname : Str) (qtype : ℕ)
        → (troll_response dns net scan_port random_troll_ip r qname qtype).id ≡ r.id
    unfolding troll_response
    troll_response-id random_troll_ip r qname qtype =
        if-cases {A = Msg} (λ m. m.id ≡ r.id) (not (qtype == type_a) && not (qtype == type_aaaa))
          (laws.reply_id r) (troll_with-id r qname qtype (random_troll_ip qtype))

    pub denied_client_response-HasId :
        (random_troll_ip : ℕ → Option Ip) (cfg : Config) (r : Msg) (qname : Str) (qtype : ℕ)
        → HasId r.id (denied_client_response dns net scan_port random_troll_ip cfg r qname qtype).0
    unfolding denied_client_response
    denied_client_response-HasId random_troll_ip cfg r qname qtype =
        if-cases {A = Option Msg × Str} (λ answer. HasId r.id answer.0) cfg.direct_override
          (direct_override_response-HasId cfg r qname qtype)
          (if-cases {A = Option Msg × Str} (λ answer. HasId r.id answer.0) cfg.troll_mode
            (troll_response-id random_troll_ip r qname qtype) tt)
