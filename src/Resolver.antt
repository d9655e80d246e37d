-- ===== src/Resolver.antt =====
-- The treatment of a query: `resolveDNS` and `cacheKeyForMessage` of dns_server.go, with the state
-- that it reads and writes. `addLog` is an event with its action and its source; durations are left
-- out. The clock is read where the source reads it: a reading for each call.
pub mod Stages
pub mod Books
pub mod Screen
pub mod Refused
use moreno_dnsleaf.Prelude.{
  ℕ, zero, suc, ◌+◌, ◌/◌, ◌%◌, Bool, true, false, not, ◌&&◌, ◌||◌, List, [], ◌∷◌, ◌++◌, Option,
  none, some, if◌then◌else◌, ltb, leb, ◌==◌, length,
}
use moreno_dnsleaf.Prelude.Map.{Map}
use moreno_dnsleaf.Prelude.Text.{Str, codes, str_eq, is_empty, to_lower, equal_fold}
use moreno_dnsleaf.Config.{Config, ClientProfile}
use moreno_dnsleaf.Deps.{Regex, Net, Ip}
use moreno_dnsleaf.Messages.{
  Msg, Question, Rr, Dns, new_msg, rcode_format_error, rcode_server_failure, rcode_name_error,
  rcode_refused,
}
use moreno_dnsleaf.Schedule.{Clock}
use moreno_dnsleaf.Blocking.{Blocking}
use moreno_dnsleaf.Addresses.{normalize_client_ip, client_allowed}
use moreno_dnsleaf.Decision.{profile_for_client, block_decision}
use moreno_dnsleaf.Cache.{CacheEntry, get_cached, set_cache}
use moreno_dnsleaf.RateLimit.{Hits, rate_limited, note_anomaly}
use moreno_dnsleaf.Upstream.{Exchange, forward, options_of}
use moreno_dnsleaf.Answers.{
  blocked_response, safe_search_response, answer_blocked, resolve_local, resolve_portal,
  denied_client_response,
}
use moreno_dnsleaf.Clients.{Action, Stats, ClientState, add_stat, track_client}

-- `%d` of a number below 2 ^ 16, which has five digits at most.
unfoldable pub decimal_digits : ℕ → ℕ → Str
decimal_digits zero n = []
decimal_digits (suc fuel) n =
    let high = decimal_digits fuel (n / 10) in
    if ltb n 10 then (b'0' + n) ∷ [] else high ++ ((b'0' + n % 10) ∷ [])

abbrev pub decimal : ℕ → Str
decimal n = codes ":" ++ decimal_digits 5 n

abbrev pub boolean : Bool → Str
boolean true = codes ":true"
boolean false = codes ":false"

unfoldable pub key_of : Msg → Question → ℕ → ℕ → Bool → Str
key_of r q size version do_flag =
    to_lower q.name
    ++ (decimal q.qtype
        ++ (decimal q.qclass
            ++ (boolean r.recursion_desired
                ++ (boolean r.checking_disabled
                    ++ (boolean r.authenticated_data
                        ++ (decimal size ++ (decimal version ++ boolean do_flag)))))))

unfoldable pub key_with_opt : Dns → Msg → Question → Option Rr → Option Str
key_with_opt dns r q none = some (key_of r q 0 0 false)
key_with_opt dns r q (some rr) =
    if ltb 0 (length (options_of rr.body))
    then none
    else some (key_of r q (dns.udp_size rr) (dns.edns_version rr) (dns.edns_do rr))

-- The key of a message with the question, `none` where it is not cacheable.
unfoldable pub cache_key_for_message : Dns → Msg → Question → Option Str
cache_key_for_message dns r q = key_with_opt dns r q (dns.is_edns0 r)

pub record Event : Type 0 where
  pub action : Str
  pub source : Str

-- What `resolveDNS` reads and writes beside the configuration.
pub record State : Type 0 where
  pub stats : Stats
  pub clients : Map ClientState
  pub cache : Map CacheEntry
  pub rate_hits : Hits
  pub anomaly_hits : Hits
  pub log : List Event

-- The readings of the clock in one query.
pub record Times : Type 0 where
  pub limited : ℕ
  pub read : ℕ
  pub tracked : ℕ
  pub noted : ℕ
  pub stored : ℕ
  pub local : Clock

-- The libraries, the network and the iteration orders.
pub record World : Type 1 where
  pub dns : Dns
  pub net : Net
  pub re : Regex
  pub exchange : Exchange
  pub scan_port : Str → Option ℕ
  pub random_troll_ip : ℕ → Option Ip
  pub range_hits : Hits → Hits
  pub range_clients : Map ClientState → Map ClientState
  pub range_cache : Map CacheEntry → Map CacheEntry
  pub range_names : Map Str → Map Str

-- The configuration and the rules, which a query reads under the lock.
pub record Rules : Type 0 where
  pub cfg : Config
  pub blocking : Blocking
  pub unhealthy : Map Bool

-- A query: the message, its question and the client.
pub record Query : Type 0 where
  pub msg : Msg
  pub question : Question
  pub client : Str

module _ (w : World) (rules : Rules) (t : Times) (q : Query) where
  -- `addStat`, `trackClient` and `addLog`.
  unfoldable pub book : Action → Action → Str → Str → State → State
  book stat client action source s = record s {
    stats = add_stat stat s.stats;
    clients = track_client w.range_clients s.clients q.client client t.tracked;
    log = record { action = action; source = source } ∷ s.log;
  }

  unfoldable pub book_anomaly : Str → State → State
  book_anomaly source s = record s {
    anomaly_hits =
        (note_anomaly w.range_hits rules.cfg.anomaly s.anomaly_hits q.question.name t.noted).0;
  }

  unfoldable pub refuse_blocked : Str → State → State × Msg
  refuse_blocked source s = (
    book_anomaly source (book Action.blocked Action.blocked (codes "blocked") source s),
    blocked_response w.dns w.net q.msg q.question.name q.question.qtype,
  )

  abbrev pub with_compress : Msg → Msg
  with_compress m = record m { compress = true }

  abbrev pub with_answer : List Rr → Msg
  with_answer rrs = let m = w.dns.set_reply q.msg in record m { answer = rrs }

  unfoldable pub store : Option Str → Msg → State → State
  store none resp s = s
  store (some key) resp s =
      if rules.cfg.cache && not (resp.rcode == rcode_server_failure)
      then record s { cache = set_cache w.range_cache rules.cfg s.cache key resp t.stored }
      else s

  -- The answer of the upstream, on each of its paths.
  unfoldable pub after_forward : Option Str → Msg → State → State × Msg
  after_forward key resp s =
      let (refused, m) = refuse_blocked (codes "blocked-ip") s in
      let failed = resp.rcode == rcode_server_failure in
      let action = if failed then Action.error else Action.forwarded in
      if answer_blocked w.dns w.net rules.cfg resp then (refused, with_compress m) else (
        store key (with_compress resp)
            (book action action (if failed then codes "error" else codes "forwarded") [] s),
        with_compress resp,
      )

  abbrev pub upstream_answer : Msg
  upstream_answer = forward w.exchange w.dns rules.cfg rules.unhealthy q.msg

  -- A cached message takes the identifier and the question of the query.
  unfoldable pub with_question : List Question → List Question
  with_question [] = []
  with_question (old ∷ rest) = q.question ∷ rest

  abbrev pub readdressed : Msg → Msg
  readdressed cached = record cached { id = q.msg.id; question = with_question cached.question }

  unfoldable pub after_cache : Option Str → State → Option Msg → State × Msg
  after_cache key s none = after_forward key upstream_answer s
  after_cache key s (some cached) =
      if answer_blocked w.dns w.net rules.cfg cached
      then refuse_blocked (codes "blocked-ip") s
      else (book Action.cached Action.cached (codes "cached") [] s, readdressed cached)

  unfoldable pub look_up : State → Option Str → State × Msg
  look_up s none = after_forward none upstream_answer s
  look_up s (some key) =
      let (cache, found) = get_cached rules.cfg s.cache key t.read in
      after_cache (some key) (record s { cache = cache }) found

  unfoldable pub after_local : State → List Rr → State × Msg
  after_local s [] = look_up s (cache_key_for_message w.dns q.msg q.question)
  after_local s (rr ∷ rrs) =
      (book Action.local Action.local (codes "local") [] s, with_answer (rr ∷ rrs))

  unfoldable pub after_decision : State → Bool × Str → State × Msg
  after_decision s (blocked, source) =
      if blocked
      then refuse_blocked source s
      else after_local s
          (resolve_local w.dns w.net w.scan_port rules.cfg q.question.name q.question.qtype)

  unfoldable pub after_safe_search : State → Option Msg → State × Msg
  after_safe_search s (some safe) =
      (book Action.local Action.local (codes "local") (codes "safe-search") s, safe)
  after_safe_search s none = after_decision s (
      block_decision w.re w.net w.range_names rules.cfg rules.blocking t.local q.question.name
        q.client)

  abbrev pub client_profile : Option ClientProfile
  client_profile = (profile_for_client w.net w.range_names rules.cfg q.client).1

  -- The query of a client that is allowed.
  unfoldable pub resolve_allowed : State → State × Msg
  resolve_allowed s =
      if rules.cfg.resolver_disabled
      then (
        book Action.forwarded Action.forwarded (codes "forwarded") [] s,
        with_compress upstream_answer,
      )
      else after_safe_search s
          (safe_search_response w.dns w.net q.msg q.question.name q.question.qtype client_profile)

  unfoldable pub refuse_client : State → Option Msg × Str → State × Msg
  refuse_client s (none, mode) =
      (book Action.denied Action.denied (codes "denied") [] s, w.dns.set_rcode q.msg rcode_refused)
  refuse_client s (some denied, mode) =
      let client = if str_eq mode (codes "trolled") then Action.trolled else Action.denied in
      (book Action.denied client mode (codes "access-policy") s, denied)

  unfoldable pub after_limit : State × Bool → State × Msg
  after_limit (s, true) =
      let rcode =
        if equal_fold rules.cfg.rate_limit.action (codes "drop")
        then rcode_server_failure
        else rcode_name_error in
      (
        book Action.denied Action.denied (codes "denied") (codes "rate-limit") s,
        w.dns.set_rcode q.msg rcode,
      )
  after_limit (s, false) =
      if not (client_allowed w.net rules.cfg q.client)
      then refuse_client s (
          denied_client_response w.dns w.net w.scan_port w.random_troll_ip rules.cfg q.msg
            q.question.name q.question.qtype)
      else resolve_allowed s

  unfoldable pub limit_client : State → State × Bool
  limit_client s =
      let (hits, limited) =
        rate_limited w.range_hits rules.cfg.rate_limit s.rate_hits q.client t.limited in
      (record s { rate_hits = hits }, limited)

  unfoldable pub after_portal : State → List Rr → State × Msg
  after_portal s [] = after_limit (limit_client s)
  after_portal s (rr ∷ rrs) =
      (book Action.local Action.local (codes "local") (codes "portal") s, with_answer (rr ∷ rrs))

  unfoldable pub resolve_query : State → State × Msg
  resolve_query s =
      after_portal s
        (resolve_portal w.dns w.net w.scan_port rules.cfg q.question.name q.question.qtype)

-- `resolveDNS`: the message may be nil, and has to have one question.
unfoldable pub resolve_questions :
    World → Rules → Times → State → Msg → Str → List Question → State × Msg
resolve_questions w rules t s r client (question ∷ []) =
    resolve_query w rules t
      (record { msg = r; question = question; client = normalize_client_ip w.net client }) s
resolve_questions w rules t s r client _ = (s, w.dns.set_rcode r rcode_format_error)

unfoldable pub resolve_dns : World → Rules → Times → State → Option Msg → Str → State × Msg
resolve_dns w rules t s none client = (s, w.dns.set_rcode new_msg rcode_format_error)
resolve_dns w rules t s (some r) client = resolve_questions w rules t s r client r.question

-- For tests: all that a run of these functions computes with.
unfoldable pub resolver_program : Unit {0}
unfolding decimal_digits key_of key_with_opt cache_key_for_message book book_anomaly refuse_blocked
    store after_forward with_question after_cache look_up after_local after_decision
    after_safe_search resolve_allowed refuse_client after_limit limit_client after_portal
    resolve_query resolve_questions resolve_dns
resolver_program = tt
