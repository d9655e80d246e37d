-- ===== src/Logs.antt =====
-- The logs of main.go: `addLog`, `addServerLog`, `addAudit` and `noteSource`, and the retention of
-- `trimQueryLogLocked` (config.go). A lease file is its text, `none` where it cannot be read.
pub mod Ring
pub mod Lines
pub mod Retention
pub mod Privacy
pub mod Names
use moreno_dnsleaf.Prelude.{
  ℕ, zero, suc, ◌+◌, ◌-◌, ◌*◌, ◌/◌, ◌%◌, Bool, true, false, not, ◌&&◌, ◌||◌, List, [], ◌∷◌, ◌++◌,
  Option, none, some, if◌then◌else◌, ltb, leb, length, drop, is_some,
}
use moreno_dnsleaf.Prelude.Int.{
  ℤ, pos, negsuc, ltb_ℤ, add_time, second, bits_of, to_int64, two_64, negated, int_program,
}
use moreno_dnsleaf.Prelude.Map.{Map, get, put, delete_first}
use moreno_dnsleaf.Prelude.Text.{
  Str, codes, str_eq, is_empty, trim_space, split, fields, contains, has_suffix, has_prefix,
}
use moreno_dnsleaf.Deps.{Net, Ip}
use moreno_dnsleaf.Config.{Config}
use moreno_dnsleaf.Blocking.{flag, text_at}
use moreno_dnsleaf.Addresses.{normalize_client_ip, addresses_program}
use moreno_dnsleaf.Auth.Sessions.{SessionTable, Session, session_from_request, sessions_program}
use moreno_dnsleaf.Logs.Names.{
  set_zero, zero_from, zero_host, anonymize_parsed, anonymize_client_ip, lease_name, name_or,
  lease_lines, dhcp_client_name, known_name, client_name,
}

pub record QueryEntry : Type 0 where
  pub timestamp : ℤ
  pub time : Str
  pub client : Str
  pub client_ip : Str
  pub client_name : Str
  pub client_mac : Str
  pub mac_status : Str
  pub local_addr : Str
  pub transport : Str
  pub domain : Str
  pub answers : Str
  pub query_type : Str
  pub action : Str
  pub block_source : Str
  pub duration : ℕ

pub record AuditEntry : Type 0 where
  pub timestamp : ℤ
  pub time : Str
  pub username : Str
  pub method : Str
  pub path : Str
  pub status : ℕ

-- `if len(s) > n { s = s[len(s)-n:] }`
unfoldable pub last_of {ℓ} : {A : Type ℓ} → ℕ → List A → List A
last_of n xs = if ltb n (length xs) then drop (length xs - n) xs else xs

-- `append` and then the cut to the last `n`.
unfoldable pub push {ℓ} : {A : Type ℓ} → ℕ → List A → A → List A
push n xs x = last_of n (xs ++ x ∷ [])

abbrev pub max_server_lines : ℕ
max_server_lines = 300

abbrev pub max_audit_entries : ℕ
max_audit_entries = 200

abbrev pub max_log_entries : ℕ
max_log_entries = 200

-- `addServerLog`, with the time of day as text.
unfoldable pub add_server_log : Str → List Str → Str → List Str
add_server_log clock server_log line =
    if is_empty (trim_space line)
    then server_log
    else push max_server_lines server_log (clock ++ codes "  " ++ trim_space line)

unfoldable pub is_noisy_tls_eof : Str → Bool
is_noisy_tls_eof line =
    contains (codes "TLS handshake error") line && has_suffix (codes ": EOF") line

-- `serverLogWriter.Write`, on the lines of its argument.
unfoldable pub write_lines : Str → List Str → List Str → List Str
write_lines clock server_log [] = server_log
write_lines clock server_log (line ∷ lines) =
    write_lines clock
      (if not (is_empty (trim_space line)) && not (is_noisy_tls_eof (trim_space line))
        then add_server_log clock server_log (trim_space line)
        else server_log)
      lines

unfoldable pub write_server_log : Str → List Str → Str → List Str
write_server_log clock server_log p = write_lines clock server_log (split 10 p)

-- `Time.UnixMilli` of a time since the zero time.
unfoldable pub unix_milli : ℕ → ℤ
unix_milli t =
    let milli = t / 1000000 in
    if leb 62135596800000 milli
    then pos (milli - 62135596800000)
    else negsuc (62135596800000 - 1 - milli)

-- `time.Duration(n) * time.Hour`, which wraps.
unfoldable pub hours : ℤ → ℤ
hours n = to_int64 (bits_of n * (3600 * second) % two_64)

unfoldable pub cutoff_of : ℤ → ℕ → ℤ
cutoff_of retention now = unix_milli (add_time now (hours (negated retention)))

unfoldable pub is_old : ℤ → QueryEntry → Bool
is_old cutoff e = ltb_ℤ (pos 0) e.timestamp && ltb_ℤ e.timestamp cutoff

unfoldable pub drop_old : ℤ → List QueryEntry → List QueryEntry
drop_old cutoff [] = []
drop_old cutoff (e ∷ es) = let rest = drop_old cutoff es in if is_old cutoff e then rest else e ∷ es

unfoldable pub trim_query_log : Config → ℕ → List QueryEntry → List QueryEntry
trim_query_log cfg now log = last_of max_log_entries (
    if ltb_ℤ (pos 0) cfg.query_log_retention
    then drop_old (cutoff_of cfg.query_log_retention now) log
    else log)

-- The state of the logs.
pub record Logs : Type 0 where
  pub query_log : List QueryEntry
  pub server_log : List Str
  pub seen_source : Map Bool

abbrev pub max_seen_sources : ℕ
max_seen_sources = 4096

-- A query as `addLog` is told of it; a duration is in nanoseconds.
pub record Query : Type 0 where
  pub transport : Str
  pub domain : Str
  pub query_type : Str
  pub action : Str
  pub answers : Str
  pub duration : ℕ
  pub block_source : Option Str

-- The machine: the lease file, `lookupClientMAC`, the order of `range`, the time of a reading as text.
pub record Machine : Type 0 where
  pub leases : Option Str
  pub mac_of : Str → Str × Str
  pub range : Map Bool → Map Bool
  pub clock_text : ℕ → Str

-- What is logged of a client.
pub record LoggedClient : Type 0 where
  pub client : Str
  pub ip : Str
  pub local_addr : Str
  pub name : Str
  pub mac : Str
  pub mac_status : Str

module _ (net : Net) (machine : Machine) where
  unfoldable pub logged_client : Config → Str → Str → LoggedClient
  logged_client cfg client local_addr =
      let ip = normalize_client_ip net client in
      if cfg.anonymize_client_ips
      then record {
        client = anonymize_client_ip net ip;
        ip = anonymize_client_ip net ip;
        local_addr = [];
        name = [];
        mac = [];
        mac_status = [];
      }
      else record {
        client = client;
        ip = ip;
        local_addr = local_addr;
        name = client_name cfg machine.leases ip;
        mac = (machine.mac_of ip).0;
        mac_status = (machine.mac_of ip).1;
      }

  unfoldable pub source_line : LoggedClient → Str → Str
  source_line c transport =
      codes "first DNS source transport="
      ++ transport
      ++ codes " remote="
      ++ c.client
      ++ codes " ip="
      ++ c.ip
      ++ codes " local="
      ++ c.local_addr
      ++ codes " mac="
      ++ (if is_empty c.mac then codes "-" else c.mac)
      ++ codes " mac_status="
      ++ c.mac_status

  -- `noteSource`: the first query of a source is a line of the server log.
  unfoldable pub note_source : ℕ → Logs → LoggedClient → Str → Logs
  note_source now logs c transport =
      let key = transport ++ codes "|" ++ c.ip ++ codes "|" ++ c.local_addr in
      let room =
        if leb max_seen_sources (length logs.seen_source)
        then delete_first (machine.range logs.seen_source) logs.seen_source
        else logs.seen_source in
      if flag key logs.seen_source then logs else record logs {
        seen_source = put key true room;
        server_log =
            add_server_log (machine.clock_text now) logs.server_log (source_line c transport);
      }

  unfoldable pub entry_of : ℕ → LoggedClient → Query → QueryEntry
  entry_of now c q = record {
    timestamp = unix_milli now;
    time = machine.clock_text now;
    client = c.client;
    client_ip = c.ip;
    client_name = c.name;
    client_mac = c.mac;
    mac_status = c.mac_status;
    local_addr = c.local_addr;
    transport = q.transport;
    domain = q.domain;
    answers = q.answers;
    query_type = q.query_type;
    action = q.action;
    block_source = name_or q.block_source [];
    duration = q.duration / 1000000;
  }

  unfoldable pub add_log : Config → ℕ → Logs → Str → Str → Query → Logs
  add_log cfg now logs client local_addr q =
      let c = logged_client cfg client local_addr in
      let noted = note_source now logs c q.transport in
      if not cfg.query_log_enabled then logs else record noted {
        query_log = trim_query_log cfg now (noted.query_log ++ entry_of now c q ∷ []);
      }

-- A request to the panel: its method, its path, its header `X-DNSLeaf-Request` and its cookie.
pub record Request : Type 0 where
  pub method : Str
  pub path : Str
  pub header : Str
  pub cookie : Option Str

unfoldable pub user_of : Option Session → Str
user_of none = codes "anonymous"
user_of (some s) = s.username

unfoldable pub audit_entry : (ℕ → Str) → ℕ → Str → Request → ℕ → AuditEntry
audit_entry time_text now username r status = record {
  timestamp = unix_milli now;
  time = time_text now;
  username = username;
  method = r.method;
  path = r.path;
  status = status;
}

-- `addAudit`: the sessions, which a look at the cookie may change, and the entries.
unfoldable pub add_audit :
    (ℕ → Str)
    → Bool
    → ℕ
    → SessionTable
    → List AuditEntry
    → Request
    → ℕ
    → SessionTable × List AuditEntry
add_audit time_text enabled now sessions audit r status =
    let (table, session) = session_from_request enabled sessions now r.cookie in
    if not (has_prefix (codes "/api/") r.path)
      || str_eq r.path (codes "/api/login")
      || str_eq r.path (codes "/api/session")
    then (sessions, audit)
    else (
      table,
      push max_audit_entries audit (audit_entry time_text now (user_of session) r status),
    )

-- For tests: all that a run of these functions computes with.
unfoldable pub logs_program : Unit {0}
unfolding int_program addresses_program sessions_program flag text_at last_of push add_server_log
    is_noisy_tls_eof write_lines write_server_log unix_milli hours cutoff_of is_old drop_old
    trim_query_log set_zero zero_from zero_host anonymize_parsed anonymize_client_ip lease_name
    name_or lease_lines dhcp_client_name known_name client_name logged_client source_line
    note_source entry_of add_log user_of audit_entry add_audit
logs_program = tt
