-- ===== src/Guard.antt =====
-- `configGuard` of auth.go: the transaction around each request to the panel, with
-- `saveConfigLocked` (config.go), `clearCache` and `addAudit`. A handler is a function on the panel; it
-- writes to a buffer. `clone` is `cloneConfig`, the round trip through package json, and `written` is
-- whether `atomicWriteFile` succeeds: on a failure the file is as before.
pub mod Transaction
pub mod Runs
use moreno_dnsleaf.Prelude.{
  ℕ, Bool, true, false, not, ◌&&◌, ◌||◌, List, [], ◌∷◌, Option, none, some, if◌then◌else◌, ltb, leb,
  ◌==◌,
}
use moreno_dnsleaf.Prelude.Map.{Map}
use moreno_dnsleaf.Prelude.Text.{Str, codes, str_eq}
use moreno_dnsleaf.Deps.{Net, Urls}
use moreno_dnsleaf.Messages.{Dns}
use moreno_dnsleaf.Config.{Config}
use moreno_dnsleaf.Blocking.{Blocking}
use moreno_dnsleaf.Cache.{CacheEntry, clear_cache}
use moreno_dnsleaf.Auth.Sessions.{SessionTable}
use moreno_dnsleaf.Logs.{AuditEntry, Request, add_audit, logs_program}
use moreno_dnsleaf.Validate.{validate_config, validate_program}
use moreno_dnsleaf.Validate.Report.{Issue, is_empty_list}

-- What requests to the panel work on. `stored` is the configuration in the file.
pub record Panel : Type 0 where
  pub cfg : Config
  pub stored : Config
  pub blocking : Blocking
  pub sessions : SessionTable
  pub cache : Map CacheEntry
  pub audit : List AuditEntry

-- A written response; `status` is 0 where the handler wrote none.
pub record Response : Type 0 where
  pub status : ℕ
  pub body : Str

abbrev pub Handler : Type 0
Handler = Panel → Panel × Response

abbrev pub error_response : ℕ → Str → Response
error_response status message = record { status = status; body = message }

abbrev pub missing_header : Response
missing_header = error_response 403 (codes "missing X-DNSLeaf-Request header")

unfoldable pub status_of : Response → ℕ
status_of w = if w.status == 0 then 200 else w.status

-- `flush`
unfoldable pub flush : Response → Response
flush w = record { status = status_of w; body = if status_of w == 204 then [] else w.body }

abbrev pub is_success : ℕ → Bool
is_success status = leb 200 status && ltb status 300

abbrev pub is_safe_method : Str → Bool
is_safe_method method =
    str_eq method (codes "GET") || str_eq method (codes "HEAD") || str_eq method (codes "OPTIONS")

abbrev pub has_header : Request → Bool
has_header r = str_eq r.header (codes "1")

-- What the guard takes from outside: the libraries, the two outcomes, and the time.
pub record Outside : Type 1 where
  pub net : Net
  pub dns : Dns
  pub urls : Urls
  pub clone : Config → Option Config
  pub written : Config → Bool
  pub now : ℕ
  pub time_text : ℕ → Str
  pub message_of : List Issue → Str

module _ (o : Outside) where
  abbrev pub issues_of : Config → List Issue
  issues_of cfg = validate_config o.net o.dns o.urls cfg

  -- `saveConfigLocked`, and whether it succeeds.
  unfoldable pub save_config : Panel → Panel × Bool
  save_config p =
      if is_empty_list (issues_of p.cfg) && o.written p.cfg
      then (record p { stored = p.cfg }, true)
      else (p, false)

  unfoldable pub audited : Panel → Request → ℕ → Panel
  audited p r status =
      let (sessions, audit) =
        add_audit o.time_text p.cfg.auth.enabled o.now p.sessions p.audit r status in
      record p { sessions = sessions; audit = audit }

  -- The configuration from before the request.
  abbrev pub rolled_back : Panel → Config → Panel
  rolled_back p before = record p { cfg = before }

  -- After a handler whose status is a success.
  unfoldable pub commit : Config → Request → Panel → Response → Panel × Response
  commit before r p w =
      let (saved, done) = save_config p in
      if not (is_empty_list (issues_of p.cfg))
      then (rolled_back p before, error_response 400 (o.message_of (issues_of p.cfg)))
      else if not done
      then (rolled_back saved before, error_response 500 (codes "could not save configuration"))
      else (audited (record saved { cache = clear_cache saved.cache }) r (status_of w), flush w)

  unfoldable pub transaction : Handler → Request → Panel → Option Config → Panel × Response
  transaction next r p none = (p, error_response 500 (codes "could not snapshot configuration"))
  transaction next r p (some before) =
      let (after, w) = next p in
      if is_success (status_of w) then commit before r after w else (after, flush w)

  unfoldable pub config_guard : Handler → Request → Panel → Panel × Response
  config_guard next r p =
      if str_eq r.path (codes "/dns-query") || is_safe_method r.method
      then next p
      else if not (has_header r)
      then (p, missing_header)
      else if str_eq r.path (codes "/api/login")
      then next p
      else transaction next r p (o.clone p.cfg)

-- For tests: all that a run of these functions computes with.
unfoldable pub guard_program : Unit {0}
unfolding logs_program validate_program status_of flush clear_cache save_config audited commit
    transaction config_guard
guard_program = tt
