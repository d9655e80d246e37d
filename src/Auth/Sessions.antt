-- ===== src/Auth/Sessions.antt =====
-- Sessions: `sessionFromRequest`, `revokeUserSessions` and `requireAuth` of auth.go, and the login
-- and logout of `handleLogin` (runtime_api.go). A token is the value of the cookie.
pub mod Roles
pub mod Expiry
use moreno_dnsleaf.Prelude.{
  ℕ, ◌+◌, ◌*◌, Bool, true, false, not, ◌&&◌, ◌||◌, List, [], ◌∷◌, Option, none, some, if◌then◌else◌,
  ltb, leb, length, any,
}
use moreno_dnsleaf.Prelude.Int.{second}
use moreno_dnsleaf.Prelude.Map.{Map, get, put, delete}
use moreno_dnsleaf.Prelude.Text.{Str, codes, str_eq, is_empty}

pub record Session : Type 0 where
  pub username : Str
  pub role : Str
  pub expires : ℕ

abbrev pub SessionTable : Type 0
SessionTable = Map Session

abbrev pub max_sessions : ℕ
max_sessions = 1024

abbrev pub session_life : ℕ
session_life = 43200 * second

unfoldable pub revoke_loop : Str → SessionTable → SessionTable → SessionTable
revoke_loop username [] sessions = sessions
revoke_loop username ((token, s) ∷ order) sessions =
    revoke_loop username order
      (if str_eq s.username username then delete token sessions else sessions)

unfoldable pub revoke_user_sessions :
    (SessionTable → SessionTable) → Str → SessionTable → SessionTable
revoke_user_sessions range username sessions = revoke_loop username (range sessions) sessions

-- `sessionFromRequest` on the session that the table has for the cookie.
unfoldable pub check_session :
    SessionTable → Str → ℕ → Option Session → SessionTable × Option Session
check_session sessions token now none = (delete token sessions, none)
check_session sessions token now (some s) =
    if ltb s.expires now then (delete token sessions, none) else (sessions, some s)

unfoldable pub cookie_session : SessionTable → ℕ → Option Str → SessionTable × Option Session
cookie_session sessions now none = (sessions, none)
cookie_session sessions now (some token) =
    if is_empty token
    then (sessions, none)
    else check_session sessions token now (get token sessions)

unfoldable pub session_from_request :
    Bool → SessionTable → ℕ → Option Str → SessionTable × Option Session
session_from_request enabled sessions now cookie =
    if not enabled
    then (
      sessions,
      some (record {
        username = codes "local";
        role = codes "admin";
        expires = now + 3600 * second;
      }),
    )
    else cookie_session sessions now cookie

-- The loop of the login that drops expired sessions.
unfoldable pub expire_loop : ℕ → SessionTable → SessionTable → SessionTable
expire_loop now [] sessions = sessions
expire_loop now ((token, s) ∷ order) sessions =
    expire_loop now order (if ltb s.expires now then delete token sessions else sessions)

-- The loop that looks for the session that expires first: its token and its time.
unfoldable pub oldest_session : Str → ℕ → SessionTable → Str
oldest_session token oldest [] = token
oldest_session token oldest ((existing, s) ∷ order) =
    if is_empty token || ltb s.expires oldest
    then oldest_session existing s.expires order
    else oldest_session token oldest order

unfoldable pub evict_session : SessionTable → SessionTable → SessionTable
evict_session order sessions =
    let token = oldest_session [] 0 order in
    if leb max_sessions (length sessions) && not (is_empty token)
    then delete token sessions
    else sessions

-- The part of a successful login that stores the new session.
unfoldable pub add_session :
    (SessionTable → SessionTable) → SessionTable → Str → Str → Str → ℕ → SessionTable
add_session range sessions token username role now =
    let live = expire_loop now (range sessions) sessions in
    put token (record { username = username; role = role; expires = now + session_life })
      (evict_session (range live) live)

-- Logout.
unfoldable pub end_session : SessionTable → Option Str → SessionTable
end_session sessions none = sessions
end_session sessions (some token) = delete token sessions

-- What `requireAuth` does with a request.
pub data Access : Type 0 where
  served unauthorized forbidden : Access

abbrev pub public_paths : List Str
public_paths =
    codes "/"
    ∷ codes "/dnsleaf.png"
    ∷ codes "/dns-query"
    ∷ codes "/api/ping"
    ∷ codes "/api/healthz"
    ∷ codes "/api/readyz"
    ∷ codes "/api/login"
    ∷ codes "/api/session"
    ∷ []

abbrev pub admin_paths : List Str
admin_paths = codes "/api/users" ∷ codes "/api/audit" ∷ codes "/api/backup" ∷ []

unfoldable pub role_access : Str → Str → Option Session → Access
role_access path method none = unauthorized
role_access path method (some s) =
    if any (str_eq path) admin_paths && not (str_eq s.role (codes "admin"))
    then forbidden
    else if not (str_eq method (codes "GET")) && not (str_eq s.role (codes "admin"))
    then forbidden
    else served

unfoldable pub require_auth :
    Bool → SessionTable → ℕ → Str → Str → Option Str → SessionTable × Access
require_auth enabled sessions now path method cookie =
    if any (str_eq path) public_paths
    then (sessions, served)
    else let (table, session) = session_from_request enabled sessions now cookie in
      (table, role_access path method session)

-- For tests: all that a run of these functions computes with.
unfoldable pub sessions_program : Unit {0}
unfolding revoke_loop revoke_user_sessions check_session cookie_session session_from_request
    expire_loop oldest_session evict_session add_session end_session role_access require_auth
sessions_program = tt
