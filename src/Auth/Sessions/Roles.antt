-- ===== src/Auth/Sessions/Roles.antt =====
-- What a request must show to be served (`requireAuth`, auth.go).
use moreno_dnsleaf.Prelude.{
  ℕ, ◌≤◌, Bool, true, false, not, ◌&&◌, Option, none, some, if◌then◌else◌, ltb, any, ◌≡◌, ◌⊎◌, refl,
  arith, Bool-cases, inl, inr,
}
use moreno_dnsleaf.Prelude.Map.{get}
use moreno_dnsleaf.Prelude.Text.{Str, codes, str_eq, is_empty, eq_of_str_eq}
use moreno_dnsleaf.Auth.Sessions.{
  Session, SessionTable, check_session, cookie_session, session_from_request, served, forbidden,
  public_paths, admin_paths, role_access, require_auth,
}

-- The session of a cookie is in the table and has not expired.
pub record IsLive (sessions : SessionTable) (now : ℕ) (cookie : Option Str) (s : Session)
    : Type 0 where
  pub token : Str
  pub cookie_is : cookie ≡ some token
  pub token_is : is_empty token ≡ false
  pub stored : get token sessions ≡ some s
  pub unexpired : now ≤ s.expires

check_session-IsLive :
    (sessions : SessionTable) (now : ℕ) (token : Str) (o : Option Session) (s : Session)
    → get token sessions ≡ o
    → is_empty token ≡ false
    → (check_session sessions token now o).1 ≡ some s
    → IsLive sessions now (some token) s
unfolding check_session
check_session-IsLive sessions now token none s g ne e = absurd (ground arith)
check_session-IsLive sessions now token (some t) s g ne e = elim (Bool-cases (ltb t.expires now)) [
  | inl expired ↦ absurd (cc (rw expired at e))
  | inr live ↦
      let same : t ≡ s = ground arith in
      record {
        token = token;
        cookie_is = refl;
        token_is = ne;
        stored = rw (← same) g;
        unexpired = rw (← same) (ground arith);
      }
]

-- With authentication on, the session of a request is that of its cookie, and live.
pub session_from_request-IsLive :
    (sessions : SessionTable) (now : ℕ) (cookie : Option Str) (s : Session)
    → (session_from_request true sessions now cookie).1 ≡ some s
    → IsLive sessions now cookie s
unfolding session_from_request cookie_session
session_from_request-IsLive sessions now none s e = absurd (ground arith)
session_from_request-IsLive sessions now (some token) s e = elim (Bool-cases (is_empty token)) [
  | inl nothing ↦ absurd (cc (rw nothing at e))
  | inr ne ↦ check_session-IsLive sessions now token _ s refl ne (rw ne at e)
]

-- What the role of a served session is.
pub record MayServe (path method : Str) (s : Session) : Type 0 where
  pub admin_path : any (str_eq path) admin_paths ≡ true → s.role ≡ codes "admin"
  pub admin_method : str_eq method (codes "GET") ≡ false → s.role ≡ codes "admin"

viewer_may :
    (guarded reading : Bool)
    → (if guarded && true then forbidden else if not reading && true then forbidden else served)
      ≡ served
    → (guarded ≡ false) × (reading ≡ true)
viewer_may true reading h = absurd (ground arith)
viewer_may false true h = (refl, refl)
viewer_may false false h = absurd (ground arith)

served_role :
    (guarded : Bool) (path method : Str) (s : Session)
    → any (str_eq path) admin_paths ≡ guarded
    → (if guarded && not (str_eq s.role (codes "admin"))
        then forbidden
        else if not (str_eq method (codes "GET")) && not (str_eq s.role (codes "admin"))
        then forbidden
        else served)
      ≡ served
    → MayServe path method s
served_role guarded path method s e h = elim (Bool-cases (str_eq s.role (codes "admin"))) [
  | inl admin ↦ record {
    admin_path = λ g. eq_of_str_eq s.role (codes "admin") admin;
    admin_method = λ g. eq_of_str_eq s.role (codes "admin") admin;
  }
  | inr viewer ↦
      let (open_path, reading) = viewer_may guarded _ (rw viewer at h) in
      record {
        admin_path = λ g. absurd (cc (g, e, open_path));
        admin_method = λ g. absurd (cc (g, reading));
      }
]

role_access-MayServe :
    (path method : Str) (o : Option Session)
    → role_access path method o ≡ served
    → (s : Session) × (o ≡ some s) × MayServe path method s
role_access-MayServe path method none e = absurd (unfold role_access in ground arith)
role_access-MayServe path method (some s) e = (
  s,
  refl,
  served_role (any (str_eq path) admin_paths) path method s refl (unfold role_access in e),
)

access_of :
    (sessions : SessionTable) (now : ℕ) (path method : Str) (cookie : Option Str)
    → any (str_eq path) public_paths ≡ false
    → (require_auth true sessions now path method cookie).1 ≡ served
    → role_access path method (session_from_request true sessions now cookie).1 ≡ served
unfolding require_auth
access_of sessions now path method cookie g e = rw g at e

-- With authentication enabled, a request that is served asks for a public path, or comes with a live
-- session; that session is an administrator's if the request is no GET, or if its path is for
-- administrators.
pub require_auth-served :
    (sessions : SessionTable) (now : ℕ) (path method : Str) (cookie : Option Str)
    → (require_auth true sessions now path method cookie).1 ≡ served
    → (any (str_eq path) public_paths ≡ true)
      ⊎ ((s : Session) × IsLive sessions now cookie s × MayServe path method s)
require_auth-served sessions now path method cookie e =
    elim (Bool-cases (any (str_eq path) public_paths)) [
      | inl open_path ↦ inl open_path
      | inr guarded ↦
          let (s, session, may) =
            role_access-MayServe path method _
              (access_of sessions now path method cookie guarded e) in
          inr (s, session_from_request-IsLive sessions now cookie s session, may)
    ]
