-- ===== src/Auth/Users/Replies.antt =====
-- What the answers of `handleUsers` (runtime_api.go) tell of the users and of the sessions.
use moreno_dnsleaf.Prelude.{Bool, true, false, Option, none, some, ◌≡◌, refl, arith, ap, ◌∙◌, sym}
use mathlib.Core.Option.{some-injective}
use moreno_dnsleaf.Prelude.Map.{IsRange, get}
use moreno_dnsleaf.Prelude.Text.{Str, str_eq, eq_of_str_eq, trim_space}
use moreno_dnsleaf.Config.{UserAuth}
use moreno_dnsleaf.Auth.Sessions.{Session, SessionTable, revoke_user_sessions}
use moreno_dnsleaf.Auth.Sessions.Expiry.{revoke_user_sessions-gone}
use moreno_dnsleaf.Auth.Users.{
  find_user, Accounts, NewUser, UserChange, UserRequest, UserReply, failed, create_user,
  change_found, change_user, drop_found, handle_users, get_users, post_user, patch_user,
  delete_user, other_method,
}
use moreno_dnsleaf.Auth.Users.Admins.{find_user-name}

abbrev pub is_failed : UserReply → Bool
is_failed (failed status) = true
is_failed _ = false

-- The user whom a request changes or removes.
abbrev pub target : UserRequest → Option Str
target (patch_user (some body)) = some (trim_space body.username)
target (delete_user (some username)) = some (trim_space username)
target _ = none

module _ (range : SessionTable → SessionTable) (password_hash : Str → Str) (created_at : Str) where
  change_found-failed :
      (a : Accounts) (body : UserChange) (username : Str) (found : Option UserAuth)
      → is_failed (change_found range password_hash created_at a body username found).1 ≡ true
      → (change_found range password_hash created_at a body username found).0 ≡ a
  unfolding change_found
  change_found-failed a body username none f = refl
  change_found-failed a body username (some user) f = ground (arith, f)

  drop_found-failed :
      (a : Accounts) (username : Str) (found : Option UserAuth)
      → is_failed (drop_found range password_hash created_at a username found).1 ≡ true
      → (drop_found range password_hash created_at a username found).0 ≡ a
  unfolding drop_found
  drop_found-failed a username none f = refl
  drop_found-failed a username (some user) f = ground (arith, f)

  create_user-failed :
      (a : Accounts) (body : NewUser)
      → is_failed (create_user range password_hash created_at a body).1 ≡ true
      → (create_user range password_hash created_at a body).0 ≡ a
  unfolding create_user
  create_user-failed a body f = ground (arith, f)

  change_user-failed :
      (a : Accounts) (body : UserChange)
      → is_failed (change_user range password_hash created_at a body).1 ≡ true
      → (change_user range password_hash created_at a body).0 ≡ a
  unfolding change_user
  change_user-failed a body f =
      let username = trim_space body.username in
      let found = change_found-failed a body username (find_user username a.users) in
      ground (arith, found, f)

  -- A request that is answered with an error changes no user and ends no session.
  pub handle_users-failed :
      (a : Accounts) (request : UserRequest)
      → is_failed (handle_users range password_hash created_at a request).1 ≡ true
      → (handle_users range password_hash created_at a request).0 ≡ a
  unfolding handle_users
  handle_users-failed a get_users f = refl
  handle_users-failed a (post_user none) f = refl
  handle_users-failed a (post_user (some body)) f = create_user-failed a body f
  handle_users-failed a (patch_user none) f = refl
  handle_users-failed a (patch_user (some body)) f = change_user-failed a body f
  handle_users-failed a (delete_user none) f = refl
  handle_users-failed a (delete_user (some username)) f =
      drop_found-failed a (trim_space username) (find_user (trim_space username) a.users) f
  handle_users-failed a other_method f = refl

  module _ (r : IsRange range) where
    -- No token stands for a session of the user.
    abbrev IsSignedOut : Str → Accounts → Type 0
    IsSignedOut username a =
        (k : Str) (s : Session) → get k a.sessions ≡ some s → str_eq s.username username ≡ false

    revoked :
        (sessions : SessionTable) (username name k : Str) (s : Session)
        → str_eq name username ≡ true
        → get k (revoke_user_sessions range name sessions) ≡ some s
        → str_eq s.username username ≡ false
    revoked sessions username name k s same g =
        ap (str_eq s.username) (sym (eq_of_str_eq name username same))
        ∙ revoke_user_sessions-gone range r sessions name k s g

    change_found-IsSignedOut :
        (a : Accounts) (body : UserChange) (username : Str) (found : Option UserAuth)
        → find_user username a.users ≡ found
        → is_failed (change_found range password_hash created_at a body username found).1 ≡ false
        → IsSignedOut username (change_found range password_hash created_at a body username found).0
    unfolding change_found
    change_found-IsSignedOut a body username none f ok k s = ground (arith, ok)
    change_found-IsSignedOut a body username (some user) f ok k s =
        let same = find_user-name username a.users user f in
        let gone = revoked a.sessions username user.username k s same in ground (arith, ok, gone)

    drop_found-IsSignedOut :
        (a : Accounts) (username : Str) (found : Option UserAuth)
        → find_user username a.users ≡ found
        → is_failed (drop_found range password_hash created_at a username found).1 ≡ false
        → IsSignedOut username (drop_found range password_hash created_at a username found).0
    unfolding drop_found
    drop_found-IsSignedOut a username none f ok k s = ground (arith, ok)
    drop_found-IsSignedOut a username (some user) f ok k s =
        let same = find_user-name username a.users user f in
        let gone = revoked a.sessions username user.username k s same in ground (arith, ok, gone)

    change_user-IsSignedOut :
        (a : Accounts) (body : UserChange)
        → is_failed (change_user range password_hash created_at a body).1 ≡ false
        → IsSignedOut
            (trim_space body.username)
            (change_user range password_hash created_at a body).0
    unfolding change_user
    change_user-IsSignedOut a body ok k s =
        let username = trim_space body.username in
        let found = change_found-IsSignedOut a body username (find_user username a.users) refl in
        let at_key =
          λ (fine : is_failed
                (change_found range password_hash created_at a body username
                  (find_user username a.users)).1
              ≡ false).
            found fine k s in
        ground (arith, ok, at_key)

    -- When a change or a removal of a user succeeds, no token stands for a session of that user.
    pub handle_users-gone :
        (a : Accounts) (request : UserRequest) (username k : Str) (s : Session)
        → target request ≡ some username
        → is_failed (handle_users range password_hash created_at a request).1 ≡ false
        → get k (handle_users range password_hash created_at a request).0.sessions ≡ some s
        → str_eq s.username username ≡ false
    unfolding handle_users
    handle_users-gone a get_users username k s t ok g = ground (arith, t)
    handle_users-gone a (post_user none) username k s t ok g = ground (arith, t)
    handle_users-gone a (post_user (some body)) username k s t ok g = ground (arith, t)
    handle_users-gone a (patch_user none) username k s t ok g = ground (arith, t)
    handle_users-gone a (patch_user (some body)) username k s t ok g =
        ap (str_eq s.username) (sym (some-injective _ _ t))
        ∙ change_user-IsSignedOut a body ok k s g
    handle_users-gone a (delete_user none) username k s t ok g = ground (arith, t)
    handle_users-gone a (delete_user (some name)) username k s t ok g =
        ap (str_eq s.username) (sym (some-injective _ _ t))
        ∙ drop_found-IsSignedOut a (trim_space name) (find_user (trim_space name) a.users) refl ok k
            s g
    handle_users-gone a other_method username k s t ok g = ground (arith, t)
