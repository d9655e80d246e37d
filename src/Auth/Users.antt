-- ===== src/Auth/Users.antt =====
-- The accounts of the panel: `findUser`, `validUsername` and `adminCount` of auth.go and
-- `handleUsers` of runtime_api.go. A decoded body is an argument, `none` where it is not JSON; the
-- hash of a password and the formatted time are arguments too. The bodies are ASCII.
pub mod Admins
pub mod Names
pub mod Replies
use moreno_dnsleaf.Prelude.{
  ℕ, ◌+◌, Bool, true, false, not, ◌&&◌, ◌||◌, List, [], ◌∷◌, Option, none, some, map, if◌then◌else◌,
  ltb, leb, ◌==◌, length, any, is_some,
}
use moreno_dnsleaf.Prelude.Text.{Str, codes, str_eq, is_empty, is_space, equal_fold, trim_space}
use moreno_dnsleaf.Config.{UserAuth}
use moreno_dnsleaf.Auth.Sessions.{SessionTable, revoke_user_sessions}

unfoldable pub find_user : Str → List UserAuth → Option UserAuth
find_user username [] = none
find_user username (user ∷ users) =
    if str_eq user.username username then some user else find_user username users

abbrev pub is_control : ℕ → Bool
is_control c = ltb c 32 || c == 127

unfoldable pub valid_username : Str → Bool
valid_username username =
    not (is_empty username || ltb 64 (length username))
    && not (any (λ c. is_space c || is_control c) username)

abbrev pub is_admin : UserAuth → Bool
is_admin user = str_eq user.role (codes "admin")

unfoldable pub admin_count : List UserAuth → ℕ
admin_count [] = 0
admin_count (user ∷ users) = (if is_admin user then 1 else 0) + admin_count users

-- The users and the sessions, which a change of a user ends.
pub record Accounts : Type 0 where
  pub users : List UserAuth
  pub sessions : SessionTable

pub record NewUser : Type 0 where
  pub username : Str
  pub password : Str
  pub role : Str

pub record UserChange : Type 0 where
  pub username : Str
  pub new_username : Str
  pub password : Str
  pub role : Str

pub data UserRequest : Type 0 where
  get_users : UserRequest
  post_user : Option NewUser → UserRequest
  patch_user : Option UserChange → UserRequest
  delete_user : Option Str → UserRequest
  other_method : UserRequest

-- The answer: the list of names, roles and times, an error with its status, the saved name and
-- role, or 204.
pub data UserReply : Type 0 where
  listed : List (Str × Str × Str) → UserReply
  failed : ℕ → UserReply
  saved : Str → Str → UserReply
  no_content : UserReply

unfoldable pub is_role : Str → Bool
is_role role = str_eq role (codes "admin") || str_eq role (codes "viewer")

unfoldable pub append_user : UserAuth → List UserAuth → List UserAuth
append_user user [] = user ∷ []
append_user user (first ∷ users) = first ∷ append_user user users

-- The first user of a name, replaced.
unfoldable pub replace_user : Str → UserAuth → List UserAuth → List UserAuth
replace_user username user [] = []
replace_user username user (first ∷ users) =
    if str_eq first.username username
    then user ∷ users
    else first ∷ replace_user username user users

unfoldable pub remove_user : Str → List UserAuth → List UserAuth
remove_user username [] = []
remove_user username (first ∷ users) =
    if str_eq first.username username then users else first ∷ remove_user username users

abbrev pub role_or_viewer : Str → Str
role_or_viewer role = if is_empty role then codes "viewer" else role

unfoldable pub renames : Str → UserAuth → Bool
renames new_username user = not (is_empty new_username) && not (str_eq new_username user.username)

unfoldable pub demotes : UserChange → UserAuth → Bool
demotes body user =
    is_admin user
    && not (str_eq (if is_empty body.role then user.role else body.role) (codes "admin"))

module _ (range : SessionTable → SessionTable) (password_hash : Str → Str) (created_at : Str) where
  unfoldable pub new_user : Str → Str → Str → UserAuth
  new_user username role password = record {
    username = username;
    password_hash = password_hash password;
    role = role;
    created_at = created_at;
  }

  unfoldable pub create_user : Accounts → NewUser → Accounts × UserReply
  create_user a body =
      let username = trim_space body.username in
      let role = role_or_viewer (trim_space body.role) in
      if not (valid_username username)
        || is_empty body.password
        || ltb 4096 (length body.password)
        || not (is_role role)
      then (a, failed 400)
      else if is_some (find_user username a.users)
      then (a, failed 409)
      else (
        record {
          users = append_user (new_user username role body.password) a.users;
          sessions = a.sessions;
        },
        saved username role,
      )

  unfoldable pub changed_user : UserChange → UserAuth → UserAuth
  changed_user body user =
      let new_username = trim_space body.new_username in
      record {
        username = if renames new_username user then new_username else user.username;
        password_hash =
            if is_empty body.password then user.password_hash else password_hash body.password;
        role = if is_role body.role then body.role else user.role;
        created_at = user.created_at;
      }

  -- The loop over the users at the first one of the name.
  unfoldable pub change_found : Accounts → UserChange → Str → Option UserAuth → Accounts × UserReply
  change_found a body username none = (a, failed 404)
  change_found a body username (some user) =
      let new_username = trim_space body.new_username in
      let updated = changed_user body user in
      if demotes body user && leb (admin_count a.users) 1
      then (a, failed 400)
      else if renames new_username user && any (λ e. equal_fold e.username new_username) a.users
      then (a, failed 409)
      else (
        record {
          users = replace_user username updated a.users;
          sessions = revoke_user_sessions range user.username a.sessions;
        },
        saved updated.username updated.role,
      )

  unfoldable pub change_user : Accounts → UserChange → Accounts × UserReply
  change_user a body =
      let username = trim_space body.username in
      if not (valid_username username)
      then (a, failed 400)
      else if not (is_empty body.new_username)
          && not (valid_username (trim_space body.new_username))
      then (a, failed 400)
      else if not (is_empty body.role) && not (is_role body.role)
      then (a, failed 400)
      else if ltb 4096 (length body.password)
      then (a, failed 400)
      else change_found a body username (find_user username a.users)

  unfoldable pub drop_found : Accounts → Str → Option UserAuth → Accounts × UserReply
  drop_found a username none = (a, failed 404)
  drop_found a username (some user) =
      if leb (length a.users) 1
      then (a, failed 400)
      else if is_admin user && leb (admin_count a.users) 1
      then (a, failed 400)
      else (
        record {
          users = remove_user username a.users;
          sessions = revoke_user_sessions range user.username a.sessions;
        },
        no_content,
      )

  unfoldable pub handle_users : Accounts → UserRequest → Accounts × UserReply
  handle_users a get_users = (a, listed (map (λ u. (u.username, u.role, u.created_at)) a.users))
  handle_users a (post_user none) = (a, failed 400)
  handle_users a (post_user (some body)) = create_user a body
  handle_users a (patch_user none) = (a, failed 400)
  handle_users a (patch_user (some body)) = change_user a body
  handle_users a (delete_user none) = (a, failed 400)
  handle_users a (delete_user (some username)) =
      drop_found a (trim_space username) (find_user (trim_space username) a.users)
  handle_users a other_method = (a, failed 405)

-- For tests: all that a run of these functions computes with.
unfoldable pub users_program : Unit {0}
unfolding find_user valid_username admin_count is_role append_user replace_user remove_user renames
    demotes new_user create_user changed_user change_found change_user drop_found handle_users
users_program = tt
