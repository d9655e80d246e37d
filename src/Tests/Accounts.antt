-- ===== src/Tests/Accounts.antt =====
-- Logins, sessions and users on concrete inputs.
use moreno_dnsleaf.Prelude.{
  ℕ, suc, ◌+◌, ◌-◌, ◌*◌, ◌≤◌, true, false, not, ◌&&◌, List, [], ◌∷◌, none, some, ◌≡◌, if◌then◌else◌,
  ◌⊎◌, refl, arith, length, any, leb, ltb,
}
use moreno_dnsleaf.Prelude.Map.{get, map_program}
use moreno_dnsleaf.Prelude.Int.{second}
use moreno_dnsleaf.Prelude.Text.{Str, codes, str_eq, is_empty, text_program}
use moreno_dnsleaf.Config.{UserAuth}
use moreno_dnsleaf.Auth.Login.{LoginAttempt, login_allowed, login_max_failures, login_block}
use moreno_dnsleaf.Auth.Login.Lockout.{fail_all, last_of, login_allowed-fail_all}
use moreno_dnsleaf.Auth.Sessions.{
  Session, SessionTable, served, public_paths, require_auth, add_session, max_sessions,
  sessions_program, revoke_user_sessions,
}
use moreno_dnsleaf.Auth.Sessions.Roles.{IsLive, MayServe, require_auth-served}
use moreno_dnsleaf.Auth.Sessions.Expiry.{HasTokens, length-add_session-le}
use moreno_dnsleaf.Auth.Users.{
  Accounts, UserRequest, patch_user, delete_user, handle_users, admin_count, users_program,
}
use moreno_dnsleaf.Auth.Users.Admins.{handle_users-admin_count}
use moreno_dnsleaf.Auth.Users.Names.{HasUniqueNames, handle_users-HasUniqueNames}
use moreno_dnsleaf.Auth.Users.Replies.{is_failed, target, handle_users-failed, handle_users-gone}
use moreno_dnsleaf.Tests.Ranges.{in_order, in_order-IsRange}

abbrev start_time : ℕ
start_time = 1000 * second

-- Eight failures, a second apart.
abbrev failed_at : List ℕ
failed_at =
    (start_time + second)
    ∷ (start_time + 2 * second)
    ∷ (start_time + 3 * second)
    ∷ (start_time + 4 * second)
    ∷ (start_time + 5 * second)
    ∷ (start_time + 6 * second)
    ∷ (start_time + 7 * second)
    ∷ []

abbrev client : Str
client = codes "10.0.0.7"

no_attempt : get {V = LoginAttempt} client [] ≡ none
unfolding get
no_attempt = refl

login_allowed-fail_all_example :
    ((login_allowed
        (fail_all in_order [] client (start_time ∷ failed_at))
        client
        (start_time + 20 * second)).1
      ≡ not (
          leb login_max_failures (suc (length failed_at))
          && ltb (start_time + 20 * second) (last_of start_time failed_at + login_block)))
    × ((login_allowed
          (fail_all in_order [] client (start_time ∷ failed_at))
          client
          (start_time + 20 * second)).2
        ≡ (if leb login_max_failures (suc (length failed_at))
              && ltb (start_time + 20 * second) (last_of start_time failed_at + login_block)
            then last_of start_time failed_at + login_block - (start_time + 20 * second)
            else 0))
login_allowed-fail_all_example =
    login_allowed-fail_all in_order client [] start_time failed_at (start_time + 20 * second)
      no_attempt (omega arith)
      (
        omega arith,
        omega arith,
        (
          omega arith,
          omega arith,
          (
            omega arith,
            omega arith,
            (
              omega arith,
              omega arith,
              (
                omega arith,
                omega arith,
                (omega arith, omega arith, (omega arith, omega arith, tt)),
              ),
            ),
          ),
        ),
      )
      (omega arith) (omega arith)

abbrev session_of : Str → Str → Session
session_of name role = record { username = name; role = role; expires = start_time + 60 * second }

abbrev table : SessionTable
table =
    (codes "t1", session_of (codes "ann") (codes "admin"))
    ∷ (codes "t2", session_of (codes "bob") (codes "viewer"))
    ∷ []

table_has :
    (get [] table ≡ none)
    × (get (codes "t2") (revoke_user_sessions in_order (codes "ann") table)
        ≡ some (session_of (codes "bob") (codes "viewer")))
unfolding map_program sessions_program text_program
table_has = (refl, refl)

ann_served :
    (require_auth true table start_time (codes "/api/users") (codes "POST") (some (codes "t1"))).1
    ≡ served
unfolding map_program sessions_program text_program
ann_served = refl

require_auth-served_example :
    (any (str_eq (codes "/api/users")) public_paths ≡ true)
    ⊎ ((s : Session) × IsLive table start_time (some (codes "t1")) s
        × MayServe (codes "/api/users") (codes "POST") s)
require_auth-served_example =
    require_auth-served table start_time (codes "/api/users") (codes "POST") (some (codes "t1"))
      ann_served

token_given : is_empty (codes "t3") ≡ false
unfolding is_empty
token_given = refl

length-add_session-le_example :
    (length (add_session in_order table (codes "t3") (codes "cy") (codes "viewer") start_time)
      ≤ max_sessions)
    × HasTokens (add_session in_order table (codes "t3") (codes "cy") (codes "viewer") start_time)
length-add_session-le_example =
    length-add_session-le in_order in_order-IsRange table (codes "t3") (codes "cy") (codes "viewer")
      start_time table_has.0 token_given (omega arith)

abbrev user_of : Str → Str → UserAuth
user_of name role = record {
  username = name;
  password_hash = codes "x";
  role = role;
  created_at = codes "now";
}

abbrev accounts : Accounts
accounts = record {
  users = user_of (codes "ann") (codes "admin") ∷ user_of (codes "bob") (codes "viewer") ∷ [];
  sessions = table;
}

-- Bob becomes Rob.
abbrev rename : UserRequest
rename =
    patch_user (
      some
        (record { username = codes "bob"; new_username = codes "rob"; password = []; role = [] }))

-- The only administrator is to go.
abbrev remove_ann : UserRequest
remove_ann = delete_user (some (codes "ann"))

abbrev same_text : Str → Str
same_text s = s

accounts_fine :
    (1 ≤ admin_count accounts.users)
    × HasUniqueNames accounts.users
    × (is_failed (handle_users in_order same_text (codes "now") accounts rename).1 ≡ false)
    × (is_failed (handle_users in_order same_text (codes "now") accounts remove_ann).1 ≡ true)
    × (target rename ≡ some (codes "bob"))
unfolding users_program map_program sessions_program text_program
accounts_fine = (omega arith, (refl, (refl, tt)), refl, refl, refl)

handle_users-admin_count_example :
    1 ≤ admin_count (handle_users in_order same_text (codes "now") accounts remove_ann).0.users
handle_users-admin_count_example =
    handle_users-admin_count in_order same_text (codes "now") accounts remove_ann accounts_fine.0

handle_users-HasUniqueNames_example :
    HasUniqueNames (handle_users in_order same_text (codes "now") accounts rename).0.users
handle_users-HasUniqueNames_example =
    handle_users-HasUniqueNames in_order same_text (codes "now") accounts rename accounts_fine.1

handle_users-failed_example :
    (handle_users in_order same_text (codes "now") accounts remove_ann).0 ≡ accounts
handle_users-failed_example =
    handle_users-failed in_order same_text (codes "now") accounts remove_ann accounts_fine.3

ann_stays :
    get (codes "t1") (handle_users in_order same_text (codes "now") accounts rename).0.sessions
    ≡ some (session_of (codes "ann") (codes "admin"))
unfolding users_program map_program sessions_program text_program
ann_stays = refl

handle_users-gone_example : str_eq (codes "ann") (codes "bob") ≡ false
handle_users-gone_example =
    handle_users-gone in_order same_text (codes "now") in_order-IsRange accounts rename
      (codes "bob") (codes "t1") (session_of (codes "ann") (codes "admin")) accounts_fine.4
      accounts_fine.2 ann_stays
