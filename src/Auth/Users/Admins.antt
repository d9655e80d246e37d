-- ===== src/Auth/Users/Admins.antt =====
-- The administrators among the users of `handleUsers` (runtime_api.go).
use moreno_dnsleaf.Prelude.{
  ℕ, ◌+◌, ◌≤◌, Bool, true, false, List, [], ◌∷◌, Option, none, some, if◌then◌else◌, ◌≡◌, refl,
  arith, Bool-cases, inl, inr, ap, ◌∙◌, sym,
}
use mathlib.Core.Option.{some-injective}
use moreno_dnsleaf.Prelude.Text.{Str, codes, str_eq, is_empty, trim_space}
use moreno_dnsleaf.Config.{UserAuth}
use moreno_dnsleaf.Auth.Sessions.{SessionTable}
use moreno_dnsleaf.Auth.Users.{
  find_user, is_admin, admin_count, Accounts, NewUser, UserChange, UserRequest, UserReply, is_role,
  append_user, replace_user, remove_user, create_user, changed_user, demotes, change_found,
  change_user, drop_found, handle_users, get_users, post_user, patch_user, delete_user,
  other_method, new_user, role_or_viewer,
}

admin_count-append :
    (user : UserAuth) (users : List UserAuth)
    → admin_count users ≤ admin_count (append_user user users)
unfolding admin_count append_user
admin_count-append user [] = omega arith
admin_count-append user (first ∷ users) = ground (arith, admin_count-append user users)

pub found_head :
    (username : Str) (first user : UserAuth) (users : List UserAuth)
    → str_eq first.username username ≡ true
    → find_user username (first ∷ users) ≡ some user
    → first ≡ user
unfolding find_user
found_head username first user users here h =
    let e : some first ≡ some user = ground (arith, here, h) in some-injective first user e

pub found_tail :
    (username : Str) (first user : UserAuth) (users : List UserAuth)
    → str_eq first.username username ≡ false
    → find_user username (first ∷ users) ≡ some user
    → find_user username users ≡ some user
unfolding find_user
found_tail username first user users there h = ground (arith, there, h)

pub find_user-name :
    (username : Str) (users : List UserAuth) (user : UserAuth)
    → find_user username users ≡ some user
    → str_eq user.username username ≡ true
unfolding find_user
find_user-name username [] user h = ground arith
find_user-name username (first ∷ users) user h =
    elim (Bool-cases (str_eq first.username username)) [
      | inl here ↦
          ap (λ u. str_eq u.username username) (sym (found_head username first user users here h))
          ∙ here
      | inr there ↦
          find_user-name username users user (found_tail username first user users there h)
    ]

one_if : Bool → ℕ
one_if b = if b then 1 else 0

admin_count-replace :
    (username : Str) (updated user : UserAuth) (users : List UserAuth)
    → find_user username users ≡ some user
    → admin_count (replace_user username updated users) + one_if (is_admin user)
      ≡ admin_count users + one_if (is_admin updated)
unfolding find_user replace_user admin_count one_if
admin_count-replace username updated user [] h = ground arith
admin_count-replace username updated user (first ∷ users) h =
    elim (Bool-cases (str_eq first.username username)) [
      | inl here ↦ rw here (
          ground
            (arith, ap (λ u. one_if (is_admin u)) (found_head username first user users here h)))
      | inr there ↦ rw there (
          omega (
            arith,
            admin_count-replace username updated user users
                (found_tail username first user users there h),
          ))
    ]

admin_count-remove :
    (username : Str) (user : UserAuth) (users : List UserAuth)
    → find_user username users ≡ some user
    → admin_count (remove_user username users) + one_if (is_admin user) ≡ admin_count users
unfolding find_user remove_user admin_count one_if
admin_count-remove username user [] h = ground arith
admin_count-remove username user (first ∷ users) h =
    elim (Bool-cases (str_eq first.username username)) [
      | inl here ↦ rw here (
          ground
            (arith, ap (λ u. one_if (is_admin u)) (found_head username first user users here h)))
      | inr there ↦ rw there (
          omega (
            arith,
            admin_count-remove username user users (found_tail username first user users there h),
          ))
    ]

abbrev HasAdmin : Accounts × UserReply → Type 0
HasAdmin result = 1 ≤ admin_count result.0.users

is_role-nonempty : (role : Str) → is_role role ≡ true → is_empty role ≡ false
unfolding is_role is_empty str_eq
is_role-nonempty [] h = ground arith
is_role-nonempty (c ∷ cs) h = refl

admin_after :
    (body : UserChange) (user : UserAuth)
    → is_admin user ≡ true
    → demotes body user ≡ false
    → str_eq (if is_role body.role then body.role else user.role) (codes "admin") ≡ true
unfolding demotes
admin_after body user a d = elim (Bool-cases (is_role body.role)) [
  | inl role ↦ rw role (ground (arith, a, d, is_role-nonempty body.role role))
  | inr none_given ↦ rw none_given a
]

module _ (range : SessionTable → SessionTable) (password_hash : Str → Str) (created_at : Str) where
  create_user-HasAdmin :
      (a : Accounts) (body : NewUser)
      → 1 ≤ admin_count a.users
      → HasAdmin (create_user range password_hash created_at a body)
  unfolding create_user
  create_user-HasAdmin a body h =
      let role = role_or_viewer (trim_space body.role) in
      let user =
        new_user range password_hash created_at (trim_space body.username) role body.password in
      ground (arith, admin_count-append user a.users)

  changed_user-is_admin :
      (body : UserChange) (user : UserAuth)
      → is_admin user ≡ true
      → demotes body user ≡ false
      → is_admin (changed_user range password_hash created_at body user) ≡ true
  unfolding changed_user
  changed_user-is_admin body user a d = admin_after body user a d

  change_found-HasAdmin :
      (a : Accounts) (body : UserChange) (username : Str) (found : Option UserAuth)
      → find_user username a.users ≡ found
      → 1 ≤ admin_count a.users
      → HasAdmin (change_found range password_hash created_at a body username found)
  unfolding change_found one_if
  change_found-HasAdmin a body username none f h = h
  change_found-HasAdmin a body username (some user) f h =
      let updated = changed_user range password_hash created_at body user in
      let count = admin_count-replace username updated user a.users f in
      let still = changed_user-is_admin body user in ground (arith, count, still)

  change_user-HasAdmin :
      (a : Accounts) (body : UserChange)
      → 1 ≤ admin_count a.users
      → HasAdmin (change_user range password_hash created_at a body)
  unfolding change_user
  change_user-HasAdmin a body h =
      let username = trim_space body.username in
      let found = change_found-HasAdmin a body username (find_user username a.users) refl h in
      ground (arith, found)

  drop_found-HasAdmin :
      (a : Accounts) (username : Str) (found : Option UserAuth)
      → find_user username a.users ≡ found
      → 1 ≤ admin_count a.users
      → HasAdmin (drop_found range password_hash created_at a username found)
  unfolding drop_found one_if
  drop_found-HasAdmin a username none f h = h
  drop_found-HasAdmin a username (some user) f h =
      ground (arith, admin_count-remove username user a.users f)

  -- Whatever is asked, an administrator remains if there was one.
  pub handle_users-admin_count :
      (a : Accounts) (request : UserRequest)
      → 1 ≤ admin_count a.users
      → 1 ≤ admin_count (handle_users range password_hash created_at a request).0.users
  unfolding handle_users
  handle_users-admin_count a get_users h = h
  handle_users-admin_count a (post_user none) h = h
  handle_users-admin_count a (post_user (some body)) h = create_user-HasAdmin a body h
  handle_users-admin_count a (patch_user none) h = h
  handle_users-admin_count a (patch_user (some body)) h = change_user-HasAdmin a body h
  handle_users-admin_count a (delete_user none) h = h
  handle_users-admin_count a (delete_user (some username)) h =
      drop_found-HasAdmin a (trim_space username) (find_user (trim_space username) a.users) refl h
  handle_users-admin_count a other_method h = h
