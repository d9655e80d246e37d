-- ===== src/Auth/Users/Names.antt =====
-- The names of the users of `handleUsers` (runtime_api.go).
use moreno_dnsleaf.Prelude.{
  Bool, true, false, ◌&&◌, List, [], ◌∷◌, Option, none, some, leb, any, is_some, ◌≡◌, ◌⊎◌, refl,
  arith, Bool-cases, inl, inr, ap, ◌∙◌, sym, or-eq-false,
}
use moreno_dnsleaf.Prelude.Text.{
  Str, str_eq, str_eq_iff, eq_of_str_eq, trim_space, equal_fold, to_lower,
}
use moreno_dnsleaf.Config.{UserAuth}
use moreno_dnsleaf.Auth.Sessions.{SessionTable}
use moreno_dnsleaf.Auth.Users.{
  find_user, admin_count, Accounts, NewUser, UserChange, UserRequest, append_user, replace_user,
  remove_user, create_user, renames, changed_user, demotes, change_found, change_user, drop_found,
  handle_users, get_users, post_user, patch_user, delete_user, other_method, new_user,
  role_or_viewer,
}
use moreno_dnsleaf.Auth.Users.Admins.{find_user-name}

abbrev has_name : Str → List UserAuth → Bool
has_name username users = any (λ e. str_eq e.username username) users

-- No two users have the same name.
abbrev pub HasUniqueNames : List UserAuth → Type 0
HasUniqueNames [] = Unit
HasUniqueNames (user ∷ users) = (has_name user.username users ≡ false) × HasUniqueNames users

find_user-has_name :
    (username : Str) (users : List UserAuth)
    → is_some (find_user username users) ≡ has_name username users
unfolding find_user
find_user-has_name username [] = refl
find_user-has_name username (first ∷ users) = ground (arith, find_user-has_name username users)

str_eq-sym : (a b : Str) → str_eq a b ≡ false → str_eq b a ≡ false
str_eq-sym a b h = ground (arith, str_eq_iff a b, str_eq_iff b a)

has_name-append :
    (k : Str) (user : UserAuth) (users : List UserAuth)
    → has_name k users ≡ false
    → str_eq user.username k ≡ false
    → has_name k (append_user user users) ≡ false
unfolding append_user
has_name-append k user [] h n = ground arith
has_name-append k user (first ∷ users) h n = ground (arith, has_name-append k user users)

append-HasUniqueNames :
    (user : UserAuth) (users : List UserAuth)
    → HasUniqueNames users
    → has_name user.username users ≡ false
    → HasUniqueNames (append_user user users)
unfolding append_user
append-HasUniqueNames user [] u h = (refl, tt)
append-HasUniqueNames user (first ∷ users) u h = (
  has_name-append first.username user users u.0
      (ground (arith, h, str_eq-sym first.username user.username)),
  append-HasUniqueNames user users u.1 (ground arith),
)

has_name-replace :
    (k username : Str) (user : UserAuth) (users : List UserAuth)
    → has_name k users ≡ false
    → str_eq user.username k ≡ false
    → has_name k (replace_user username user users) ≡ false
unfolding replace_user
has_name-replace k username user [] h n = refl
has_name-replace k username user (first ∷ users) h n =
    ground (arith, has_name-replace k username user users)

-- The new name is free, or it is the old one.
abbrev IsFree : UserAuth → Str → List UserAuth → Type 0
IsFree user username users =
    (has_name user.username users ≡ false) ⊎ (str_eq user.username username ≡ true)

module _ (username : Str) (user first : UserAuth) (users : List UserAuth) where
  IsFree-tail : IsFree user username (first ∷ users) → IsFree user username users
  IsFree-tail (inl free) = inl (or-eq-false _ _ free).1
  IsFree-tail (inr same) = inr same

  free_here :
      IsFree user username (first ∷ users)
      → str_eq first.username username ≡ true
      → has_name first.username users ≡ false
      → has_name user.username users ≡ false
  free_here (inl free) here u = (or-eq-false _ _ free).1
  free_here (inr same) here u =
      let as_first =
        eq_of_str_eq user.username username same
        ∙ sym (eq_of_str_eq first.username username here) in
      ap (λ n. has_name n users) as_first ∙ u

  free_there :
      IsFree user username (first ∷ users)
      → str_eq first.username username ≡ false
      → str_eq user.username first.username ≡ false
  free_there (inl free) there = str_eq-sym first.username user.username (or-eq-false _ _ free).0
  free_there (inr same) there =
      ap (λ n. str_eq n first.username) (eq_of_str_eq user.username username same)
      ∙ str_eq-sym first.username username there

replace-HasUniqueNames :
    (username : Str) (user : UserAuth) (users : List UserAuth)
    → HasUniqueNames users
    → IsFree user username users
    → HasUniqueNames (replace_user username user users)
unfolding replace_user
replace-HasUniqueNames username user [] u f = tt
replace-HasUniqueNames username user (first ∷ users) u f =
    elim (Bool-cases (str_eq first.username username)) [
      | inl here ↦ rw here (free_here username user first users f here u.0, u.1)
      | inr there ↦ rw there (
        has_name-replace first.username username user users u.0
            (free_there username user first users f there),
        replace-HasUniqueNames username user users u.1 (IsFree-tail username user first users f),
      )
    ]

has_name-remove :
    (k username : Str) (users : List UserAuth)
    → has_name k users ≡ false
    → has_name k (remove_user username users) ≡ false
unfolding remove_user
has_name-remove k username [] h = refl
has_name-remove k username (first ∷ users) h = ground (arith, has_name-remove k username users)

remove-HasUniqueNames :
    (username : Str) (users : List UserAuth)
    → HasUniqueNames users
    → HasUniqueNames (remove_user username users)
unfolding remove_user
remove-HasUniqueNames username [] u = tt
remove-HasUniqueNames username (first ∷ users) u =
    elim (Bool-cases (str_eq first.username username)) [
      | inl here ↦ rw here u.1
      | inr there ↦ rw there (
        has_name-remove first.username username users u.0,
        remove-HasUniqueNames username users u.1,
      )
    ]

equal_fold_of_str_eq : (a b : Str) → str_eq a b ≡ true → str_eq (to_lower a) (to_lower b) ≡ true
equal_fold_of_str_eq a b h =
    (str_eq_iff (to_lower a) (to_lower b)).1 (ap to_lower (eq_of_str_eq a b h))

-- Names that differ in case too are free in particular.
has_name-fold :
    (k : Str) (users : List UserAuth)
    → any (λ e. equal_fold e.username k) users ≡ false
    → has_name k users ≡ false
unfolding equal_fold
has_name-fold k [] h = refl
has_name-fold k (first ∷ users) h =
    ground (arith, has_name-fold k users, equal_fold_of_str_eq first.username k)

module _ (range : SessionTable → SessionTable) (password_hash : Str → Str) (created_at : Str) where
  create_user-HasUniqueNames :
      (a : Accounts) (body : NewUser)
      → HasUniqueNames a.users
      → HasUniqueNames (create_user range password_hash created_at a body).0.users
  unfolding create_user new_user
  create_user-HasUniqueNames a body u =
      let username = trim_space body.username in
      let role = role_or_viewer (trim_space body.role) in
      let user = new_user range password_hash created_at username role body.password in
      let has = find_user-has_name username a.users in
      let more = append-HasUniqueNames user a.users u in ground (arith, has, more)

  changed_user-IsFree :
      (body : UserChange) (user : UserAuth) (username : Str) (users : List UserAuth)
      → str_eq user.username username ≡ true
      → (renames (trim_space body.new_username) user
          && any (λ e. equal_fold e.username (trim_space body.new_username)) users)
        ≡ false
      → IsFree (changed_user range password_hash created_at body user) username users
  unfolding changed_user
  changed_user-IsFree body user username users same no_clash =
      elim (Bool-cases (renames (trim_space body.new_username) user)) [
        | inl e ↦ inl (
            rw e (has_name-fold (trim_space body.new_username) users (ground (arith, e, no_clash))))
        | inr e ↦ inr (rw e same)
      ]

  change_found-HasUniqueNames :
      (a : Accounts) (body : UserChange) (username : Str) (found : Option UserAuth)
      → find_user username a.users ≡ found
      → HasUniqueNames a.users
      → HasUniqueNames (change_found range password_hash created_at a body username found).0.users
  unfolding change_found
  change_found-HasUniqueNames a body username none f u = u
  change_found-HasUniqueNames a body username (some user) f u =
      let updated = changed_user range password_hash created_at body user in
      let same = find_user-name username a.users user f in
      elim (Bool-cases (demotes body user && leb (admin_count a.users) 1)) [
        | inl last ↦ rw last u
        | inr allowed ↦
            rw allowed
              (elim (Bool-cases (
                renames (trim_space body.new_username) user
                && any (λ e. equal_fold e.username (trim_space body.new_username)) a.users)) [
                  | inl clash ↦ rw clash u
                  | inr fine ↦ rw fine (
                      replace-HasUniqueNames username updated a.users u
                        (changed_user-IsFree body user username a.users same fine))
                ])
      ]

  change_user-HasUniqueNames :
      (a : Accounts) (body : UserChange)
      → HasUniqueNames a.users
      → HasUniqueNames (change_user range password_hash created_at a body).0.users
  unfolding change_user
  change_user-HasUniqueNames a body u =
      let username = trim_space body.username in
      let found = change_found-HasUniqueNames a body username (find_user username a.users) refl u in
      ground (arith, found)

  drop_found-HasUniqueNames :
      (a : Accounts) (username : Str) (found : Option UserAuth)
      → HasUniqueNames a.users
      → HasUniqueNames (drop_found range password_hash created_at a username found).0.users
  unfolding drop_found
  drop_found-HasUniqueNames a username none u = u
  drop_found-HasUniqueNames a username (some user) u =
      ground (arith, remove-HasUniqueNames username a.users u)

  -- Whatever is asked, user names that were unique stay unique.
  pub handle_users-HasUniqueNames :
      (a : Accounts) (request : UserRequest)
      → HasUniqueNames a.users
      → HasUniqueNames (handle_users range password_hash created_at a request).0.users
  unfolding handle_users
  handle_users-HasUniqueNames a get_users u = u
  handle_users-HasUniqueNames a (post_user none) u = u
  handle_users-HasUniqueNames a (post_user (some body)) u = create_user-HasUniqueNames a body u
  handle_users-HasUniqueNames a (patch_user none) u = u
  handle_users-HasUniqueNames a (patch_user (some body)) u = change_user-HasUniqueNames a body u
  handle_users-HasUniqueNames a (delete_user none) u = u
  handle_users-HasUniqueNames a (delete_user (some username)) u =
      drop_found-HasUniqueNames a (trim_space username) (find_user (trim_space username) a.users) u
  handle_users-HasUniqueNames a other_method u = u
