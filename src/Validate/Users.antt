-- ===== src/Validate/Users.antt =====
-- The users that `validateConfig` (config.go) accepts.
use moreno_dnsleaf.Prelude.{
  ℕ, suc, Bool, true, false, ◌||◌, List, [], ◌∷◌, any, All, ◌≡◌, ◌↔◌, refl, arith, or-eq-false, sym,
  ◌∙◌,
}
use moreno_dnsleaf.Prelude.Map.{Map, get, put, get-put}
use moreno_dnsleaf.Prelude.Text.{Str, str_eq, to_lower}
use moreno_dnsleaf.Config.{UserAuth}
use moreno_dnsleaf.Blocking.{flag}
use moreno_dnsleaf.Auth.Users.{valid_username, is_role}
use moreno_dnsleaf.Validate.{user_issues_at, user_issues}
use moreno_dnsleaf.Validate.Report.{concat, is_blank, issue_if}
use moreno_dnsleaf.Validate.Issues.{append-eq-nil}

-- Two users of the same name, in upper or lower case.
abbrev pub is_same_name : UserAuth → UserAuth → Bool
is_same_name user other = str_eq (to_lower user.username) (to_lower other.username)

abbrev pub HasDistinctNames : List UserAuth → Type 0
HasDistinctNames [] = Unit
HasDistinctNames (user ∷ users) = (any (is_same_name user) users ≡ false) × HasDistinctNames users

abbrev pub IsGoodUser : UserAuth → Type 0
IsGoodUser user =
    (valid_username user.username ≡ true)
    × (is_role user.role ≡ true)
    × (is_blank user.password_hash ≡ false)

abbrev IsNew : Map Bool → UserAuth → Type 0
IsNew seen user = flag (to_lower user.username) seen ≡ false

user_issues_at-good :
    (seen : Map Bool) (i : ℕ) (user : UserAuth)
    → user_issues_at seen i user ≡ []
    → IsGoodUser user × IsNew seen user
user_issues_at-good seen i user h = unfold user_issues_at concat issue_if in ground arith

user_issues_at-of_good :
    (seen : Map Bool) (i : ℕ) (user : UserAuth)
    → IsGoodUser user
    → IsNew seen user
    → user_issues_at seen i user ≡ []
user_issues_at-of_good seen i user (name, role, hash) new =
    unfold user_issues_at concat issue_if in rw (name, role, hash, new)

flag-put : (seen : Map Bool) (k j : Str) → flag j (put k true seen) ≡ (str_eq k j || flag j seen)
flag-put seen k j = unfold flag in ground (arith, get-put k j true seen)

-- What is new after `user` is new before it and has another name.
IsNew-put :
    (seen : Map Bool) (user : UserAuth) (users : List UserAuth)
    → All (IsNew (put (to_lower user.username) true seen)) users
    → (any (is_same_name user) users ≡ false) × All (IsNew seen) users
IsNew-put seen user [] h = (refl, tt)
IsNew-put seen user (other ∷ users) (first, rest) =
    let flags = sym (flag-put seen (to_lower user.username) (to_lower other.username)) ∙ first in
    let (differs, new) =
      or-eq-false (is_same_name user other) (flag (to_lower other.username) seen) flags in
    let (others, news) = IsNew-put seen user users rest in (rw (differs, others), (new, news))

IsNew-of_put :
    (seen : Map Bool) (user : UserAuth) (users : List UserAuth)
    → any (is_same_name user) users ≡ false
    → All (IsNew seen) users
    → All (IsNew (put (to_lower user.username) true seen)) users
IsNew-of_put seen user [] differ new = tt
IsNew-of_put seen user (other ∷ users) differ (first, rest) =
    let (differs, others) =
      or-eq-false (is_same_name user other) (any (is_same_name user) users) differ in
    (
      flag-put seen (to_lower user.username) (to_lower other.username) ∙ rw (differs, first),
      IsNew-of_put seen user users others rest,
    )

user_issues-good :
    (seen : Map Bool) (i : ℕ) (users : List UserAuth)
    → user_issues seen i users ≡ []
    → All IsGoodUser users × HasDistinctNames users × All (IsNew seen) users
unfolding user_issues
user_issues-good seen i [] h = (tt, tt, tt)
user_issues-good seen i (user ∷ users) h =
    let (first, rest) = append-eq-nil (user_issues_at seen i user) _ h in
    let (good, new) = user_issues_at-good seen i user first in
    let (goods, distinct, news) =
      user_issues-good (put (to_lower user.username) true seen) (suc i) users rest in
    let (differ, news) = IsNew-put seen user users news in
    ((good, goods), (differ, distinct), (new, news))

user_issues-of_good :
    (seen : Map Bool) (i : ℕ) (users : List UserAuth)
    → All IsGoodUser users
    → HasDistinctNames users
    → All (IsNew seen) users
    → user_issues seen i users ≡ []
unfolding user_issues
user_issues-of_good seen i [] good distinct new = refl
user_issues-of_good seen i (user ∷ users) (good, goods) (differ, distinct) (new, news) = rw (
  user_issues_at-of_good seen i user good new,
  user_issues-of_good (put (to_lower user.username) true seen) (suc i) users goods distinct
      (IsNew-of_put seen user users differ news),
)

All-IsNew_nil : (users : List UserAuth) → All (IsNew []) users
All-IsNew_nil [] = tt
All-IsNew_nil (user ∷ users) = (unfold flag get in refl, All-IsNew_nil users)

-- `validateConfig` has no issue with the users exactly when each has a valid name, a known role and a
-- hash, and no two names are equal when case is ignored.
pub user_issues-eq-nil_iff :
    (users : List UserAuth)
    → (user_issues [] 0 users ≡ []) ↔ (All IsGoodUser users × HasDistinctNames users)
user_issues-eq-nil_iff users = (
  λ h. let (good, distinct, new) = user_issues-good [] 0 users h in (good, distinct),
  λ (good, distinct). user_issues-of_good [] 0 users good distinct (All-IsNew_nil users),
)
