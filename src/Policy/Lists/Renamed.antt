-- ===== src/Policy/Lists/Renamed.antt =====
-- The names of groups under a new, a renamed and a removed group (policy_api.go).
use moreno_dnsleaf.Prelude.{
  ℕ, suc, Bool, true, false, not, List, [], ◌∷◌, ◌++◌, Option, none, some, map, keep, if◌then◌else◌,
  any, All, ◌≡◌, ap, sym, ◌∙◌, arith, Bool-cases, inl, inr,
}
use moreno_dnsleaf.Prelude.Text.{
  Str, str_eq, str_eq_iff, str_eq_refl, eq_of_str_eq, equal_fold, to_lower,
}
use moreno_dnsleaf.Config.{BlocklistSource, BlockGroup}
use moreno_dnsleaf.Policy.Lists.{
  find_group, replace_group, rename_group, rename_groups, without_group,
}

-- A name that a group has, in upper or lower case.
abbrev pub is_group : List BlockGroup → Str → Bool
is_group gs name = any (λ group. equal_fold name group.name) gs

abbrev pub AreGroups : List BlockGroup → List Str → Type 0
AreGroups gs names = All (λ name. is_group gs name ≡ true) names

is_group-append :
    (gs : List BlockGroup) (group : BlockGroup) (name : Str)
    → is_group gs name ≡ true
    → is_group (gs ++ group ∷ []) name ≡ true
is_group-append [] group name h = ground arith
is_group-append (g ∷ gs) group name h = ground (arith, is_group-append gs group name)

-- Equality that ignores case carries over.
fold-lem : (a b c : Str) → equal_fold a b ≡ true → equal_fold a c ≡ equal_fold b c
fold-lem a b c h =
    unfold equal_fold in
    ap (λ x. str_eq x (to_lower c))
      (eq_of_str_eq (to_lower a) (to_lower b) (unfold equal_fold in h))

fold_sym : (a b : Str) → equal_fold a b ≡ equal_fold b a
fold_sym a b =
    unfold equal_fold in
    ground (arith, str_eq_iff (to_lower a) (to_lower b), str_eq_iff (to_lower b) (to_lower a))

-- A name that is not that of the removed groups keeps its group.
is_group-keep :
    (gs : List BlockGroup) (gone name : Str)
    → equal_fold name gone ≡ false
    → is_group gs name ≡ true
    → is_group (keep (λ group. not (equal_fold group.name gone)) gs) name ≡ true
is_group-keep [] gone name other h = h
is_group-keep (g ∷ gs) gone name other h =
    ground (arith, is_group-keep gs gone name other, fold-lem name g.name gone)

keep-AreGroups :
    (gs : List BlockGroup) (gone : Str) (names : List Str)
    → AreGroups gs names
    → AreGroups
        (keep (λ group. not (equal_fold group.name gone)) gs)
        (keep (λ g. not (equal_fold g gone)) names)
keep-AreGroups gs gone [] h = tt
keep-AreGroups gs gone (name ∷ names) (first, rest) = elim (Bool-cases (equal_fold name gone)) [
  | inl same ↦ rw same (keep-AreGroups gs gone names rest)
  | inr other ↦ rw other (is_group-keep gs gone name other first, keep-AreGroups gs gone names rest)
]

pub All-keep_groups :
    (gs : List BlockGroup) (gone : Str) (ls : List BlocklistSource)
    → All (λ list. AreGroups gs list.groups) ls
    → All
        (λ list. AreGroups (keep (λ group. not (equal_fold group.name gone)) gs) list.groups)
        (map (without_group gone) ls)
unfolding without_group
All-keep_groups gs gone [] h = tt
All-keep_groups gs gone (list ∷ ls) (first, rest) =
    (keep-AreGroups gs gone list.groups first, All-keep_groups gs gone ls rest)

append-AreGroups :
    (gs : List BlockGroup) (group : BlockGroup) (names : List Str)
    → AreGroups gs names
    → AreGroups (gs ++ group ∷ []) names
append-AreGroups gs group [] h = tt
append-AreGroups gs group (name ∷ names) (first, rest) =
    (is_group-append gs group name first, append-AreGroups gs group names rest)

pub All-append_groups :
    (gs : List BlockGroup) (group : BlockGroup) (ls : List BlocklistSource)
    → All (λ list. AreGroups gs list.groups) ls
    → All (λ list. AreGroups (gs ++ group ∷ []) list.groups) ls
All-append_groups gs group [] h = tt
All-append_groups gs group (list ∷ ls) (first, rest) =
    (append-AreGroups gs group list.groups first, All-append_groups gs group ls rest)

equal_fold_refl : (a : Str) → equal_fold a a ≡ true
equal_fold_refl a = unfold equal_fold in str_eq_refl (to_lower a)

found_name : Option (ℕ × BlockGroup) → Str
found_name none = []
found_name (some (i, group)) = group.name

found-here :
    (match : Str) (i j : ℕ) (g old : BlockGroup) (gs : List BlockGroup)
    → equal_fold g.name match ≡ true
    → find_group match i (g ∷ gs) ≡ some (j, old)
    → g.name ≡ old.name
unfolding find_group found_name
found-here match i j g old gs here found =
    ap (λ b. found_name (if b then some (i, g) else find_group match (suc i) gs)) (sym here)
    ∙ ap found_name found

found-later :
    (match : Str) (i j : ℕ) (g old : BlockGroup) (gs : List BlockGroup)
    → equal_fold g.name match ≡ false
    → find_group match i (g ∷ gs) ≡ some (j, old)
    → find_group match (suc i) gs ≡ some (j, old)
unfolding find_group
found-later match i j g old gs later found =
    ap (λ b. if b then some (i, g) else find_group match (suc i) gs) (sym later) ∙ found

-- The new group is there, and so is the group of each name that is not the old one.
is_group-replace_group :
    (match : Str) (group old : BlockGroup) (i j : ℕ) (gs : List BlockGroup) (name : Str)
    → find_group match i gs ≡ some (j, old)
    → (is_group (replace_group match group gs) group.name ≡ true)
      × (is_group gs name ≡ true
          → equal_fold name old.name ≡ false
          → is_group (replace_group match group gs) name ≡ true)
unfolding find_group replace_group
is_group-replace_group match group old i j [] name found = ground arith
is_group-replace_group match group old i j (g ∷ gs) name found =
    elim (Bool-cases (equal_fold g.name match)) [
      | inl here ↦ rw here (
        ground (arith, equal_fold_refl group.name),
        λ h other.
            ground
              (arith, h, ap (equal_fold name) (found-here match i j g old gs here found), other),
      )
      | inr later ↦
          let (new, rest) =
            is_group-replace_group match group old (suc i) j gs name
              (found-later match i j g old gs later found) in
          rw later (ground (arith, new), λ h other. ground (arith, rest))
    ]

module _ (match : Str) (group old : BlockGroup) (j : ℕ) (gs : List BlockGroup) where
  -- A name and what the renaming makes of it.
  is_group-renamed :
      (name : Str)
      → find_group match 0 gs ≡ some (j, old)
      → is_group gs name ≡ true
      → is_group
          (replace_group match group gs)
          (if equal_fold name old.name then group.name else name)
        ≡ true
  is_group-renamed name found h =
      let (new, others) = is_group-replace_group match group old 0 j gs name found in
      elim (Bool-cases (equal_fold name old.name)) [
        | inl same ↦ rw same new
        | inr other ↦ rw other (others h other)
      ]

  is_group-by_name :
      (a b : Str) (hs : List BlockGroup)
      → equal_fold a b ≡ true
      → is_group hs b ≡ true
      → is_group hs a ≡ true
  is_group-by_name a b [] same h = h
  is_group-by_name a b (g ∷ hs) same h =
      ground (arith, fold-lem a b g.name same, is_group-by_name a b hs same)

  -- Where the name stays the same, no name changes.
  is_group-kept :
      (name : Str)
      → find_group match 0 gs ≡ some (j, old)
      → str_eq old.name group.name ≡ true
      → is_group gs name ≡ true
      → is_group (replace_group match group gs) name ≡ true
  is_group-kept name found same_name h =
      let (new, others) = is_group-replace_group match group old 0 j gs name found in
      elim (Bool-cases (equal_fold name old.name)) [
        | inl same ↦
            is_group-by_name name group.name (replace_group match group gs)
              (rw (← eq_of_str_eq old.name group.name same_name) same) new
        | inr other ↦ others h other
      ]

  renamed-AreGroups :
      (names : List Str)
      → find_group match 0 gs ≡ some (j, old)
      → AreGroups gs names
      → AreGroups
          (replace_group match group gs)
          (map (λ g. if equal_fold g old.name then group.name else g) names)
  renamed-AreGroups [] found h = tt
  renamed-AreGroups (name ∷ names) found (first, rest) =
      (is_group-renamed name found first, renamed-AreGroups names found rest)

  kept-AreGroups :
      (names : List Str)
      → find_group match 0 gs ≡ some (j, old)
      → str_eq old.name group.name ≡ true
      → AreGroups gs names
      → AreGroups (replace_group match group gs) names
  kept-AreGroups [] found same h = tt
  kept-AreGroups (name ∷ names) found same (first, rest) =
      (is_group-kept name found same first, kept-AreGroups names found same rest)

  All-renamed :
      (ls : List BlocklistSource)
      → find_group match 0 gs ≡ some (j, old)
      → All (λ list. AreGroups gs list.groups) ls
      → All
          (λ list. AreGroups (replace_group match group gs) list.groups)
          (map (rename_group old.name group.name) ls)
  unfolding rename_group
  All-renamed [] found h = tt
  All-renamed (list ∷ ls) found (first, rest) =
      (renamed-AreGroups list.groups found first, All-renamed ls found rest)

  All-kept :
      (ls : List BlocklistSource)
      → find_group match 0 gs ≡ some (j, old)
      → str_eq old.name group.name ≡ true
      → All (λ list. AreGroups gs list.groups) ls
      → All (λ list. AreGroups (replace_group match group gs) list.groups) ls
  All-kept [] found same h = tt
  All-kept (list ∷ ls) found same (first, rest) =
      (kept-AreGroups list.groups found same first, All-kept ls found same rest)

  pub All-rename_groups :
      (ls : List BlocklistSource)
      → find_group match 0 gs ≡ some (j, old)
      → All (λ list. AreGroups gs list.groups) ls
      → All
          (λ list. AreGroups (replace_group match group gs) list.groups)
          (rename_groups old.name group.name ls)
  unfolding rename_groups
  All-rename_groups ls found h = elim (Bool-cases (str_eq old.name group.name)) [
    | inl same ↦ rw same (All-kept ls found same h)
    | inr other ↦ rw other (All-renamed ls found h)
  ]
