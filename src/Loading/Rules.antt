-- ===== src/Loading/Rules.antt =====
-- Which rules a load adds to the blocking state: `loadOneBlocklist` and the loops over it in
-- blocklists.go.
use moreno_dnsleaf.Prelude.{
  ℕ, suc, Bool, true, false, not, ◌&&◌, ◌||◌, List, [], ◌∷◌, ◌++◌, Option, none, some,
  if◌then◌else◌, keep, any, ◌≡◌, refl, ap, sym, ◌∙◌, arith, inl, inr, Bool-cases, if-cases,
  append_nil, append_assoc,
}
use moreno_dnsleaf.Prelude.Int.{pos}
use moreno_dnsleaf.Prelude.Text.{Str, str_eq, is_empty, trim_space}
use moreno_dnsleaf.Deps.{Regex}
use moreno_dnsleaf.Config.{Config, BlocklistSource}
use moreno_dnsleaf.Rules.{normalize_domain_rule, is_pattern_rule}
use moreno_dnsleaf.Blocking.{Blocking, flag, add_blocked_rule}
use moreno_dnsleaf.Blocking.Invariant.{IsValid, add_blocked_rule-IsValid, add_blocked_rule_lem}
use moreno_dnsleaf.Loading.{
  text_or_empty, Loading, add_counted, domains_of, load_domains, load_copy, load_read,
  load_one_blocklist, load_list, load_lists,
}
use moreno_dnsleaf.Loading.Reading.{
  Failure, ReadResult, Sources, is_remote_blocklist_source, read_blocklist_source,
}

-- Whether a rule is the normal form of one of the list.
abbrev pub has_rule : Str → List Str → Bool
has_rule k rules =
    any (λ r. not (is_empty (normalize_domain_rule r)) && str_eq (normalize_domain_rule r) k) rules

pub flag-add_blocked_rule :
    (b : Blocking) (rule source k : Str)
    → flag k (add_blocked_rule b rule source).0.blocked ≡ (
        (not (is_empty (normalize_domain_rule rule)) && str_eq (normalize_domain_rule rule) k)
        || flag k b.blocked)
flag-add_blocked_rule b rule source k = elim (Bool-cases (is_empty (normalize_domain_rule rule))) [
  | inl nothing ↦ unfold add_blocked_rule in rw nothing
  | inr something ↦ rw something ((add_blocked_rule_lem b rule source k something).0)
]

pub flag-add_counted :
    (rules : List Str) (b : Blocking) (source k : Str)
    → flag k (add_counted b rules source).0.blocked ≡ (flag k b.blocked || has_rule k rules)
unfolding add_counted
flag-add_counted [] b source k = ground arith
flag-add_counted (rule ∷ rules) b source k = ground (
  arith,
  flag-add_counted rules (add_blocked_rule b rule source).0 source k,
  flag-add_blocked_rule b rule source k,
)

pub add_counted-IsValid :
    (rules : List Str) (b : Blocking) (source : Str)
    → IsValid b
    → IsValid (add_counted b rules source).0
unfolding add_counted
add_counted-IsValid [] b source v = v
add_counted-IsValid (rule ∷ rules) b source v =
    add_counted-IsValid rules (add_blocked_rule b rule source).0 source
      (add_blocked_rule-IsValid b rule source v)

pub gravity-add_blocked_rule :
    (b : Blocking) (rule source : Str) → ((add_blocked_rule b rule source).0).gravity ≡ b.gravity
unfolding add_blocked_rule
gravity-add_blocked_rule b rule source =
    if-cases (λ (r : Blocking × Bool). (r.0).gravity ≡ b.gravity)
      (is_empty (normalize_domain_rule rule)) refl refl

gravity-add_counted :
    (rules : List Str) (b : Blocking) (source : Str)
    → ((add_counted b rules source).0).gravity ≡ b.gravity
unfolding add_counted
gravity-add_counted [] b source = refl
gravity-add_counted (rule ∷ rules) b source =
    gravity-add_counted rules (add_blocked_rule b rule source).0 source
    ∙ gravity-add_blocked_rule b rule source

append_if :
    (b : Bool) (xs ys : List Str) → (if b then xs ++ ys else xs) ≡ xs ++ (if b then ys else [])
append_if true xs ys = refl
append_if false xs ys = sym (append_nil xs)

module _ (re : Regex) (hostname : Str → Option Str) (files : Sources) (cfg : Config) where
  -- The text that a list is loaded from, if there is one.
  abbrev pub usable : ReadResult → Option Failure → Option Str
  usable result none = some (text_or_empty result.content)
  usable result (some failure) = if failure.is_not_exist then none else result.content

  abbrev pub content_of : Bool → BlocklistSource → Option Str
  content_of force src =
      let result = read_blocklist_source files (trim_space src.source) force in
      if not src.enabled || is_empty (trim_space src.source)
      then none
      else usable result result.failure

  abbrev pub is_remote : BlocklistSource → Bool
  is_remote src = is_remote_blocklist_source (trim_space src.source)

  -- The rules of a list: all of a local list, the patterns of a remote one.
  abbrev pub rules_from : BlocklistSource → Option Str → List Str
  rules_from src o = elim o [
    | none ↦ []
    | some content ↦
        let domains = domains_of re hostname files cfg src (some content) in
        if is_remote src then keep is_pattern_rule domains else domains
  ]

  -- The plain names of a remote list, which go to the sorted array.
  abbrev pub names_from : BlocklistSource → Option Str → List Str
  names_from src o = elim o [
    | none ↦ []
    | some content ↦
        let domains = domains_of re hostname files cfg src (some content) in
        if is_remote src then keep (λ domain. not (is_pattern_rule domain)) domains else []
  ]

  abbrev pub rules_of : Bool → BlocklistSource → List Str
  rules_of force src = rules_from src (content_of force src)

  abbrev pub names_of : Bool → BlocklistSource → List Str
  names_of force src = names_from src (content_of force src)

  -- What one list does to the state: its rules are added, and its names.
  abbrev pub IsLoaded : Loading → List Str → List Str → Loading → Type 0
  IsLoaded l rules names result =
      ((k : Str) → flag k result.blocking.blocked ≡ (flag k l.blocking.blocked || has_rule k rules))
      × (result.gravity_exact ≡ l.gravity_exact ++ names)
      × (result.blocking.gravity ≡ l.blocking.gravity)
      × (IsValid l.blocking → IsValid result.blocking)

  load_domains-IsLoaded :
      (src : BlocklistSource) (result : ReadResult) (content : Str) (l : Loading)
      → IsLoaded l
          (rules_from src (some content))
          (names_from src (some content))
          (load_domains re hostname files cfg src result
            (domains_of re hostname files cfg src (some content))
            l).1
  unfolding load_domains
  load_domains-IsLoaded src result content l = (
    λ k. flag-add_counted _ l.blocking _ k,
    append_if (is_remote src) l.gravity_exact _,
    gravity-add_counted _ l.blocking _,
    add_counted-IsValid _ l.blocking _,
  )

  nothing-IsLoaded : (l : Loading) → IsLoaded l [] [] l
  nothing-IsLoaded l = (λ k. ground arith, sym (append_nil l.gravity_exact), refl, λ v. v)

  load_copy-IsLoaded :
      (src : BlocklistSource) (result : ReadResult) (message : Str) (copy : Option Str)
      (l : Loading)
      → IsLoaded l
          (rules_from src copy)
          (names_from src copy)
          (load_copy re hostname files cfg src result message copy l).1
  unfolding load_copy domains_of
  load_copy-IsLoaded src result message none l = nothing-IsLoaded l
  load_copy-IsLoaded src result message (some content) l =
      load_domains-IsLoaded (record src { last_error = message }) result content l

  load_read-IsLoaded :
      (src : BlocklistSource) (result : ReadResult) (failure : Option Failure) (l : Loading)
      → IsLoaded l
          (rules_from src (usable result failure))
          (names_from src (usable result failure))
          (load_read re hostname files cfg src result failure l).1
  unfolding load_read domains_of
  load_read-IsLoaded src result none l =
      load_domains-IsLoaded src result (text_or_empty result.content) l
  load_read-IsLoaded src result (some failure) l = elim (Bool-cases failure.is_not_exist) [
    | inl missing ↦ rw missing (nothing-IsLoaded l)
    | inr other ↦ rw other (load_copy-IsLoaded src result failure.message result.content l)
  ]

  -- The rules and names of a list that the load leaves out are none.
  abbrev pub when : Bool → List Str → List Str
  when included rules = if included then rules else []

  load_list-IsLoaded :
      (include : BlocklistSource → Bool) (force : Bool) (src : BlocklistSource) (l : Loading)
      → IsLoaded l
          (when (include src) (rules_of force src))
          (when (include src) (names_of force src))
          (load_list re hostname files cfg include force src l).1
  unfolding load_list load_one_blocklist domains_of
  load_list-IsLoaded include force src l = elim (Bool-cases (include src)) [
    | inr excluded ↦ rw excluded (nothing-IsLoaded l)
    | inl included ↦ rw included (elim (Bool-cases src.enabled) [
      | inr disabled ↦ rw disabled (nothing-IsLoaded l)
      | inl enabled ↦ rw enabled (elim (Bool-cases (is_empty (trim_space src.source))) [
        | inl no_source ↦ rw no_source (nothing-IsLoaded l)
        | inr source ↦ rw source (
            load_read-IsLoaded
              (record src {
                enabled = true;
                last_loaded = 0;
                last_error = [];
                last_checked = files.now_text;
                cache_age = pos 0;
              })
              (read_blocklist_source files (trim_space src.source) force) _ l)
      ])
    ])
  ]

  -- All lists, one after the other.
  abbrev pub all_of :
      (BlocklistSource → List Str) → (BlocklistSource → Bool) → List BlocklistSource → List Str
  all_of f include [] = []
  all_of f include (src ∷ lists) = when (include src) (f src) ++ all_of f include lists

  has_rule-append :
      (k : Str) (xs ys : List Str) → has_rule k (xs ++ ys) ≡ (has_rule k xs || has_rule k ys)
  has_rule-append k [] ys = ground arith
  has_rule-append k (x ∷ xs) ys = ground (arith, has_rule-append k xs ys)

  pub load_lists-IsLoaded :
      (include : BlocklistSource → Bool) (force : Bool) (i : ℕ) (lists : List BlocklistSource)
      (l : Loading)
      → IsLoaded l
          (all_of (rules_of force) include lists)
          (all_of (names_of force) include lists)
          (load_lists re hostname files cfg include (λ i. force) i lists l).1
  unfolding load_lists
  load_lists-IsLoaded include force i [] l = nothing-IsLoaded l
  load_lists-IsLoaded include force i (src ∷ lists) l =
      let (flags, exact, gravity, valid) = load_list-IsLoaded include force src l in
      let next = (load_list re hostname files cfg include force src l).1 in
      let (rest_flags, rest_exact, rest_gravity, rest_valid) =
        load_lists-IsLoaded include force (suc i) lists next in
      (
        λ k.
            rest_flags k
            ∙ ground (
              arith,
              flags k,
              has_rule-append k (when (include src) (rules_of force src))
                  (all_of (rules_of force) include lists),
            ),
        rest_exact
            ∙ ap (λ e. e ++ all_of (names_of force) include lists) exact
            ∙ append_assoc l.gravity_exact (when (include src) (names_of force src))
                (all_of (names_of force) include lists),
        rest_gravity ∙ gravity,
        λ v. rest_valid (valid v),
      )
