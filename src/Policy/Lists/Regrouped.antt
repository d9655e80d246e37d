-- ===== src/Policy/Lists/Regrouped.antt =====
-- The names of groups in the lists after a request to `handleBlockGroups` of policy_api.go.
use moreno_dnsleaf.Prelude.{
  ℕ, Bool, true, false, not, List, [], ◌∷◌, Option, none, some, map, keep, any, if◌then◌else◌, ◌≡◌,
  refl, ap, sym, ◌∙◌, Bool-cases, inl, inr,
}
use moreno_dnsleaf.Prelude.Text.{Str, str_eq, is_empty, trim_space, equal_fold}
use moreno_dnsleaf.Deps.{Regex}
use moreno_dnsleaf.Config.{Config, BlocklistSource, BlockGroup}
use moreno_dnsleaf.Loading.{or_text, rebuild_blocklists}
use moreno_dnsleaf.Loading.Reading.{Sources}
use moreno_dnsleaf.Loading.Bookkeeping.{settings, rebuild_blocklists-settings}
use moreno_dnsleaf.Guard.{Panel}
use moreno_dnsleaf.Policy.Lists.{
  GroupRequest, ListReply, get_groups, post_group, delete_group, other_group_method, find_group,
  rename_group, rename_groups, without_group, group_of, rebuild_panel, save_group, post_group_body,
  delete_group_body, handle_block_groups,
}
use moreno_dnsleaf.Policy.Lists.Groups.{HasGroups, handle_block_groups-HasGroups}

-- The names of the groups of each list.
abbrev pub group_names : List BlocklistSource → List (List Str)
group_names ls = map (λ list. list.groups) ls

-- A name where the group that was found is saved under a new name, in upper or lower case.
abbrev pub new_group_name : Option (ℕ × BlockGroup) → Str → Str → Str
new_group_name none name = λ g. g
new_group_name (some (i, old)) name =
    λ g. if str_eq old.name name then g else if equal_fold g old.name then name else g

-- The names of a list after a request.
abbrev pub names_after : GroupRequest → Config → List Str → List Str
names_after (post_group (some body)) cfg names =
    let match = or_text (trim_space body.old_name) (trim_space body.name) in
    if is_empty (trim_space body.name)
    then names
    else map (new_group_name (find_group match 0 cfg.block_groups) (trim_space body.name)) names
names_after (delete_group (some text)) cfg names =
    if any (λ group. equal_fold group.name (trim_space text)) cfg.block_groups
    then keep (λ g. not (equal_fold g (trim_space text))) names
    else names
names_after r cfg names = names

map_same : {A : Type 0} (f : A → A) (xs : List A) → ((x : A) → f x ≡ x) → map f xs ≡ xs
map_same f [] h = refl
map_same f (x ∷ xs) h = rw (h x, map_same f xs h) refl

group_names-settings :
    (ls : List BlocklistSource) → group_names ls ≡ map (λ s. s.4) (map settings ls)
group_names-settings [] = refl
group_names-settings (list ∷ ls) = ap (λ rest. list.groups ∷ rest) (group_names-settings ls)

group_names-rename_group :
    (old name : Str) (ls : List BlocklistSource)
    → group_names (map (rename_group old name) ls)
      ≡ map (λ list. map (λ g. if equal_fold g old then name else g) list.groups) ls
unfolding rename_group
group_names-rename_group old name [] = refl
group_names-rename_group old name (list ∷ ls) =
    ap (λ rest. map (λ g. if equal_fold g old then name else g) list.groups ∷ rest)
      (group_names-rename_group old name ls)

group_names-without_group :
    (name : Str) (ls : List BlocklistSource)
    → group_names (map (without_group name) ls)
      ≡ map (λ list. keep (λ g. not (equal_fold g name)) list.groups) ls
unfolding without_group
group_names-without_group name [] = refl
group_names-without_group name (list ∷ ls) =
    ap (λ rest. keep (λ g. not (equal_fold g name)) list.groups ∷ rest)
      (group_names-without_group name ls)

map_same_names :
    (f : Str → Str) (ls : List BlocklistSource)
    → ((g : Str) → f g ≡ g)
    → group_names ls ≡ map (λ list. map f list.groups) ls
map_same_names f [] h = refl
map_same_names f (list ∷ ls) h = rw (map_same f list.groups h, ← map_same_names f ls h) refl

group_names-rename_unless :
    (same : Bool) (old name : Str) (ls : List BlocklistSource)
    → group_names (if not same then map (rename_group old name) ls else ls)
      ≡ map
          (λ list. map (λ g. if same then g else if equal_fold g old then name else g) list.groups)
          ls
group_names-rename_unless true old name ls = map_same_names (λ g. g) ls (λ g. refl)
group_names-rename_unless false old name ls = group_names-rename_group old name ls

group_names-rename_groups :
    (i : ℕ) (old : BlockGroup) (name : Str) (ls : List BlocklistSource)
    → group_names (rename_groups old.name name ls)
      ≡ map (λ list. map (new_group_name (some (i, old)) name) list.groups) ls
unfolding rename_groups
group_names-rename_groups i old name ls =
    group_names-rename_unless (str_eq old.name name) old.name name ls

module _ (re : Regex) (hostname : Str → Option Str) (files : Sources) where
  rebuild_panel-group_names :
      (p : Panel) (cfg : Config)
      → group_names (rebuild_panel re hostname files p cfg).cfg.blocklists
        ≡ group_names cfg.blocklists
  unfolding rebuild_panel
  rebuild_panel-group_names p cfg =
      let rebuilt = (rebuild_blocklists re hostname files cfg p.blocking).0 in
      group_names-settings rebuilt
      ∙ ap (map (λ s. s.4)) (rebuild_blocklists-settings re hostname files cfg p.blocking)
      ∙ sym (group_names-settings cfg.blocklists)

  -- The lists of a panel after a request are those before it, with other names of groups.
  abbrev pub IsRegrouped : GroupRequest → Panel → Panel × ListReply → Type 0
  IsRegrouped r p x =
      group_names x.0.cfg.blocklists
      ≡ map (λ list. names_after r p.cfg list.groups) p.cfg.blocklists

  save_group-IsRegrouped :
      (p : Panel) (group : BlockGroup) (match : Str) (found : Option (ℕ × BlockGroup))
      → group_names (save_group re hostname files p group match found).0.cfg.blocklists
        ≡ map (λ list. map (new_group_name found group.name) list.groups) p.cfg.blocklists
  unfolding save_group
  save_group-IsRegrouped p group match none =
      rebuild_panel-group_names p _
      ∙ map_same_names (new_group_name none group.name) p.cfg.blocklists (λ g. refl)
  save_group-IsRegrouped p group match (some (i, old)) =
      rebuild_panel-group_names p _ ∙ group_names-rename_groups i old group.name p.cfg.blocklists

  handle_block_groups-IsRegrouped :
      (r : GroupRequest) (p : Panel) → IsRegrouped r p (handle_block_groups re hostname files r p)
  unfolding handle_block_groups post_group_body delete_group_body group_of
  handle_block_groups-IsRegrouped get_groups p = refl
  handle_block_groups-IsRegrouped (post_group none) p = refl
  handle_block_groups-IsRegrouped (post_group (some body)) p =
      let match = or_text (trim_space body.old_name) (trim_space body.name) in
      elim (Bool-cases (is_empty (trim_space body.name))) [
        | inl blank ↦ rw blank refl
        | inr named ↦
            rw named (
              save_group-IsRegrouped p (group_of body) match
                (find_group match 0 p.cfg.block_groups))
      ]
  handle_block_groups-IsRegrouped (delete_group none) p = refl
  handle_block_groups-IsRegrouped (delete_group (some body)) p =
      elim (Bool-cases
        (any (λ group. equal_fold group.name (trim_space body)) p.cfg.block_groups)) [
          | inl there ↦ rw there (
              rebuild_panel-group_names p _
              ∙ group_names-without_group (trim_space body) p.cfg.blocklists)
          | inr missing ↦ rw missing refl
        ]
  handle_block_groups-IsRegrouped other_group_method p = refl

  -- `handleBlockGroups` keeps that each group that a list names is there, and its requests change the
  -- names in the lists as follows: a POST that saves a group under a new name puts this name, in each
  -- list, in the place of the old one, which is compared without case; a DELETE of a group takes its
  -- name, in any case, out of each list; and every other request, and one that fails, leaves the names.
  pub handle_block_groups-IsKept :
      (r : GroupRequest) (p : Panel)
      → HasGroups p.cfg
      → HasGroups (handle_block_groups re hostname files r p).0.cfg
        × IsRegrouped r p (handle_block_groups re hostname files r p)
  handle_block_groups-IsKept r p h =
      (handle_block_groups-HasGroups re hostname files r p h, handle_block_groups-IsRegrouped r p)
