-- ===== src/Policy/Lists/Groups.antt =====
-- The groups that the lists name: `handleBlockGroups` of policy_api.go.
use moreno_dnsleaf.Prelude.{
  ℕ, not, List, [], ◌∷◌, Option, none, some, map, any, All, ◌≡◌, refl, sym, if-cases,
}
use moreno_dnsleaf.Prelude.Text.{Str, is_empty, trim_space, equal_fold}
use mathlib.Core.Path.{subst}
use moreno_dnsleaf.Deps.{Regex}
use moreno_dnsleaf.Config.{Config, BlocklistSource, BlockGroup}
use moreno_dnsleaf.Loading.{or_text, rebuild_blocklists}
use moreno_dnsleaf.Loading.Reading.{Sources}
use moreno_dnsleaf.Loading.Bookkeeping.{settings, rebuild_blocklists-settings}
use moreno_dnsleaf.Guard.{Panel}
use moreno_dnsleaf.Policy.Lists.{
  GroupRequest, ListReply, get_groups, post_group, delete_group, other_group_method, find_group,
  group_of, rebuild_panel, save_group, post_group_body, delete_group_body, handle_block_groups,
}
use moreno_dnsleaf.Policy.Lists.Renamed.{
  AreGroups, All-keep_groups, All-append_groups, All-rename_groups,
}

-- Each group that a list names is there.
abbrev pub HasGroups : Config → Type 0
HasGroups cfg = All (λ list. AreGroups cfg.block_groups list.groups) cfg.blocklists

abbrev AllSettings : (List Str → Type 0) → List BlocklistSource → Type 0
AllSettings P ls = All (λ s. P s.4) (map settings ls)

All-to_settings :
    (P : List Str → Type 0) (ls : List BlocklistSource)
    → All (λ list. P list.groups) ls
    → AllSettings P ls
All-to_settings P [] h = tt
All-to_settings P (list ∷ ls) (first, rest) = (first, All-to_settings P ls rest)

All-of_settings :
    (P : List Str → Type 0) (ls : List BlocklistSource)
    → AllSettings P ls
    → All (λ list. P list.groups) ls
All-of_settings P [] h = tt
All-of_settings P (list ∷ ls) (first, rest) = (first, All-of_settings P ls rest)

module _ (re : Regex) (hostname : Str → Option Str) (files : Sources) where
  rebuild_panel-HasGroups :
      (p : Panel) (cfg : Config)
      → HasGroups cfg
      → HasGroups (rebuild_panel re hostname files p cfg).cfg
  unfolding rebuild_panel
  rebuild_panel-HasGroups p cfg h =
      All-of_settings (AreGroups cfg.block_groups)
        (rebuild_blocklists re hostname files cfg p.blocking).0
        (subst (All (λ s. AreGroups cfg.block_groups s.4))
          (sym (rebuild_blocklists-settings re hostname files cfg p.blocking))
          (All-to_settings (AreGroups cfg.block_groups) cfg.blocklists h))

module _ (re : Regex) (hostname : Str → Option Str) (files : Sources) where
  save_group-HasGroups :
      (p : Panel) (group : BlockGroup) (match : Str) (found : Option (ℕ × BlockGroup))
      → find_group match 0 p.cfg.block_groups ≡ found
      → HasGroups p.cfg
      → HasGroups (save_group re hostname files p group match found).0.cfg
  unfolding save_group
  save_group-HasGroups p group match none e h =
      rebuild_panel-HasGroups re hostname files p _
        (All-append_groups p.cfg.block_groups group p.cfg.blocklists h)
  save_group-HasGroups p group match (some (j, old)) e h =
      rebuild_panel-HasGroups re hostname files p _
        (All-rename_groups match group old j p.cfg.block_groups p.cfg.blocklists e h)

  -- `handleBlockGroups` keeps that each group that a list names is there: a renamed group is renamed
  -- in the lists, and a deleted one is taken out of them.
  pub handle_block_groups-HasGroups :
      (r : GroupRequest) (p : Panel)
      → HasGroups p.cfg
      → HasGroups (handle_block_groups re hostname files r p).0.cfg
  unfolding handle_block_groups post_group_body delete_group_body
  handle_block_groups-HasGroups get_groups p h = h
  handle_block_groups-HasGroups (post_group none) p h = h
  handle_block_groups-HasGroups (post_group (some body)) p h =
      let match = or_text (trim_space body.old_name) (trim_space body.name) in
      if-cases (λ (x : Panel × ListReply). HasGroups x.0.cfg) (is_empty (trim_space body.name)) h
        (save_group-HasGroups p (group_of body) match (find_group match 0 p.cfg.block_groups) refl
          h)
  handle_block_groups-HasGroups (delete_group none) p h = h
  handle_block_groups-HasGroups (delete_group (some body)) p h =
      if-cases (λ (x : Panel × ListReply). HasGroups x.0.cfg)
        (not (any (λ group. equal_fold group.name (trim_space body)) p.cfg.block_groups)) h
        (rebuild_panel-HasGroups re hostname files p _
          (All-keep_groups p.cfg.block_groups (trim_space body) p.cfg.blocklists h))
  handle_block_groups-HasGroups other_group_method p h = h
