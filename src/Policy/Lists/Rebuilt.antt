-- ===== src/Policy/Lists/Rebuilt.antt =====
-- The blocking state after a request to `handleBlocklists` or `handleBlockGroups` of policy_api.go.
use moreno_dnsleaf.Prelude.{
  true, not, List, [], ◌∷◌, Option, none, some, any, All, ◌≡◌, refl, arith, if-cases,
}
use moreno_dnsleaf.Prelude.Text.{Str, str_eq, str_eq_refl, is_empty, trim_space, equal_fold}
use moreno_dnsleaf.Deps.{Regex}
use moreno_dnsleaf.Config.{Config, BlockGroup}
use moreno_dnsleaf.Rules.{normalize_domain_rule}
use moreno_dnsleaf.Blocking.{Blocking, flag}
use moreno_dnsleaf.Blocking.Invariant.{IsValid}
use moreno_dnsleaf.Loading.{or_text, rebuild_blocklists}
use moreno_dnsleaf.Loading.Reading.{Sources}
use moreno_dnsleaf.Loading.Rules.{has_rule}
use moreno_dnsleaf.Loading.Rebuild.{rebuild_blocklists-IsRebuilt}
use moreno_dnsleaf.Guard.{Panel}
use moreno_dnsleaf.Policy.Enforced.{IsBlocked, IsEnforced}
use moreno_dnsleaf.Policy.Lists.{
  ListRequest, GroupRequest, ListReply, get_lists, post_list, patch_list, delete_list,
  other_list_method, get_groups, post_group, delete_group, other_group_method, lists, groups,
  failed, ListChange, find_list, find_group, group_of, rebuild_panel, post_list_body, patch_list_at,
  patch_list_body, delete_list_body, handle_blocklists, save_group, post_group_body,
  delete_group_body, handle_block_groups,
}

-- The rules of the configuration are blocked, and the parts of the blocking state agree.
abbrev pub IsInStep : Panel → Type 0
IsInStep p = IsEnforced p × IsValid p.blocking

All-IsBlocked :
    (b : Blocking) (rules all : List Str)
    → ((k : Str) → has_rule k all ≡ true → flag k b.blocked ≡ true)
    → ((k : Str) → has_rule k rules ≡ true → has_rule k all ≡ true)
    → All (IsBlocked b) rules
All-IsBlocked b [] all blocked within = tt
All-IsBlocked b (r ∷ rules) all blocked within =
    let k = normalize_domain_rule r in
    (
      ground (arith, blocked k, within k, str_eq_refl k),
      All-IsBlocked b rules all blocked (λ j h. within j (ground arith)),
    )

module _ (re : Regex) (hostname : Str → Option Str) (files : Sources) where
  rebuild_panel-IsInStep :
      (p : Panel) (cfg : Config) → IsInStep (rebuild_panel re hostname files p cfg)
  unfolding rebuild_panel
  rebuild_panel-IsInStep p cfg =
      let (flags, names, valid) =
        (rebuild_blocklists-IsRebuilt re hostname files cfg p.blocking).0 in
      (
        All-IsBlocked (rebuild_blocklists re hostname files cfg p.blocking).1 cfg.blocked
            cfg.blocked (λ k h. ground (arith, flags k)) (λ k h. h),
        valid,
      )

  -- A failure with the panel as it was, or a panel in step and a file as before.
  abbrev pub IsDone : Panel → Panel × ListReply → Type 0
  IsDone p (q, failed status) = q ≡ p
  IsDone p (q, lists ls) = q ≡ p
  IsDone p (q, groups gs) = q ≡ p
  IsDone p (q, reply) = IsInStep q × (q.stored ≡ p.stored)

  rebuilt-IsDone :
      (p : Panel) (cfg : Config)
      → IsInStep (rebuild_panel re hostname files p cfg)
        × ((rebuild_panel re hostname files p cfg).stored ≡ p.stored)
  rebuilt-IsDone p cfg = (rebuild_panel-IsInStep p cfg, unfold rebuild_panel in refl)

  patch_list_at-IsDone :
      (p : Panel) (body : ListChange) (at : Option _)
      → IsDone p (patch_list_at re hostname files p body at)
  unfolding patch_list_at
  patch_list_at-IsDone p body none = refl
  patch_list_at-IsDone p body (some i) = rebuilt-IsDone p _

  save_group-IsDone :
      (p : Panel) (group : BlockGroup) (match : Str) (found : Option _)
      → IsDone p (save_group re hostname files p group match found)
  unfolding save_group
  save_group-IsDone p group match none = rebuilt-IsDone p _
  save_group-IsDone p group match (some (i, old)) = rebuilt-IsDone p _

  handle_blocklists-IsDone :
      (r : ListRequest) (p : Panel) → IsDone p (handle_blocklists re hostname files r p)
  unfolding handle_blocklists post_list_body patch_list_body delete_list_body
  handle_blocklists-IsDone get_lists p = refl
  handle_blocklists-IsDone (post_list none) p = refl
  handle_blocklists-IsDone (post_list (some body)) p =
      if-cases (IsDone p) (is_empty (trim_space body.source)) refl (rebuilt-IsDone p _)
  handle_blocklists-IsDone (patch_list none) p = refl
  handle_blocklists-IsDone (patch_list (some body)) p =
      if-cases (IsDone p) (is_empty (trim_space body.source)) refl
        (patch_list_at-IsDone p body (find_list (trim_space body.source) 0 p.cfg.blocklists))
  handle_blocklists-IsDone (delete_list none) p = refl
  handle_blocklists-IsDone (delete_list (some body)) p =
      if-cases (IsDone p)
        (not (any (λ list. str_eq list.source (trim_space body)) p.cfg.blocklists)) refl
        (rebuilt-IsDone p _)
  handle_blocklists-IsDone other_list_method p = refl

  handle_block_groups-IsDone :
      (r : GroupRequest) (p : Panel) → IsDone p (handle_block_groups re hostname files r p)
  unfolding handle_block_groups post_group_body delete_group_body
  handle_block_groups-IsDone get_groups p = refl
  handle_block_groups-IsDone (post_group none) p = refl
  handle_block_groups-IsDone (post_group (some body)) p =
      let match = or_text (trim_space body.old_name) (trim_space body.name) in
      if-cases (IsDone p) (is_empty (trim_space body.name)) refl
        (save_group-IsDone p (group_of body) match (find_group match 0 p.cfg.block_groups))
  handle_block_groups-IsDone (delete_group none) p = refl
  handle_block_groups-IsDone (delete_group (some body)) p =
      if-cases (IsDone p)
        (not (any (λ group. equal_fold group.name (trim_space body)) p.cfg.block_groups)) refl
        (rebuilt-IsDone p _)
  handle_block_groups-IsDone other_group_method p = refl

  -- A request to `handleBlocklists` or `handleBlockGroups` that fails or asks for the lists or groups
  -- leaves the panel as it was; any other leaves each rule of the configuration blocked, the parts of
  -- the blocking state in agreement, whatever they were before, and the file unwritten.
  pub list_handlers-IsDone :
      (r : ListRequest) (s : GroupRequest) (p : Panel)
      → IsDone p (handle_blocklists re hostname files r p)
        × IsDone p (handle_block_groups re hostname files s p)
  list_handlers-IsDone r s p = (handle_blocklists-IsDone r p, handle_block_groups-IsDone s p)
