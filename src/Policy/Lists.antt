-- ===== src/Policy/Lists.antt =====
-- The lists and groups of the panel: `handleBlocklists`, `handleBlocklistEntries`, `handleBlockGroups`,
-- `cleanNames` and `cleanRules` of policy_api.go. A list in a body that JSON leaves out is `none`.
pub mod Clean
pub mod Rebuilt
pub mod Groups
pub mod Regrouped
pub mod Renamed
use moreno_dnsleaf.Prelude.{
  ℕ, zero, suc, ◌-◌, Bool, true, false, not, ◌&&◌, ◌||◌, List, [], ◌∷◌, ◌++◌, Option, none, some,
  map, if◌then◌else◌, ltb, length, get_elem?, get_or, keep, any,
}
use moreno_dnsleaf.Prelude.Map.{Map, get, put}
use moreno_dnsleaf.Prelude.Text.{Str, codes, str_eq, is_empty, trim_space, to_lower, equal_fold}
use moreno_dnsleaf.Deps.{Regex}
use moreno_dnsleaf.Config.{Config, BlocklistSource, BlockGroup}
use moreno_dnsleaf.Rules.{normalize_domain_rule}
use moreno_dnsleaf.Gravity.{normalized_domains}
use moreno_dnsleaf.Blocking.{Blocking, flag}
use moreno_dnsleaf.Loading.{or_text, rebuild_blocklists, loading_program}
use moreno_dnsleaf.Loading.Reading.{Sources}
use moreno_dnsleaf.Guard.{Panel}

-- The loop of `cleanNames` and of `cleanRules`: the normal forms that are not empty, each once by its
-- key in the map `seen`.
unfoldable pub clean_from : (Str → Str) → (Str → Str) → Map Bool → List Str → List Str
clean_from normal key seen [] = []
clean_from normal key seen (raw ∷ items) =
    let item = normal raw in
    let skipped = clean_from normal key seen items in
    let rest = clean_from normal key (put (key item) true seen) items in
    if is_empty item || flag (key item) seen then skipped else item ∷ rest

unfoldable pub clean_names : List Str → List Str
clean_names items = clean_from trim_space to_lower [] items

unfoldable pub clean_rules : List Str → List Str
clean_rules items = clean_from normalize_domain_rule (λ item. item) [] items

pub record ListChange : Type 0 where
  pub name : Str
  pub source : Str
  pub enabled : Bool
  pub allowlist : Option (List Str)
  pub groups : Option (List Str)

pub record GroupChange : Type 0 where
  pub old_name : Str
  pub name : Str
  pub domains : List Str
  pub sources : List Str

pub data ListRequest : Type 0 where
  get_lists : ListRequest
  post_list : Option BlocklistSource → ListRequest
  patch_list : Option ListChange → ListRequest
  delete_list : Option Str → ListRequest
  other_list_method : ListRequest

pub data GroupRequest : Type 0 where
  get_groups : GroupRequest
  post_group : Option GroupChange → GroupRequest
  delete_group : Option Str → GroupRequest
  other_group_method : GroupRequest

-- What a handler writes; an index of a list that is written is in range.
pub data ListReply : Type 0 where
  lists : List BlocklistSource → ListReply
  list_at : Option BlocklistSource → ListReply
  groups : List BlockGroup → ListReply
  one_group : BlockGroup → ListReply
  no_content : ListReply
  failed : ℕ → ListReply

abbrev pub set_lists : Config → List BlocklistSource → Config
set_lists cfg ls = record cfg { blocklists = ls }

-- The first list of an address: its place.
unfoldable pub find_list : Str → ℕ → List BlocklistSource → Option ℕ
find_list source i [] = none
find_list source i (list ∷ ls) =
    if str_eq list.source source then some i else find_list source (suc i) ls

unfoldable pub update_list :
    Str → (BlocklistSource → BlocklistSource) → List BlocklistSource → List BlocklistSource
update_list source f [] = []
update_list source f (list ∷ ls) =
    if str_eq list.source source then f list ∷ ls else list ∷ update_list source f ls

abbrev pub or_else {ℓ} : {A : Type ℓ} → Option A → A → A
or_else none other = other
or_else (some a) other = a

unfoldable pub change_list : ListChange → BlocklistSource → BlocklistSource
change_list body list = record list {
  name = or_text (trim_space body.name) list.name;
  enabled = body.enabled;
  allowlist = elim (body.allowlist) [
    | none ↦ list.allowlist
    | some items ↦ normalized_domains items
  ];
  groups = elim (body.groups) [ none ↦ list.groups | some items ↦ clean_names items ];
}

-- A posted list, with the name that it gets.
unfoldable pub new_list : BlocklistSource → BlocklistSource
new_list body = record body {
  name = or_text (trim_space body.name) (trim_space body.source);
  source = trim_space body.source;
  enabled = true;
}

unfoldable pub find_group : Str → ℕ → List BlockGroup → Option (ℕ × BlockGroup)
find_group name i [] = none
find_group name i (group ∷ gs) =
    if equal_fold group.name name then some (i, group) else find_group name (suc i) gs

unfoldable pub replace_group : Str → BlockGroup → List BlockGroup → List BlockGroup
replace_group name new [] = []
replace_group name new (group ∷ gs) =
    if equal_fold group.name name then new ∷ gs else group ∷ replace_group name new gs

unfoldable pub rename_group : Str → Str → BlocklistSource → BlocklistSource
rename_group old name list = record list {
  groups = map (λ g. if equal_fold g old then name else g) list.groups;
}

unfoldable pub rename_groups : Str → Str → List BlocklistSource → List BlocklistSource
rename_groups old name ls = if not (str_eq old name) then map (rename_group old name) ls else ls

unfoldable pub without_group : Str → BlocklistSource → BlocklistSource
without_group name list = record list { groups = keep (λ g. not (equal_fold g name)) list.groups }

-- The group that a body describes.
unfoldable pub group_of : GroupChange → BlockGroup
group_of body = record {
  name = trim_space body.name;
  domains = clean_rules body.domains;
  sources = clean_names body.sources;
}

module _ (re : Regex) (hostname : Str → Option Str) (files : Sources) where
  -- `rebuildBlocklists` on the panel.
  unfoldable pub rebuild_panel : Panel → Config → Panel
  rebuild_panel p cfg =
      let (ls, blocking) = rebuild_blocklists re hostname files cfg p.blocking in
      record p { cfg = set_lists cfg ls; blocking = blocking }

  unfoldable pub post_list_body : Panel → Option BlocklistSource → Panel × ListReply
  post_list_body p none = (p, failed 400)
  post_list_body p (some body) =
      let q = rebuild_panel p (set_lists p.cfg (p.cfg.blocklists ++ new_list body ∷ [])) in
      if is_empty (trim_space body.source)
      then (p, failed 400)
      else (q, list_at (get_elem? q.cfg.blocklists (length q.cfg.blocklists - 1)))

  unfoldable pub patch_list_at : Panel → ListChange → Option ℕ → Panel × ListReply
  patch_list_at p body none = (p, failed 404)
  patch_list_at p body (some i) =
      let changed = update_list (trim_space body.source) (change_list body) p.cfg.blocklists in
      let q = rebuild_panel p (set_lists p.cfg changed) in
      (q, list_at (get_elem? q.cfg.blocklists i))

  unfoldable pub patch_list_body : Panel → Option ListChange → Panel × ListReply
  patch_list_body p none = (p, failed 400)
  patch_list_body p (some body) =
      if is_empty (trim_space body.source)
      then (p, failed 400)
      else patch_list_at p body (find_list (trim_space body.source) 0 p.cfg.blocklists)

  unfoldable pub delete_list_body : Panel → Option Str → Panel × ListReply
  delete_list_body p none = (p, failed 400)
  delete_list_body p (some body) =
      let source = trim_space body in
      let left = keep (λ list. not (str_eq list.source source)) p.cfg.blocklists in
      if not (any (λ list. str_eq list.source source) p.cfg.blocklists)
      then (p, failed 404)
      else (rebuild_panel p (set_lists p.cfg left), no_content)

  unfoldable pub handle_blocklists : ListRequest → Panel → Panel × ListReply
  handle_blocklists get_lists p = (p, lists p.cfg.blocklists)
  handle_blocklists (post_list body) p = post_list_body p body
  handle_blocklists (patch_list body) p = patch_list_body p body
  handle_blocklists (delete_list body) p = delete_list_body p body
  handle_blocklists other_list_method p = (p, failed 405)

  unfoldable pub save_group : Panel → BlockGroup → Str → Option (ℕ × BlockGroup) → Panel × ListReply
  save_group p group match none = (
    rebuild_panel p (record (p.cfg) { block_groups = p.cfg.block_groups ++ group ∷ [] }),
    one_group group,
  )
  save_group p group match (some (i, old)) = (
    rebuild_panel p (record (p.cfg) {
      block_groups = replace_group match group p.cfg.block_groups;
      blocklists = rename_groups old.name group.name p.cfg.blocklists;
    }),
    one_group group,
  )

  unfoldable pub post_group_body : Panel → Option GroupChange → Panel × ListReply
  post_group_body p none = (p, failed 400)
  post_group_body p (some body) =
      let match = or_text (trim_space body.old_name) (trim_space body.name) in
      if is_empty (trim_space body.name)
      then (p, failed 400)
      else save_group p (group_of body) match (find_group match 0 p.cfg.block_groups)

  unfoldable pub delete_group_body : Panel → Option Str → Panel × ListReply
  delete_group_body p none = (p, failed 400)
  delete_group_body p (some body) =
      let name = trim_space body in
      if not (any (λ group. equal_fold group.name name) p.cfg.block_groups)
      then (p, failed 404)
      else (
        rebuild_panel p (record (p.cfg) {
          block_groups = keep (λ group. not (equal_fold group.name name)) p.cfg.block_groups;
          blocklists = map (without_group name) p.cfg.blocklists;
        }),
        no_content,
      )

  unfoldable pub handle_block_groups : GroupRequest → Panel → Panel × ListReply
  handle_block_groups get_groups p = (p, groups p.cfg.block_groups)
  handle_block_groups (post_group body) p = post_group_body p body
  handle_block_groups (delete_group body) p = delete_group_body p body
  handle_block_groups other_group_method p = (p, failed 405)

-- The address and the label of the list that a text names.
unfoldable pub named_list : Str → List BlocklistSource → Str × Str
named_list text [] = (text, text)
named_list text (list ∷ ls) =
    if equal_fold list.source text || equal_fold list.name text
    then (list.source, or_text list.name list.source)
    else named_list text ls

-- The domains at the indexes of a list, each once, with the set of those found.
unfoldable pub index_entries : List Str → List ℕ → Map Bool → List Str × Map Bool
index_entries gravity [] added = ([], added)
index_entries gravity (i ∷ is) added =
    let domain = get_or gravity i [] in
    let skipped = index_entries gravity is added in
    let (rest, all) = index_entries gravity is (put domain true added) in
    if not (ltb i (length gravity)) || is_empty domain || flag domain added
    then skipped
    else (domain ∷ rest, all)

-- The rules with that source, in the order of iteration.
unfoldable pub source_entries : Str → Str → Map Str → Map Bool → List Str
source_entries source label [] added = []
source_entries source label ((domain, src) ∷ order) added =
    let skipped = source_entries source label order added in
    let rest = source_entries source label order (put domain true added) in
    if flag domain added
    then skipped
    else if equal_fold src source || equal_fold src label
    then domain ∷ rest
    else skipped

-- `handleBlocklistEntries` for GET: the domains with the label of the list, `none` for an empty source.
unfoldable pub blocklist_entries :
    (Map Str → Map Str) → Config → Blocking → Str → Option (List Str × Str)
blocklist_entries range cfg b raw =
    let (source, label) = named_list (trim_space raw) cfg.blocklists in
    let (indexed, added) = index_entries b.gravity (or_else (get source b.gravity_by_list) []) [] in
    if is_empty (trim_space raw)
    then none
    else some (indexed ++ source_entries source label (range b.blocked_src) added, label)

-- For tests: all that a run of these functions computes with.
unfoldable pub lists_program : Unit {0}
unfolding loading_program clean_from clean_names clean_rules find_list update_list change_list
    new_list find_group replace_group rename_group rename_groups without_group group_of
    rebuild_panel post_list_body patch_list_at patch_list_body delete_list_body handle_blocklists
    save_group post_group_body delete_group_body handle_block_groups named_list index_entries
    source_entries blocklist_entries
lists_program = tt
