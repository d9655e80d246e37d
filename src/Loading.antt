-- ===== src/Loading.antt =====
-- The loading of blocklists: `loadOneBlocklist`, `loadBlocklistFiltered`, `loadBlocklistFilteredIndex`
-- and their callers in blocklists.go. Files and the network are the argument `Sources`; that a fetched
-- list is written to its cache file is left out, and so are the lines of progress. `loadOneBlocklist`
-- returns nil on each path, so that no load fails.
pub mod Rules
pub mod Rebuild
pub mod Targets
pub mod Bookkeeping
pub mod Reading
use moreno_dnsleaf.Prelude.{
  ℕ, zero, suc, ◌+◌, ◌-◌, Bool, true, false, not, ◌&&◌, ◌||◌, List, [], ◌∷◌, ◌++◌, Option, none,
  some, if◌then◌else◌, ltb, leb, ◌==◌, length, keep, any,
}
use moreno_dnsleaf.Prelude.Int.{ℤ, pos, negsuc, ltb_ℤ, leb_ℤ, pos_part}
use moreno_dnsleaf.Prelude.Number.{atoi}
use moreno_dnsleaf.Prelude.Map.{Map, put}
use moreno_dnsleaf.Prelude.Text.{Str, codes, str_eq, is_empty, trim_space, has_prefix, equal_fold}
use moreno_dnsleaf.Deps.{Regex}
use moreno_dnsleaf.Config.{Config, BlocklistSource, BlockGroup}
use moreno_dnsleaf.Rules.{is_pattern_rule, rule_matches}
use moreno_dnsleaf.Gravity.{dedup, normalized_domains, sort_strings}
use moreno_dnsleaf.Blocklist.{parse_blocklist, blocklist_program}
use moreno_dnsleaf.Blocking.{
  Blocking, reset_blocked, add_blocked_rule, init_blocked, finish_load, blocking_program,
}
use moreno_dnsleaf.Loading.Reading.{
  is_remote_blocklist_source, Failure, ReadResult, Fetch, Sources, max_blocklist_bytes, cached_copy,
  is_ok, fetched, recent_or, read_blocklist_source, no_answer, answered, broken,
}

unfoldable pub name_of_source : Str → List BlocklistSource → Str
name_of_source source [] = []
name_of_source source (list ∷ lists) =
    if str_eq list.source source then list.name else name_of_source source lists

-- `groupDomainsForSource`
unfoldable pub is_assigned : Str → Str → List Str → BlockGroup → Bool
is_assigned source list_name group_names group =
    any (λ s. str_eq s source || equal_fold s list_name) group.sources
    || any (λ name. equal_fold name group.name) group_names

unfoldable pub group_domains : Str → Str → List Str → List BlockGroup → List Str
group_domains source list_name group_names [] = []
group_domains source list_name group_names (group ∷ groups) =
    (if is_assigned source list_name group_names group then group.domains else [])
    ++ group_domains source list_name group_names groups

unfoldable pub group_domains_for_source : Config → Str → List Str → List Str
group_domains_for_source cfg source group_names =
    group_domains source (name_of_source source cfg.blocklists) group_names cfg.block_groups

-- `applyListAllowlist`
unfoldable pub apply_list_allowlist : Regex → List Str → List Str → List Str
apply_list_allowlist re domains allow =
    keep (λ domain. not (any (λ allowed. rule_matches re allowed domain) allow)) domains

-- The state of a load: the blocking state, `gravityExact` and `gravityByList`.
pub record Loading : Type 0 where
  pub blocking : Blocking
  pub gravity_exact : List Str
  pub by_list : Map (List Str)

-- The loops over `addBlockedRuleLocked`, with the number of new rules.
unfoldable pub add_counted : Blocking → List Str → Str → Blocking × ℕ
add_counted b [] source = (b, 0)
add_counted b (rule ∷ rules) source =
    let (first, added) = add_blocked_rule b rule source in
    let (rest, count) = add_counted first rules source in (rest, (if added then 1 else 0) + count)

abbrev pub text_or_empty : Option Str → Str
text_or_empty none = []
text_or_empty (some s) = s

abbrev pub or_text : Str → Str → Str
or_text s other = if is_empty s then other else s

unfoldable pub failed_source : BlocklistSource → Str → Str → BlocklistSource
failed_source src message now_text = record src { last_error = message; last_refreshed = now_text }

unfoldable pub index_list : BlocklistSource → List Str → Map (List Str) → Map (List Str)
index_list src [] by_list = by_list
index_list src (d ∷ ds) by_list =
    let source = trim_space src.source in
    let exact = dedup (normalized_domains (sort_strings (d ∷ ds))) in
    put (or_text src.name source) exact (put source exact by_list)

-- The age of a cache file, never negative.
unfoldable pub cache_age_of : Option ℤ → ℤ
cache_age_of none = pos 0
cache_age_of (some age) = if ltb_ℤ age (pos 0) then pos 0 else age

module _ (re : Regex) (hostname : Str → Option Str) (files : Sources) (cfg : Config) where
  unfoldable pub domains_of : BlocklistSource → Option Str → List Str
  domains_of src content =
      apply_list_allowlist re (parse_blocklist hostname (text_or_empty content)) src.allowlist
      ++ group_domains_for_source cfg (trim_space src.source) src.groups

  -- The end of `loadOneBlocklist`, with the rules of the list.
  unfoldable pub load_domains :
      BlocklistSource → ReadResult → List Str → Loading → BlocklistSource × Loading
  load_domains src result domains l =
      let source = trim_space src.source in
      let remote = is_remote_blocklist_source source in
      let exact = keep (λ domain. not (is_pattern_rule domain)) domains in
      let patterns = keep is_pattern_rule domains in
      let (blocking, count) =
        add_counted l.blocking (if remote then patterns else domains)
          (if remote then [] else or_text src.name source) in
      (
        record src {
          last_loaded = (if remote then length exact else 0) + count;
          last_refreshed = files.now_text;
          cache_age = if result.from_cache then cache_age_of (files.age source) else pos 0;
        },
        record {
          blocking = blocking;
          gravity_exact = if remote then l.gravity_exact ++ exact else l.gravity_exact;
          by_list = index_list src exact l.by_list;
        },
      )

  -- After an error that is not that of a missing file: a warning if there is a cached copy.
  unfoldable pub load_copy :
      BlocklistSource → ReadResult → Str → Option Str → Loading → BlocklistSource × Loading
  load_copy src result message none l = (failed_source src message files.now_text, l)
  load_copy src result message (some content) l =
      let warned = record src { last_error = message } in
      load_domains warned result (domains_of warned (some content)) l

  -- The part behind the reading of the source.
  unfoldable pub load_read :
      BlocklistSource → ReadResult → Option Failure → Loading → BlocklistSource × Loading
  load_read src result none l = load_domains src result (domains_of src result.content) l
  load_read src result (some failure) l =
      if failure.is_not_exist
      then (src, l)
      else load_copy src result failure.message result.content l

  unfoldable pub load_one_blocklist : BlocklistSource → Bool → Loading → BlocklistSource × Loading
  load_one_blocklist src force_remote l =
      let source = trim_space src.source in
      let checked = record src { last_checked = files.now_text; cache_age = pos 0 } in
      let result = read_blocklist_source files source force_remote in
      if is_empty source
      then (failed_source checked (codes "source required") files.now_text, l)
      else load_read checked result result.failure l

  -- One round of the loops over the lists.
  unfoldable pub load_list :
      (BlocklistSource → Bool) → Bool → BlocklistSource → Loading → BlocklistSource × Loading
  load_list include force src l =
      let cleared = record src { last_loaded = 0; last_error = [] } in
      if not (include src)
      then (src, l)
      else if not src.enabled
      then (cleared, l)
      else load_one_blocklist cleared force l

  unfoldable pub load_lists :
      (BlocklistSource → Bool)
      → (ℕ → Bool)
      → ℕ
      → List BlocklistSource
      → Loading
      → List BlocklistSource × Loading
  load_lists include force i [] l = ([], l)
  load_lists include force i (src ∷ lists) l =
      let (src, l) = load_list include (force i) src l in
      let (rest, l) = load_lists include force (suc i) lists l in (src ∷ rest, l)

  -- The lists with what the load notes of them, and the blocking state.
  unfoldable pub load_blocklist_filtered :
      (BlocklistSource → Bool) → (ℕ → Bool) → Blocking → List BlocklistSource × Blocking
  load_blocklist_filtered include force b =
      let (lists, l) =
        load_lists include force 0 cfg.blocklists
          (record { blocking = b; gravity_exact = []; by_list = [] }) in
      (lists, finish_load l.blocking l.gravity_exact l.by_list)

  -- `rebuildBlocklists` and `refreshGravity`
  unfoldable pub rebuild_blocklists : Blocking → List BlocklistSource × Blocking
  rebuild_blocklists b =
      load_blocklist_filtered (λ src. true) (λ i. false)
        (init_blocked cfg.blocked (reset_blocked b))

  unfoldable pub refresh_gravity : Blocking → List BlocklistSource × Blocking
  refresh_gravity b =
      load_blocklist_filtered (λ src. true) (λ i. true) (init_blocked cfg.blocked (reset_blocked b))

  unfoldable pub load_local_blocklists : Blocking → List BlocklistSource × Blocking
  load_local_blocklists b =
      load_blocklist_filtered (λ src. not (is_remote_blocklist_source src.source)) (λ i. false) b

  unfoldable pub load_remote_blocklists : Blocking → List BlocklistSource × Blocking
  load_remote_blocklists b =
      load_blocklist_filtered (λ src. is_remote_blocklist_source src.source) (λ i. false) b

-- The list of a target: a number from 1, or 0, or a name or an address.
unfoldable pub index_of_name : Str → ℕ → List BlocklistSource → Option ℕ
index_of_name target i [] = none
index_of_name target i (list ∷ lists) =
    if equal_fold list.name target || equal_fold list.source target
    then some i
    else index_of_name target (suc i) lists

unfoldable pub index_of_number : Option ℤ → ℕ → Option ℕ
index_of_number none count = none
index_of_number (some (negsuc n)) count = none
index_of_number (some (pos n)) count =
    if ltb 0 n && leb n count then some (n - 1) else if ltb n count then some n else none

abbrev pub index_or : Option ℕ → Option ℕ → Option ℕ
index_or none other = other
index_or (some i) other = some i

unfoldable pub blocklist_index : Config → Str → Option ℕ
blocklist_index cfg target =
    index_or (index_of_number (atoi (trim_space target)) (length cfg.blocklists))
      (index_of_name (trim_space target) 0 cfg.blocklists)

unfoldable pub refresh_index :
    Regex
    → (Str → Option Str)
    → Sources
    → Config
    → Blocking
    → Option ℕ
    → Option (List BlocklistSource × Blocking)
refresh_index re hostname files cfg b none = none
refresh_index re hostname files cfg b (some index) = some (
    load_blocklist_filtered re hostname files cfg (λ src. true) (λ i. i == index)
      (init_blocked cfg.blocked (reset_blocked b)))

-- `none` is the error for a target that is not found.
unfoldable pub refresh_blocklist_target :
    Regex
    → (Str → Option Str)
    → Sources
    → Config
    → Blocking
    → Str
    → Option (List BlocklistSource × Blocking)
refresh_blocklist_target re hostname files cfg b target =
    if is_empty (trim_space target)
    then some (refresh_gravity re hostname files cfg b)
    else refresh_index re hostname files cfg b (blocklist_index cfg (trim_space target))

unfoldable pub has_remote_blocklists : Config → Bool
has_remote_blocklists cfg =
    any (λ src. src.enabled && is_remote_blocklist_source src.source) cfg.blocklists

-- For tests: all that a run of these functions computes with.
unfoldable pub loading_program : Unit {0}
unfolding blocklist_program blocking_program is_remote_blocklist_source cached_copy fetched
    recent_or read_blocklist_source name_of_source is_assigned group_domains
    group_domains_for_source apply_list_allowlist add_counted failed_source index_list cache_age_of
    domains_of load_domains load_copy load_read load_one_blocklist load_list load_lists
    load_blocklist_filtered rebuild_blocklists refresh_gravity load_local_blocklists
    load_remote_blocklists index_of_name index_of_number blocklist_index refresh_index
    refresh_blocklist_target has_remote_blocklists
loading_program = tt
