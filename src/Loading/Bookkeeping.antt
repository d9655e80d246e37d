-- ===== src/Loading/Bookkeeping.antt =====
-- What a load changes of the configured lists: `loadOneBlocklist` and the loops over it in
-- blocklists.go.
use moreno_dnsleaf.Prelude.{
  ℕ, suc, Bool, not, List, [], ◌∷◌, Option, none, some, map, ◌≡◌, refl, ap, ◌∙◌, if-cases,
}
use moreno_dnsleaf.Prelude.Text.{Str, is_empty, trim_space}
use moreno_dnsleaf.Deps.{Regex}
use moreno_dnsleaf.Config.{Config, BlocklistSource}
use moreno_dnsleaf.Loading.{
  Loading, failed_source, load_domains, load_copy, load_read, load_one_blocklist, load_list,
  load_lists, load_blocklist_filtered, rebuild_blocklists,
}
use moreno_dnsleaf.Loading.Reading.{Failure, ReadResult, Sources}

-- What the user sets of a list.
abbrev pub settings : BlocklistSource → Str × Str × Bool × List Str × List Str
settings src = (src.name, src.source, src.enabled, src.allowlist, src.groups)

module _ (re : Regex) (hostname : Str → Option Str) (files : Sources) (cfg : Config) where
  abbrev Keeps : BlocklistSource → BlocklistSource × Loading → Type 0
  Keeps src x = settings x.0 ≡ settings src

  load_copy-Keeps :
      (src : BlocklistSource) (result : ReadResult) (message : Str) (copy : Option Str)
      (l : Loading)
      → Keeps src (load_copy re hostname files cfg src result message copy l)
  unfolding load_copy load_domains failed_source
  load_copy-Keeps src result message none l = refl
  load_copy-Keeps src result message (some content) l = refl

  load_read-Keeps :
      (src : BlocklistSource) (result : ReadResult) (failure : Option Failure) (l : Loading)
      → Keeps src (load_read re hostname files cfg src result failure l)
  unfolding load_read load_domains
  load_read-Keeps src result none l = refl
  load_read-Keeps src result (some failure) l =
      if-cases (Keeps src) failure.is_not_exist refl
        (load_copy-Keeps src result failure.message result.content l)

  load_list-Keeps :
      (include : BlocklistSource → Bool) (force : Bool) (src : BlocklistSource) (l : Loading)
      → Keeps src (load_list re hostname files cfg include force src l)
  unfolding load_list load_one_blocklist failed_source
  load_list-Keeps include force src l = if-cases (Keeps src) (not (include src)) refl (
      if-cases (Keeps src) (not src.enabled) refl
        (if-cases (Keeps src) (is_empty (trim_space src.source)) refl (load_read-Keeps _ _ _ l)))

  load_lists-settings :
      (include : BlocklistSource → Bool) (force : ℕ → Bool) (i : ℕ) (lists : List BlocklistSource)
      (l : Loading)
      → map settings (load_lists re hostname files cfg include force i lists l).0
        ≡ map settings lists
  unfolding load_lists
  load_lists-settings include force i [] l = refl
  load_lists-settings include force i (src ∷ lists) l =
      ap
        (λ x.
          x
          ∷ map settings
              (load_lists re hostname files cfg include force (suc i) lists
                (load_list re hostname files cfg include (force i) src l).1).0)
        (load_list-Keeps include (force i) src l)
      ∙ ap (λ rest. settings src ∷ rest)
          (load_lists-settings include force (suc i) lists
            (load_list re hostname files cfg include (force i) src l).1)

  -- A rebuild keeps the lists in their order, with their names, addresses, switches, exceptions and
  -- groups.
  pub rebuild_blocklists-settings :
      (b : _)
      → map settings (rebuild_blocklists re hostname files cfg b).0 ≡ map settings cfg.blocklists
  unfolding rebuild_blocklists load_blocklist_filtered
  rebuild_blocklists-settings b = load_lists-settings _ _ 0 cfg.blocklists _
