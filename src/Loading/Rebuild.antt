-- ===== src/Loading/Rebuild.antt =====
-- What `rebuildBlocklists` and `refreshGravity` (blocklists.go) make of the blocking state.
use moreno_dnsleaf.Prelude.{
  Bool, true, false, ◌||◌, List, [], ◌∷◌, Option, ◌≡◌, refl, ap, ◌∙◌, arith,
}
use moreno_dnsleaf.Prelude.Text.{Str, codes}
use moreno_dnsleaf.Prelude.Map.{Map, get}
use moreno_dnsleaf.Deps.{Regex}
use moreno_dnsleaf.Config.{Config, BlocklistSource}
use moreno_dnsleaf.Gravity.{normalized_domains, merge_gravity}
use moreno_dnsleaf.Gravity.Sorted.{member, merge_gravity_lem}
use moreno_dnsleaf.Blocking.{
  Blocking, flag, reset_blocked, add_blocked_rule, add_blocked_rules, init_blocked, finish_load,
}
use moreno_dnsleaf.Blocking.Invariant.{
  IsValid, reset_blocked-IsValid, add_blocked_rules-IsValid, finish_load-IsValid,
}
use moreno_dnsleaf.Loading.{
  Loading, load_lists, load_blocklist_filtered, rebuild_blocklists, refresh_gravity,
}
use moreno_dnsleaf.Loading.Reading.{Sources}
use moreno_dnsleaf.Loading.Rules.{
  has_rule, flag-add_blocked_rule, gravity-add_blocked_rule, rules_of, names_of, all_of,
  load_lists-IsLoaded,
}

flag-add_blocked_rules :
    (rules : List Str) (b : Blocking) (source k : Str)
    → flag k (add_blocked_rules b rules source).blocked ≡ (flag k b.blocked || has_rule k rules)
unfolding add_blocked_rules
flag-add_blocked_rules [] b source k = ground arith
flag-add_blocked_rules (rule ∷ rules) b source k = ground (
  arith,
  flag-add_blocked_rules rules (add_blocked_rule b rule source).0 source k,
  flag-add_blocked_rule b rule source k,
)

gravity-add_blocked_rules :
    (rules : List Str) (b : Blocking) (source : Str)
    → (add_blocked_rules b rules source).gravity ≡ b.gravity
unfolding add_blocked_rules
gravity-add_blocked_rules [] b source = refl
gravity-add_blocked_rules (rule ∷ rules) b source =
    gravity-add_blocked_rules rules (add_blocked_rule b rule source).0 source
    ∙ gravity-add_blocked_rule b rule source

-- The state that holds the rules of the configuration only.
initial-lem :
    (rules : List Str) (b : Blocking)
    → ((k : Str) → flag k (init_blocked rules (reset_blocked b)).blocked ≡ has_rule k rules)
      × ((init_blocked rules (reset_blocked b)).gravity ≡ [])
      × IsValid (init_blocked rules (reset_blocked b))
unfolding init_blocked
initial-lem rules b = (
  λ k.
      flag-add_blocked_rules rules (reset_blocked b) (codes "config") k
      ∙ (unfold reset_blocked flag get in refl),
  gravity-add_blocked_rules rules (reset_blocked b) (codes "config")
      ∙ (unfold reset_blocked in refl),
  add_blocked_rules-IsValid rules (reset_blocked b) (codes "config") (reset_blocked-IsValid b),
)

blocked-finish_load :
    (b : Blocking) (domains : List Str) (lists : Map (List Str))
    → (finish_load b domains lists).blocked ≡ b.blocked
unfolding finish_load
blocked-finish_load b [] lists = refl
blocked-finish_load b (d ∷ ds) lists = refl

gravity-finish_load :
    (b : Blocking) (domains : List Str) (lists : Map (List Str))
    → (finish_load b domains lists).gravity ≡ merge_gravity b.gravity domains
unfolding finish_load merge_gravity
gravity-finish_load b [] lists = refl
gravity-finish_load b (d ∷ ds) lists = refl

module _ (re : Regex) (hostname : Str → Option Str) (files : Sources) (cfg : Config) where
  abbrev every : BlocklistSource → Bool
  every src = true

  -- The state is that of the configuration and of its lists, read with or without the caches.
  abbrev pub IsRebuilt : Bool → Blocking → Type 0
  IsRebuilt force b =
      ((k : Str)
        → flag k b.blocked ≡ (
            has_rule k cfg.blocked
            || has_rule k (
                all_of re hostname files cfg (rules_of re hostname files cfg force) every
                  cfg.blocklists)))
      × ((z : Str)
          → member z b.gravity
            ≡ member z (
                normalized_domains (
                  all_of re hostname files cfg (names_of re hostname files cfg force) every
                    cfg.blocklists)))
      × IsValid b

  load_all-IsRebuilt :
      (force : Bool) (b : Blocking)
      → IsRebuilt force
          (load_blocklist_filtered re hostname files cfg every
            (λ i. force)
            (init_blocked cfg.blocked (reset_blocked b))).1
  unfolding load_blocklist_filtered
  load_all-IsRebuilt force b =
      let start : Loading = record {
        blocking = init_blocked cfg.blocked (reset_blocked b);
        gravity_exact = [];
        by_list = [];
      } in
      let l = (load_lists re hostname files cfg every (λ i. force) 0 cfg.blocklists start).1 in
      let (flags, exact, gravity, valid) =
        load_lists-IsLoaded re hostname files cfg every force 0 cfg.blocklists start in
      let (first, empty, sound) = initial-lem cfg.blocked b in
      let names =
        all_of re hostname files cfg (names_of re hostname files cfg force) every cfg.blocklists in
      let rules =
        all_of re hostname files cfg (rules_of re hostname files cfg force) every cfg.blocklists in
      (
        λ k.
            ap (flag k) (blocked-finish_load l.blocking l.gravity_exact l.by_list)
            ∙ flags k
            ∙ ap (λ f. f || has_rule k rules) (first k),
        λ z.
            ap (member z) (gravity-finish_load l.blocking l.gravity_exact l.by_list)
            ∙ ap (λ g. member z (merge_gravity g l.gravity_exact)) (gravity ∙ empty)
            ∙ ap (λ e. member z (merge_gravity [] e)) exact
            ∙ (merge_gravity_lem [] names tt).1 z,
        finish_load-IsValid l.blocking l.gravity_exact l.by_list (valid sound),
      )

  -- After `rebuildBlocklists` and after `refreshGravity`, whatever was blocked before: a rule is blocked
  -- exactly if it is the normal form of a rule of the configuration, of a rule of an enabled local list
  -- that can be read, or of a pattern of an enabled remote one; the sorted array holds exactly the
  -- normal forms of the plain names of the enabled remote lists; and the parts of the blocking state
  -- agree. The rules and names of a list are those that it holds, less those that its own allow list
  -- matches, and those of its groups.
  pub rebuild_blocklists-IsRebuilt :
      (b : Blocking)
      → IsRebuilt false (rebuild_blocklists re hostname files cfg b).1
        × IsRebuilt true (refresh_gravity re hostname files cfg b).1
  unfolding rebuild_blocklists refresh_gravity
  rebuild_blocklists-IsRebuilt b = (load_all-IsRebuilt false b, load_all-IsRebuilt true b)
