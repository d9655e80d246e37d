-- ===== src/Blocking.antt =====
-- The blocking state of blocklists.go (`blocked`, `blockedSrc`, `blockedPat`, `gravity` and
-- `gravityByList`) and the operations on it.
pub mod Invariant
use moreno_dnsleaf.Prelude.{
  ℕ, ◌+◌, Bool, true, false, not, ◌&&◌, ◌||◌, List, [], ◌∷◌, ◌++◌, Option, none, some,
  if◌then◌else◌, length, keep,
}
use moreno_dnsleaf.Prelude.Text.{Str, codes, str_eq, is_empty}
use moreno_dnsleaf.Prelude.Map.{Map, get, put, delete}
use moreno_dnsleaf.Rules.{normalize_domain_rule, is_pattern_rule}
use moreno_dnsleaf.Gravity.{merge_gravity, rebuild_gravity_list_indexes, gravity_program}

pub record Blocking : Type 0 where
  pub blocked : Map Bool
  pub blocked_src : Map Str
  pub blocked_pat : List Str
  pub gravity : List Str
  pub gravity_by_list : Map (List ℕ)

-- A map of Booleans and one of strings at a key that may be missing.
unfoldable pub flag : Str → Map Bool → Bool
flag k m = elim (get k m) [ none ↦ false | some b ↦ b ]

unfoldable pub text_at : Str → Map Str → Str
text_at k m = elim (get k m) [ none ↦ [] | some s ↦ s ]

unfoldable pub reset_blocked : Blocking → Blocking
reset_blocked b = record {
  blocked = [];
  blocked_src = [];
  blocked_pat = [];
  gravity = [];
  gravity_by_list = [];
}

-- `addBlockedRuleLocked`, and whether the rule is new.
unfoldable pub add_blocked_rule : Blocking → Str → Str → Blocking × Bool
add_blocked_rule b raw source =
    let rule = normalize_domain_rule raw in
    let added = not (flag rule b.blocked) in
    if is_empty rule then (b, false) else (
      record b {
        blocked = put rule true b.blocked;
        blocked_src = if is_empty source then b.blocked_src else put rule source b.blocked_src;
        blocked_pat =
            if is_pattern_rule rule && added then b.blocked_pat ++ rule ∷ [] else b.blocked_pat;
      },
      added,
    )

unfoldable pub remove_blocked_rule : Blocking → Str → Blocking
remove_blocked_rule b raw =
    let rule = normalize_domain_rule raw in
    record b {
      blocked = delete rule b.blocked;
      blocked_src = delete rule b.blocked_src;
      blocked_pat = keep (λ pat. not (str_eq pat rule)) b.blocked_pat;
    }

-- `initBlocked` on the `Blocked` of the configuration, and the other loops that add rules.
unfoldable pub add_blocked_rules : Blocking → List Str → Str → Blocking
add_blocked_rules b [] source = b
add_blocked_rules b (rule ∷ rules) source =
    add_blocked_rules (add_blocked_rule b rule source).0 rules source

unfoldable pub init_blocked : List Str → Blocking → Blocking
init_blocked rules b = add_blocked_rules b rules (codes "config")

-- The end of `loadBlocklistFiltered`.
unfoldable pub finish_load : Blocking → List Str → Map (List Str) → Blocking
finish_load b [] lists = b
finish_load b (d ∷ ds) lists =
    let merged = merge_gravity b.gravity (d ∷ ds) in
    record b { gravity = merged; gravity_by_list = rebuild_gravity_list_indexes merged lists }

unfoldable pub blocked_count : Blocking → ℕ
blocked_count b = length b.blocked + length b.gravity

unfoldable pub blocking_program : Unit {0}
unfolding gravity_program get put delete flag text_at reset_blocked add_blocked_rule
    remove_blocked_rule add_blocked_rules init_blocked finish_load blocked_count
blocking_program = tt
