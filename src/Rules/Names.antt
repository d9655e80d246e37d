-- ===== src/Rules/Names.antt =====
-- What a rule's match does not see in a name, and the normal form of a rule.
use moreno_dnsleaf.Prelude.{false, ◌≡◌, refl, ap, sym, ◌++◌}
use moreno_dnsleaf.Prelude.Text.{
  Str, codes, trim_space, trim_left_by, has_suffix, to_lower, is_space,
}
use moreno_dnsleaf.Prelude.Trim.{trim_by-concat, trim_suffix-concat, trim_suffix_absent}
use moreno_dnsleaf.Deps.{Regex}
use moreno_dnsleaf.Rules.{rule_matches, match_name}

match_name-dot :
    (name : Str)
    → trim_space name ≡ name
    → trim_left_by is_space name ≡ name
    → has_suffix (codes ".") name ≡ false
    → match_name (name ++ codes ".") ≡ match_name name
match_name-dot name t l h =
    unfold match_name trim_space in
    rw (trim_by-concat is_space name b'.' (unfold is_space in refl), l, trim_suffix-concat, t)
      (ap to_lower (sym (trim_suffix_absent (codes ".") name h)))

-- A name that has no spaces around it and no dot behind it matches the same rules with the dot of
-- the root behind it.
pub rule_matches-dot :
    (re : Regex) (rule name : Str)
    → trim_space name ≡ name
    → trim_left_by is_space name ≡ name
    → has_suffix (codes ".") name ≡ false
    → rule_matches re rule (name ++ codes ".") ≡ rule_matches re rule name
unfolding rule_matches
rule_matches-dot re rule name t l h = rw (match_name-dot name t l h)
