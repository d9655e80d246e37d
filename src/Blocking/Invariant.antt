-- ===== src/Blocking/Invariant.antt =====
-- What every operation on the blocking state keeps.
use moreno_dnsleaf.Prelude.{
  Bool, true, false, not, ◌&&◌, ◌||◌, List, [], ◌∷◌, ◌++◌, none, some, if◌then◌else◌, keep, ◌≡◌,
  refl, arith, is_some, Bool-cases, inl, inr, ap, ◌∙◌, sym,
}
use moreno_dnsleaf.Prelude.Text.{Str, str_eq, str_eq_iff, str_eq_refl, is_empty}
use moreno_dnsleaf.Prelude.Map.{Map, get, put, delete, get-put, get-delete}
use moreno_dnsleaf.Rules.{normalize_domain_rule, is_pattern_rule}
use moreno_dnsleaf.Gravity.Sorted.{member, Ascending, merge_gravity_lem}
use moreno_dnsleaf.Blocking.{
  Blocking, flag, reset_blocked, add_blocked_rule, remove_blocked_rule, add_blocked_rules,
  finish_load,
}

pub record IsValid (b : Blocking) : Type 0 where
  -- The patterns that are scanned are the blocked rules that are patterns.
  pub patterns : (k : Str) → member k b.blocked_pat ≡ (is_pattern_rule k && flag k b.blocked)
  -- Only a blocked rule has a source, and no source is empty.
  pub sources : (k : Str) → is_some (get k b.blocked_src) ≡ true → flag k b.blocked ≡ true
  pub named : (k s : Str) → get k b.blocked_src ≡ some s → is_empty s ≡ false
  pub ascending : Ascending b.gravity

flag-put : (k j : Str) (m : Map Bool) → flag j (put k true m) ≡ (str_eq k j || flag j m)
unfolding flag
flag-put k j m = ground (arith, get-put k j true m)

flag-delete : (k j : Str) (m : Map Bool) → flag j (delete k m) ≡ (not (str_eq k j) && flag j m)
unfolding flag
flag-delete k j m = ground (arith, get-delete k j m)

member-concat : (k r : Str) (l : List Str) → member k (l ++ r ∷ []) ≡ (member k l || str_eq r k)
member-concat k r [] = ground arith
member-concat k r (x ∷ l) = ground (arith, member-concat k r l)

member-keep_ne :
    (k r : Str) (l : List Str)
    → member k (keep (λ pat. not (str_eq pat r)) l) ≡ (not (str_eq r k) && member k l)
member-keep_ne k r [] = ground arith
member-keep_ne k r (x ∷ l) =
    ground (arith, member-keep_ne k r l, str_eq_iff x r, str_eq_iff x k, str_eq_iff r k)

patterns_put :
    (pats : List Str) (m : Map Bool) (rule k : Str)
    → member k pats ≡ (is_pattern_rule k && flag k m)
    → member k (if is_pattern_rule rule && not (flag rule m) then pats ++ rule ∷ [] else pats)
      ≡ (is_pattern_rule k && (str_eq rule k || flag k m))
patterns_put pats m rule k h = elim (Bool-cases (str_eq rule k)) [
  | inl same ↦
      let e = (str_eq_iff rule k).0 same in
      rw (e, str_eq_refl k) (ground (arith, member-concat k k pats, str_eq_refl k))
  | inr other ↦ ground (arith, member-concat k rule pats)
]

pub reset_blocked-IsValid : (b : Blocking) → IsValid (reset_blocked b)
unfolding reset_blocked flag get
reset_blocked-IsValid b = record {
  patterns = λ k. ground arith;
  sources = λ k h. ground arith;
  named = λ k s h. ground arith;
  ascending = tt;
}

pub add_blocked_rule-IsValid :
    (b : Blocking) (rule source : Str) → IsValid b → IsValid (add_blocked_rule b rule source).0
unfolding add_blocked_rule
add_blocked_rule-IsValid b raw source v =
    let rule = normalize_domain_rule raw in
    elim (Bool-cases (is_empty rule)) [
      | inl nothing ↦ rw nothing v
      | inr something ↦ rw something (record {
        patterns = λ k.
            patterns_put b.blocked_pat b.blocked rule k (v.patterns k)
            ∙ ap (◌&&◌ (is_pattern_rule k)) (sym (flag-put rule k b.blocked));
        sources = λ k h.
            ground
              (arith, flag-put rule k b.blocked, get-put rule k source b.blocked_src, v.sources k);
        named = λ k s h. ground (arith, get-put rule k source b.blocked_src, v.named k s);
        ascending = v.ascending;
      })
    ]

pub remove_blocked_rule-IsValid :
    (b : Blocking) (rule : Str) → IsValid b → IsValid (remove_blocked_rule b rule)
unfolding remove_blocked_rule
remove_blocked_rule-IsValid b raw v =
    let rule = normalize_domain_rule raw in
    record {
      patterns = λ k.
          ground (
            arith,
            member-keep_ne k rule b.blocked_pat,
            flag-delete rule k b.blocked,
            v.patterns k,
          );
      sources = λ k h.
          ground
            (arith, get-delete rule k b.blocked_src, flag-delete rule k b.blocked, v.sources k);
      named = λ k s h. ground (arith, get-delete rule k b.blocked_src, v.named k s);
      ascending = v.ascending;
    }

-- Adding any rules to a state whose parts agree leaves a state whose parts agree.
pub add_blocked_rules-IsValid :
    (rules : List Str) (b : Blocking) (source : Str)
    → IsValid b
    → IsValid (add_blocked_rules b rules source)
unfolding add_blocked_rules
add_blocked_rules-IsValid [] b source v = v
add_blocked_rules-IsValid (rule ∷ rules) b source v =
    add_blocked_rules-IsValid rules _ source (add_blocked_rule-IsValid b rule source v)

pub finish_load-IsValid :
    (b : Blocking) (domains : List Str) (lists : Map (List Str))
    → IsValid b
    → IsValid (finish_load b domains lists)
unfolding finish_load
finish_load-IsValid b [] lists v = v
finish_load-IsValid b (d ∷ ds) lists v = record {
  patterns = v.patterns;
  sources = v.sources;
  named = v.named;
  ascending = (merge_gravity_lem b.gravity (d ∷ ds) v.ascending).0;
}

-- After an addition the rule is blocked, every other rule is as it was, and the answer tells
-- whether it is new.
pub add_blocked_rule_lem :
    (b : Blocking) (rule source k : Str)
    → is_empty (normalize_domain_rule rule) ≡ false
    → (flag k (add_blocked_rule b rule source).0.blocked
        ≡ (str_eq (normalize_domain_rule rule) k || flag k b.blocked))
      × ((add_blocked_rule b rule source).1 ≡ not (flag (normalize_domain_rule rule) b.blocked))
add_blocked_rule_lem b rule source k h =
    unfold add_blocked_rule in rw h (flag-put (normalize_domain_rule rule) k b.blocked, refl)

-- After a removal the rule is neither blocked nor a pattern and has no source, and the state is as
-- it was for every other rule.
pub remove_blocked_rule_lem :
    (b : Blocking) (rule k : Str)
    → (flag k (remove_blocked_rule b rule).blocked
        ≡ (not (str_eq (normalize_domain_rule rule) k) && flag k b.blocked))
      × (member k (remove_blocked_rule b rule).blocked_pat
          ≡ (not (str_eq (normalize_domain_rule rule) k) && member k b.blocked_pat))
      × (get k (remove_blocked_rule b rule).blocked_src
          ≡ (if str_eq (normalize_domain_rule rule) k then none else get k b.blocked_src))
unfolding remove_blocked_rule
remove_blocked_rule_lem b rule k = (
  flag-delete (normalize_domain_rule rule) k b.blocked,
  member-keep_ne k (normalize_domain_rule rule) b.blocked_pat,
  get-delete (normalize_domain_rule rule) k b.blocked_src,
)
