-- ===== src/Rules/Cache.antt =====
-- The cache of compiled patterns of the method `domainRuleMatches` (blocklists.go).
use moreno_dnsleaf.Prelude.{
  ◌≤◌, ◌<◌, Option, none, some, ◌≡◌, refl, inl, inr, ltb, length, arith, Bool-cases, ltb→lt, ◌||◌,
}
use moreno_dnsleaf.Prelude.Text.{Str, str_eq, str_eq_iff, is_empty}
use moreno_dnsleaf.Prelude.Map.{get, put, get-put, length-put-le}
use moreno_dnsleaf.Deps.{Regex}
use moreno_dnsleaf.Rules.{
  Compiled, no_pattern, failed, compiled, compile_domain_rule, rule_matches, RuleCache,
  match_cached, matches_compiled, store_compiled, normalize_domain_rule, match_name,
  is_pattern_rule, cached_rule_matches, max_rule_cache,
}

module _ (re : Regex) where
  open re use {Regexp, compile, match_string}

  -- Each pattern in the cache is the one that its rule compiles to.
  pub record IsCoherent (cache : RuleCache re) : Type 0 where
    pub compiles :
        (k : Str) (p : Regexp) → get k cache ≡ some p → compile_domain_rule re k ≡ compiled p
    pub bounded : length cache ≤ max_rule_cache

  put-IsCoherent :
      (cache : RuleCache re) (r : Str) (p : Regexp)
      → IsCoherent cache
      → compile_domain_rule re r ≡ compiled p
      → length cache < max_rule_cache
      → IsCoherent (put r p cache)
  put-IsCoherent cache r p h e lt = record {
    compiles = λ k q g. elim (Bool-cases (str_eq r k)) [
      | inl same ↦ ground (arith, get-put r k p cache, str_eq_iff r k)
      | inr other ↦ h.compiles k q (ground (arith, get-put r k p cache))
    ];
    bounded = omega (arith, length-put-le r p cache);
  }

  store_compiled_lem :
      (cache : RuleCache re) (r n : Str) (c : Compiled re)
      → compile_domain_rule re r ≡ c
      → IsCoherent cache
      → ((store_compiled re cache r n c).1 ≡ matches_compiled re n c)
        × IsCoherent (store_compiled re cache r n c).0
  unfolding store_compiled
  store_compiled_lem cache r n no_pattern e h = (refl, h)
  store_compiled_lem cache r n failed e h = (refl, h)
  store_compiled_lem cache r n (compiled p) e h =
      elim (Bool-cases (ltb (length cache) max_rule_cache)) [
        | inl room ↦ (refl, rw room (put-IsCoherent cache r p h e (ltb→lt _ _ room)))
        | inr full ↦ (refl, rw full h)
      ]

  match_cached_lem :
      (cache : RuleCache re) (r n : Str) (o : Option Regexp)
      → get r cache ≡ o
      → IsCoherent cache
      → ((match_cached re cache r n o).1 ≡ matches_compiled re n (compile_domain_rule re r))
        × IsCoherent (match_cached re cache r n o).0
  unfolding match_cached
  match_cached_lem cache r n (some p) e h = (rw (h.compiles r p e), h)
  match_cached_lem cache r n none e h = store_compiled_lem cache r n _ refl h

  -- With a coherent cache the method answers as it would with none, and it keeps the cache
  -- coherent and within its bound.
  pub cached_rule_matches_lem :
      (cache : RuleCache re) (rule name : Str)
      → IsCoherent cache
      → ((cached_rule_matches re cache rule name).1 ≡ rule_matches re rule name)
        × IsCoherent (cached_rule_matches re cache rule name).0
  cached_rule_matches_lem cache rule name h =
      let r = normalize_domain_rule rule in
      let n = match_name name in
      elim (Bool-cases (is_empty r || is_empty n)) [
        | inl nothing ↦ unfold cached_rule_matches rule_matches in rw nothing (refl, h)
        | inr something ↦ elim (Bool-cases (is_pattern_rule r)) [
          | inl pattern ↦
              unfold cached_rule_matches rule_matches in
              rw (something, pattern) (match_cached_lem cache r n (get r cache) refl h)
          | inr plain ↦ unfold cached_rule_matches rule_matches in rw (something, plain) (refl, h)
        ]
      ]
