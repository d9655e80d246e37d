-- ===== src/Decision/Ancestors.antt =====
-- The wildcard loop of `blockDecision` (blocklists.go) and the parent domains of a name.
use moreno_dnsleaf.Prelude.{
  ℕ, Bool, false, ◌&&◌, ◌||◌, List, [], ◌∷◌, ◌++◌, none, ◌≡◌, refl, ap, ◌∙◌, arith, is_some,
  Bool-cases, inl, inr, ◌==◌,
}
use moreno_dnsleaf.Prelude.Text.{Str, codes, split, split_cons, join}
use moreno_dnsleaf.Blocking.{Blocking, flag}
use moreno_dnsleaf.Config.{Config}
use moreno_dnsleaf.Decision.{wildcard_verdict, skips_source, is_limited}

-- A text splits into at least one part.
split-ne-nil : (sep : ℕ) (s : Str) → (p : Str) × (ps : List Str) × (split sep s ≡ p ∷ ps)
unfolding split split_cons
split-ne-nil sep [] = ([], [], refl)
split-ne-nil sep (c ∷ cs) = elim (Bool-cases (c == sep)) [
  | inl here ↦ ([], split sep cs, rw here)
  | inr other ↦ let (p, ps, e) = split-ne-nil sep cs in (c ∷ p, ps, rw (other, e))
]

join-split_cons : (sep : Str) (c : ℕ) (ps : List Str) → join sep (split_cons c ps) ≡ c ∷ join sep ps
unfolding join split_cons
join-split_cons sep c [] = refl
join-split_cons sep c (p ∷ []) = refl
join-split_cons sep c (p ∷ q ∷ ps) = refl

join-cons :
    (sep : ℕ) (p : Str) (ps : List Str)
    → join (sep ∷ []) ([] ∷ p ∷ ps) ≡ sep ∷ join (sep ∷ []) (p ∷ ps)
unfolding join
join-cons sep p ps = refl

join-one : (sep : Str) → join sep ([] ∷ []) ≡ []
unfolding join
join-one sep = refl

-- The parts joined again are the text.
pub join-split : (sep : ℕ) (s : Str) → join (sep ∷ []) (split sep s) ≡ s
unfolding split
join-split sep [] = join-one (sep ∷ [])
join-split sep (c ∷ cs) = elim (Bool-cases (c == sep)) [
  | inl here ↦
      let (p, ps, e) = split-ne-nil sep cs in
      let same : c ≡ sep = ground arith in
      rw (here, e, same) (join-cons sep p ps ∙ ap (◌∷◌ sep) (rw e at (join-split sep cs)))
  | inr other ↦
      rw other (join-split_cons (sep ∷ []) c (split sep cs) ∙ ap (◌∷◌ c) (join-split sep cs))
]

-- Some parent domain `d` of the name has a blocked rule `*.d`.
unfoldable pub blocked_parent : Blocking → Str → Bool
blocked_parent b [] = false
blocked_parent b (c ∷ cs) = (c == b'.' && flag (codes "*." ++ cs) b.blocked) || blocked_parent b cs

module _ (cfg : Config) (b : Blocking) where
  wildcard_verdict-split_cons :
      (c : ℕ) (ps : List Str)
      → wildcard_verdict cfg none b (split_cons c ps) ≡ wildcard_verdict cfg none b ps
  unfolding wildcard_verdict split_cons
  wildcard_verdict-split_cons c [] = refl
  wildcard_verdict-split_cons c (p ∷ []) = refl
  wildcard_verdict-split_cons c (p ∷ q ∷ ps) = refl

  wildcard_verdict-cons :
      (first : Str) (p : Str) (ps : List Str)
      → is_some (wildcard_verdict cfg none b (first ∷ p ∷ ps)) ≡ (
          flag (codes "*." ++ join (codes ".") (p ∷ ps)) b.blocked
          || is_some (wildcard_verdict cfg none b (p ∷ ps)))
  wildcard_verdict-cons first p ps = unfold wildcard_verdict skips_source is_limited in ground arith

  -- With no limits the loop answers exactly if a parent is blocked.
  pub wildcard_verdict-blocked_parent :
      (name : Str) → is_some (wildcard_verdict cfg none b (split b'.' name)) ≡ blocked_parent b name
  unfolding blocked_parent split
  wildcard_verdict-blocked_parent [] = unfold wildcard_verdict in refl
  wildcard_verdict-blocked_parent (c ∷ cs) = elim (Bool-cases (c == b'.')) [
    | inl here ↦
        let (p, ps, e) = split-ne-nil b'.' cs in
        rw (here, e)
          (wildcard_verdict-cons [] p ps
            ∙ rw (← e, join-split b'.' cs, wildcard_verdict-blocked_parent cs) refl)
    | inr other ↦ rw other (
        ap is_some (wildcard_verdict-split_cons c (split b'.' cs))
        ∙ wildcard_verdict-blocked_parent cs)
  ]
