-- ===== src/Blocklist/Lines.antt =====
-- The lines of a blocklist (`parseBlocklist`, blocklists.go).
use moreno_dnsleaf.Prelude.{
  ℕ, List, [], ◌∷◌, ◌++◌, ◌==◌, ==_iff, ◌≡◌, refl, ap, ◌∙◌, Bool-cases, inl, inr,
}
use moreno_dnsleaf.Prelude.{Option}
use moreno_dnsleaf.Prelude.Text.{Str, split, split_cons, is_empty}
use moreno_dnsleaf.Blocklist.{parse_blocklist_line, parse_lines, parse_blocklist}

split-ne-nil : (sep : ℕ) (s : Str) → (p : Str) × (ps : List Str) × (split sep s ≡ p ∷ ps)
unfolding split split_cons
split-ne-nil sep [] = ([], [], refl)
split-ne-nil sep (c ∷ s) = elim (Bool-cases (c == sep)) [
  | inl ends ↦ ([], split sep s, rw ends)
  | inr inside ↦ let (p, ps, e) = split-ne-nil sep s in (c ∷ p, ps, rw (inside, e))
]

split_cons-append :
    (c sep : ℕ) (s : Str) (parts : List Str)
    → split_cons c (split sep s ++ parts) ≡ split_cons c (split sep s) ++ parts
unfolding split_cons
split_cons-append c sep s parts = let (p, ps, e) = split-ne-nil sep s in rw e

split-append : (sep : ℕ) (s t : Str) → split sep (s ++ (sep ∷ t)) ≡ split sep s ++ split sep t
unfolding split
split-append sep [] t = rw ((==_iff sep sep).1 refl)
split-append sep (c ∷ s) t = elim (Bool-cases (c == sep)) [
  | inl ends ↦ rw (ends, split-append sep s t)
  | inr inside ↦ rw (inside, split-append sep s t) (split_cons-append c sep s (split sep t))
]

module _ (hostname : Str → Option Str) where
  parse_lines-append :
      (xs ys : List Str)
      → parse_lines hostname (xs ++ ys) ≡ parse_lines hostname xs ++ parse_lines hostname ys
  unfolding parse_lines
  parse_lines-append [] ys = refl
  parse_lines-append (x ∷ xs) ys = elim (Bool-cases (is_empty (parse_blocklist_line hostname x))) [
    | inl skipped ↦ rw skipped (parse_lines-append xs ys)
    | inr kept ↦ rw kept (ap (◌∷◌ (parse_blocklist_line hostname x)) (parse_lines-append xs ys))
  ]

  -- A blocklist is read line by line: the domains of two lists put together with a line break
  -- between them are those of the first and then those of the second.
  pub parse_blocklist-append :
      (xs ys : Str)
      → parse_blocklist hostname (xs ++ (b'\n' ∷ ys))
        ≡ parse_blocklist hostname xs ++ parse_blocklist hostname ys
  unfolding parse_blocklist
  parse_blocklist-append xs ys =
      ap (parse_lines hostname) (split-append b'\n' xs ys)
      ∙ parse_lines-append (split b'\n' xs) (split b'\n' ys)
