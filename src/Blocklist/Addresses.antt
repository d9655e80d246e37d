-- ===== src/Blocklist/Addresses.antt =====
-- Filters that are addresses (`parseBlocklistLine`, blocklists.go).
use moreno_dnsleaf.Prelude.{
  ℕ, zero, suc, Bool, true, false, not, ◌&&◌, ◌||◌, [], ◌∷◌, ◌++◌, Option, none, some, is_some,
  take, ltb, if◌then◌else◌, ◌≡◌, refl, arith, ap, ◌∙◌, Bool-cases, inl, inr,
}
use mathlib.Core.Option
use moreno_dnsleaf.Prelude.Text.{
  Str, codes, has_prefix, index, contains, trim_left_by, trim_right_by, cons_trimmed, trim_by,
  trim_space, is_space,
}
use moreno_dnsleaf.Blocklist.{
  before_slashes, without_comments, parse_text, parse_blocklist_line, is_comment, before_hash,
}

abbrev slashes : Str
slashes = codes "//"

abbrev has_slashes : Str → Bool
has_slashes s = contains slashes s

has_slashes-cons :
    (c : ℕ) (s : Str) → has_slashes (c ∷ s) ≡ (has_prefix slashes (c ∷ s) || has_slashes s)
unfolding contains index
has_slashes-cons c s = ground arith

has_slashes-nil : has_slashes [] ≡ false
unfolding contains index has_prefix
has_slashes-nil = refl

has_prefix-take : (p s : Str) (n : ℕ) → has_prefix p (take n s) ≡ true → has_prefix p s ≡ true
unfolding has_prefix
has_prefix-take [] s n h = refl
has_prefix-take (x ∷ p) [] zero h = h
has_prefix-take (x ∷ p) [] (suc n) h = h
has_prefix-take (x ∷ p) (c ∷ s) zero h = ground (arith, h)
has_prefix-take (x ∷ p) (c ∷ s) (suc n) h = ground (arith, h, has_prefix-take p s n)

has_prefix-cons_trimmed :
    (q : ℕ → Bool) (p : Str) (c : ℕ) (r : Str)
    → has_prefix p (cons_trimmed q c r) ≡ true
    → has_prefix p (c ∷ r) ≡ true
unfolding has_prefix cons_trimmed
has_prefix-cons_trimmed q [] c r h = refl
has_prefix-cons_trimmed q (x ∷ p) c [] h = ground (arith, h)
has_prefix-cons_trimmed q (x ∷ p) c (d ∷ ds) h = h

has_prefix-trim_right :
    (q : ℕ → Bool) (p s : Str) → has_prefix p (trim_right_by q s) ≡ true → has_prefix p s ≡ true
unfolding trim_right_by has_prefix
has_prefix-trim_right q p [] h = h
has_prefix-trim_right q [] (c ∷ s) h = refl
has_prefix-trim_right q (x ∷ p) (c ∷ s) h =
    let first = has_prefix-cons_trimmed q (x ∷ p) c (trim_right_by q s) h in
    ground (arith, first, has_prefix-trim_right q p s)

has_slashes-cons_trimmed :
    (q : ℕ → Bool) (c : ℕ) (r : Str)
    → has_slashes (cons_trimmed q c r) ≡ true
    → has_slashes (c ∷ r) ≡ true
unfolding cons_trimmed
has_slashes-cons_trimmed q c [] h = ground (arith, h, has_slashes-nil)
has_slashes-cons_trimmed q c (d ∷ ds) h = h

prefix_cons :
    (c : ℕ) (r s : Str)
    → (has_prefix (codes "/") r ≡ true → has_prefix (codes "/") s ≡ true)
    → has_prefix slashes (c ∷ r) ≡ true
    → has_prefix slashes (c ∷ s) ≡ true
unfolding has_prefix
prefix_cons c r s f h = ground (arith, f, h)

has_slashes-trim_right :
    (q : ℕ → Bool) (s : Str) → has_slashes (trim_right_by q s) ≡ true → has_slashes s ≡ true
unfolding trim_right_by
has_slashes-trim_right q [] h = h
has_slashes-trim_right q (c ∷ s) h =
    let first = has_slashes-cons_trimmed q c (trim_right_by q s) h in
    ground (
      arith,
      first,
      has_slashes-cons c (trim_right_by q s),
      has_slashes-cons c s,
      prefix_cons c (trim_right_by q s) s (has_prefix-trim_right q (codes "/") s),
      has_slashes-trim_right q s,
    )

has_slashes-trim_left :
    (q : ℕ → Bool) (s : Str) → has_slashes (trim_left_by q s) ≡ true → has_slashes s ≡ true
unfolding trim_left_by
has_slashes-trim_left q [] h = h
has_slashes-trim_left q (c ∷ s) h =
    ground (arith, h, has_slashes-cons c s, has_slashes-trim_left q s)

has_slashes-trim_space : (s : Str) → has_slashes s ≡ false → has_slashes (trim_space s) ≡ false
unfolding trim_space trim_by
has_slashes-trim_space s h = ground (
  arith,
  h,
  has_slashes-trim_left is_space (trim_right_by is_space s),
  has_slashes-trim_right is_space s,
)

tail_of :
    (b : Bool) (o : Option ℕ) (k : ℕ)
    → (if b then some 0 else Option.map suc o) ≡ some (suc k)
    → (b ≡ false) × (o ≡ some k)
tail_of true o k e = absurd (ground (arith, e))
tail_of false none k e = absurd (ground (arith, e))
tail_of false (some n) k e = (refl, ground (arith, e))

index-tail :
    (c k : ℕ) (s : Str)
    → index slashes (c ∷ s) ≡ some (suc k)
    → (has_prefix slashes (c ∷ s) ≡ false) × (index slashes s ≡ some k)
unfolding index
index-tail c k s e = tail_of (has_prefix slashes (c ∷ s)) (index slashes s) k e

-- The text before the first slashes has none.
has_slashes-take : (s : Str) (at : ℕ) → index slashes s ≡ some at → has_slashes (take at s) ≡ false
has_slashes-take [] zero e = has_slashes-nil
has_slashes-take [] (suc at) e = has_slashes-nil
has_slashes-take (c ∷ s) zero e = has_slashes-nil
has_slashes-take (c ∷ s) (suc at) e =
    let later = index-tail c at s e in
    ground (
      arith,
      later.0,
      has_slashes-cons c (take at s),
      prefix_cons c (take at s) s (has_prefix-take (codes "/") s at),
      has_slashes-take s at later.1,
    )

has_slashes_of_prefix : (p s : Str) → has_prefix (p ++ slashes) s ≡ true → has_slashes s ≡ true
unfolding has_prefix
has_slashes_of_prefix [] [] h = absurd (ground (arith, h))
has_slashes_of_prefix [] (c ∷ s) h = has_slashes-cons c s ∙ rw h refl
has_slashes_of_prefix (x ∷ p) [] h = absurd (ground (arith, h))
has_slashes_of_prefix (x ∷ p) (c ∷ s) h =
    ground (arith, h, has_slashes-cons c s, has_slashes_of_prefix p s)

-- A filter that is an address.
abbrev is_address : Str → Bool
is_address s = has_prefix (codes "|http://") s || has_prefix (codes "|https://") s

is_address-has_slashes : (s : Str) → has_slashes s ≡ false → is_address s ≡ false
is_address-has_slashes s h =
    ground (
      arith,
      h,
      has_slashes_of_prefix (codes "|http:") s,
      has_slashes_of_prefix (codes "|https:") s,
    )

head_of : (b : Bool) (o : Option ℕ) → (if b then some 0 else Option.map suc o) ≡ some 0 → b ≡ true
head_of true o e = refl
head_of false none e = absurd (ground (arith, e))
head_of false (some n) e = absurd (ground (arith, e))

is_address-slashes : (s : Str) → index slashes s ≡ some 0 → is_address s ≡ false
unfolding has_prefix index
is_address-slashes [] e = refl
is_address-slashes (c ∷ s) e =
    let starts = head_of (has_prefix slashes (c ∷ s)) (index slashes s) e in ground (arith, starts)

contains_scheme-cons :
    (c : ℕ) (s : Str)
    → contains (codes "://") (c ∷ s)
      ≡ (has_prefix (codes "://") (c ∷ s) || contains (codes "://") s)
unfolding contains index
contains_scheme-cons c s = ground arith

contains_scheme-has_slashes : (s : Str) → has_slashes s ≡ false → contains (codes "://") s ≡ false
contains_scheme-has_slashes [] h = unfold contains index has_prefix in refl
contains_scheme-has_slashes (c ∷ s) h = ground (
  arith,
  h,
  contains_scheme-cons c s,
  has_slashes-cons c s,
  has_slashes_of_prefix (codes ":") (c ∷ s),
  contains_scheme-has_slashes s,
)

before_slashes-is_address :
    (line : Str) (found : Option ℕ)
    → index slashes line ≡ found
    → is_address (before_slashes line found) ≡ false
unfolding before_slashes
before_slashes-is_address line none e =
    is_address-has_slashes line (unfold contains in ap is_some e)
before_slashes-is_address line (some zero) e = is_address-slashes line e
before_slashes-is_address line (some (suc at)) e =
    let text = take (suc at) line in
    let clean = has_slashes-take line (suc at) e in
    elim (Bool-cases (ltb 0 (suc at) && not (contains (codes "://") text))) [
      | inl cut ↦
          rw cut (is_address-has_slashes (trim_space text) (has_slashes-trim_space text clean))
      | inr whole ↦ absurd (ground (arith, whole, contains_scheme-has_slashes text clean))
    ]

module _ (h k : Str → Option Str) where
  parse_text-hostname :
      (line : Str) → is_address line ≡ false → parse_text h line ≡ parse_text k line
  unfolding parse_text
  parse_text-hostname line e = rw e refl

  -- Whatever package net/url finds in addresses, a line is read the same way: the host name of a
  -- filter that is an address makes no difference to the domain.
  pub parse_blocklist_line-hostname :
      (raw : Str) → parse_blocklist_line h raw ≡ parse_blocklist_line k raw
  unfolding parse_blocklist_line without_comments
  parse_blocklist_line-hostname raw =
      let line = trim_space raw in
      let text = before_hash line (index (codes "#") line) in
      let same =
        parse_text-hostname (before_slashes text (index slashes text))
          (before_slashes-is_address text (index slashes text) refl) in
      ap (λ (t : Str). if is_comment line then [] else t) same
