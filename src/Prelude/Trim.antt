-- ===== src/Prelude/Trim.antt =====
-- Laws of trimming and of suffixes.
use moreno_dnsleaf.Prelude.Text.{
  Str, str_eq_iff, is_space, trim_space, trim_left_by, trim_right_by, cons_trimmed, trim_by,
  trim_suffix, has_suffix, to_lower, lower_byte,
}
use Prim.Native.Nat.{ℕ}
use mathlib.Core.Path.{◌≡◌, refl, ap}
use mathlib.Core.Bool.{Bool, true, false}
use mathlib.Core.List.{[], ◌∷◌, ◌++◌}
use native.Mathlib.Omega.{arith}

cons_trimmed-ne-nil :
    (p : ℕ → Bool) (c : ℕ) (s : Str) (d : ℕ) → cons_trimmed p c (s ++ d ∷ []) ≡ c ∷ (s ++ d ∷ [])
unfolding cons_trimmed
cons_trimmed-ne-nil p c [] d = refl
cons_trimmed-ne-nil p c (x ∷ s) d = refl

pub trim_right_by-concat :
    (p : ℕ → Bool) (s : Str) (c : ℕ) → p c ≡ false → trim_right_by p (s ++ c ∷ []) ≡ s ++ c ∷ []
unfolding trim_right_by cons_trimmed
trim_right_by-concat p [] c h = rw h
trim_right_by-concat p (x ∷ s) c h = rw (trim_right_by-concat p s c h) (cons_trimmed-ne-nil p x s c)

pub trim_left_by-concat :
    (p : ℕ → Bool) (s : Str) (c : ℕ)
    → p c ≡ false
    → trim_left_by p (s ++ c ∷ []) ≡ trim_left_by p s ++ c ∷ []
unfolding trim_left_by
trim_left_by-concat p [] c h = rw h
trim_left_by-concat p (x ∷ s) c h = ground (arith, trim_left_by-concat p s c h)

-- A byte at the end that is not trimmed stays, and so does what stands in front of it.
pub trim_by-concat :
    (p : ℕ → Bool) (s : Str) (c : ℕ)
    → p c ≡ false
    → trim_by p (s ++ c ∷ []) ≡ trim_left_by p s ++ c ∷ []
unfolding trim_by
trim_by-concat p s c h = rw (trim_right_by-concat p s c h) (trim_left_by-concat p s c h)

-- The last byte goes if it is the suffix.
pub trim_suffix-concat : (s : Str) (c : ℕ) → trim_suffix (c ∷ []) (s ++ c ∷ []) ≡ s
unfolding trim_suffix
trim_suffix-concat [] c = rw ((str_eq_iff (c ∷ []) (c ∷ [])).1 refl)
trim_suffix-concat (x ∷ []) c =
    ground (arith, str_eq_iff (x ∷ c ∷ []) (c ∷ []), str_eq_iff (c ∷ []) (c ∷ []))
trim_suffix-concat (x ∷ y ∷ s) c =
    ground (arith, str_eq_iff (x ∷ y ∷ (s ++ c ∷ [])) (c ∷ []), trim_suffix-concat (y ∷ s) c)

pub trim_suffix_absent : (suf s : Str) → has_suffix suf s ≡ false → trim_suffix suf s ≡ s
unfolding trim_suffix has_suffix
trim_suffix_absent suf [] h = refl
trim_suffix_absent suf (c ∷ s) h = ground (arith, trim_suffix_absent suf s)

pub to_lower-append : (s t : Str) → to_lower (s ++ t) ≡ to_lower s ++ to_lower t
unfolding to_lower
to_lower-append [] t = refl
to_lower-append (c ∷ s) t = ap (◌∷◌ (lower_byte c)) (to_lower-append s t)

lower_byte_idem : (c : ℕ) → lower_byte (lower_byte c) ≡ lower_byte c
unfolding lower_byte
lower_byte_idem c = ground arith

pub to_lower_idem : (s : Str) → to_lower (to_lower s) ≡ to_lower s
unfolding to_lower
to_lower_idem [] = refl
to_lower_idem (c ∷ s) = rw (lower_byte_idem, to_lower_idem s)

cons_trimmed_idem :
    (p : ℕ → Bool) (c : ℕ) (s : Str)
    → trim_right_by p s ≡ s
    → trim_right_by p (cons_trimmed p c s) ≡ cons_trimmed p c s
unfolding trim_right_by cons_trimmed
cons_trimmed_idem p c [] h = ground arith
cons_trimmed_idem p c (d ∷ ds) h = rw h

trim_right_by_idem :
    (p : ℕ → Bool) (s : Str) → trim_right_by p (trim_right_by p s) ≡ trim_right_by p s
unfolding trim_right_by
trim_right_by_idem p [] = refl
trim_right_by_idem p (c ∷ s) = cons_trimmed_idem p c (trim_right_by p s) (trim_right_by_idem p s)

trim_left_by_idem : (p : ℕ → Bool) (s : Str) → trim_left_by p (trim_left_by p s) ≡ trim_left_by p s
unfolding trim_left_by
trim_left_by_idem p [] = refl
trim_left_by_idem p (c ∷ s) = ground (arith, trim_left_by_idem p s)

tail_trimmed : (p : ℕ → Bool) (c : ℕ) (s t : Str) → p c ≡ true → cons_trimmed p c t ≡ c ∷ s → t ≡ s
unfolding cons_trimmed
tail_trimmed p c s [] h e = ground arith
tail_trimmed p c s (d ∷ t) h e = ground arith

-- A text that is trimmed on the right stays so.
trim_right_by-trim_left_by :
    (p : ℕ → Bool) (s : Str)
    → trim_right_by p s ≡ s
    → trim_right_by p (trim_left_by p s) ≡ trim_left_by p s
unfolding trim_left_by trim_right_by
trim_right_by-trim_left_by p [] h = refl
trim_right_by-trim_left_by p (c ∷ s) h =
    ground (arith, tail_trimmed p c s (trim_right_by p s), trim_right_by-trim_left_by p s)

pub trim_by_idem : (p : ℕ → Bool) (s : Str) → trim_by p (trim_by p s) ≡ trim_by p s
unfolding trim_by
trim_by_idem p s =
    rw
      (trim_right_by-trim_left_by p (trim_right_by p s) (trim_right_by_idem p s), trim_left_by_idem)

pub trim_space_idem : (s : Str) → trim_space (trim_space s) ≡ trim_space s
unfolding trim_space
trim_space_idem s = trim_by_idem is_space s
