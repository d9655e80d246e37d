-- ===== src/Prelude/Order.antt =====
-- Laws of the order of strings.
use moreno_dnsleaf.Prelude.Tests.{Bool-cases}
use mathlib.Core.Logic.{inl, inr}
use moreno_dnsleaf.Prelude.Text.{Str, str_lt}
use mathlib.Core.Path.{◌≡◌, refl, ap}
use mathlib.Core.Bool.{true, false}
use mathlib.Core.List.{[], ◌∷◌}
use native.Mathlib.Omega.{arith}

pub str_lt_irrefl : (a : Str) → str_lt a a ≡ false
unfolding str_lt
str_lt_irrefl [] = refl
str_lt_irrefl (x ∷ a) = ground (arith, str_lt_irrefl a)

pub str_lt_trans : (a b c : Str) → str_lt a b ≡ true → str_lt b c ≡ true → str_lt a c ≡ true
unfolding str_lt
str_lt_trans [] (y ∷ b) (z ∷ c) h k = refl
str_lt_trans (x ∷ a) (y ∷ b) (z ∷ c) h k = ground (arith, str_lt_trans a b c)
str_lt_trans _ _ _ h k = ground arith

pub str_lt_total : (a b : Str) → str_lt a b ≡ false → str_lt b a ≡ false → a ≡ b
unfolding str_lt
str_lt_total [] [] h k = refl
str_lt_total (x ∷ a) (y ∷ b) h k = ground (arith, str_lt_total a b)
str_lt_total _ _ h k = ground arith

pub str_lt_asym : (a b : Str) → str_lt a b ≡ true → str_lt b a ≡ false
str_lt_asym a b h = elim (Bool-cases (str_lt b a)) [
  | inl back ↦ ground (arith, str_lt_trans a b a, str_lt_irrefl a)
  | inr none ↦ none
]

-- `not (c < b)` and `not (b < a)` give `not (c < a)`.
pub str_ge_trans : (a b c : Str) → str_lt b a ≡ false → str_lt c b ≡ false → str_lt c a ≡ false
str_ge_trans a b c h k = elim (Bool-cases (str_lt c a)) [
  | inr none ↦ none
  | inl less ↦ elim (Bool-cases (str_lt b c)) [
    | inl up ↦ ground (arith, str_lt_trans b c a)
    | inr same ↦ absurd (cc (ap (λ (t : Str). str_lt t a) (str_lt_total b c same k), less, h))
  ]
]

-- Not above and not equal is below.
pub str_lt_of_ne : (a b : Str) → str_lt b a ≡ false → (a ≡ b → ⊥) → str_lt a b ≡ true
str_lt_of_ne a b h ne = elim (Bool-cases (str_lt a b)) [
  | inl less ↦ less
  | inr not_less ↦ absurd (ne (str_lt_total a b not_less h))
]
