-- ===== src/Gravity/Search.antt =====
-- `sort.Search` on a monotone test.
use moreno_dnsleaf.Prelude.{
  ℕ, zero, suc, ◌+◌, ◌-◌, ◌/◌, ◌≤◌, ◌<◌, Bool, true, false, ◌≡◌, refl, arith, ltb, Bool-cases,
  ltb→lt, inl, inr,
}
use moreno_dnsleaf.Gravity.{search_loop, search}

-- Once the test passes it passes at every later index below `n`.
abbrev pub Monotone : ℕ → (ℕ → Bool) → Type 0
Monotone n f = (a b : ℕ) → a ≤ b → b < n → f a ≡ true → f b ≡ true

pub record Splits (n : ℕ) (f : ℕ → Bool) (r : ℕ) : Type 0 where
  pub within : r ≤ n
  pub below : (k : ℕ) → k < r → f k ≡ false
  pub from : (k : ℕ) → r ≤ k → k < n → f k ≡ true

false_of_true : (a b : Bool) → (a ≡ true → b ≡ true) → b ≡ false → a ≡ false
false_of_true true b h e = ground arith
false_of_true false b h e = refl

search_loop-Splits :
    (fuel n : ℕ) (f : ℕ → Bool) (i j : ℕ)
    → Monotone n f
    → i ≤ j
    → j ≤ n
    → j - i ≤ fuel
    → ((k : ℕ) → k < i → f k ≡ false)
    → ((k : ℕ) → j ≤ k → k < n → f k ≡ true)
    → Splits n f (search_loop fuel f i j)
unfolding search_loop
search_loop-Splits zero n f i j m le jn few below from = record {
  within = omega arith;
  below = below;
  from = λ k h l. from k (omega arith) l;
}
search_loop-Splits (suc fuel) n f i j m le jn few below from = elim (Bool-cases (ltb i j)) [
  | inr done ↦
      rw done
        (record { within = omega arith; below = below; from = λ k h l. from k (ground arith) l })
  | inl more ↦ elim (Bool-cases (f ((i + j) / 2))) [
    | inl pass ↦
        rw (more, pass)
          (search_loop-Splits fuel n f i ((i + j) / 2) m (omega (arith, ltb→lt i j more))
            (omega (arith, ltb→lt i j more)) (omega (arith, ltb→lt i j more)) below
            (λ k h l. m ((i + j) / 2) k h l pass))
    | inr fail ↦
        rw (more, fail)
          (search_loop-Splits fuel n f ((i + j) / 2 + 1) j m (omega (arith, ltb→lt i j more)) jn
            (omega (arith, ltb→lt i j more))
            (λ k h.
              false_of_true _ _ (m k ((i + j) / 2) (omega arith) (omega (arith, ltb→lt i j more)))
                fail)
            from)
  ]
]

-- `n` rounds are enough for an interval of length `n`.
pub search-Splits : (n : ℕ) (f : ℕ → Bool) → Monotone n f → Splits n f (search n f)
unfolding search
search-Splits n f m =
    search_loop-Splits n n f 0 n m (omega arith) (omega arith) (omega arith)
      (λ k h. absurd (omega arith)) (λ k h l. absurd (omega arith))
