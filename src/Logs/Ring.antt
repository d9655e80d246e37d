-- ===== src/Logs/Ring.antt =====
-- The logs that keep the last entries only: `addServerLog`, `addAudit` (main.go).
use moreno_dnsleaf.Prelude.{
  ℕ, zero, suc, ◌+◌, ◌-◌, ◌≤◌, false, List, [], ◌∷◌, ◌++◌, ltb, length, drop, length-append,
  append_nil, append_assoc, length-drop, ◌≡◌, refl, ap, sym, ◌∙◌, arith, inl, inr, Bool-cases,
}
use moreno_dnsleaf.Logs.{last_of, push}

suc_add : (a b : ℕ) → suc (a + b) ≡ suc a + b
suc_add a b = omega arith

module _ {ℓ} {A : Type ℓ} where
  -- As one `drop`: where nothing is to go, `drop 0`.
  last_of-drop : (n : ℕ) (xs : List A) → last_of n xs ≡ drop (length xs - n) xs
  unfolding last_of
  last_of-drop n xs = elim (Bool-cases (ltb n (length xs))) [
    | inl e ↦ rw e
    | inr e ↦ rw (e, none_over e)
  ]
    where
      none_over : ltb n (length xs) ≡ false → length xs - n ≡ 0
      none_over e = ground arith

  pub length-last_of-le : (n : ℕ) (xs : List A) → length (last_of n xs) ≤ n
  unfolding last_of
  length-last_of-le n xs = ground (arith, length-drop (length xs - n) xs)

  drop_nil : (n : ℕ) → drop {A = A} n [] ≡ []
  drop_nil zero = refl
  drop_nil (suc n) = refl

  drop-drop : (a b : ℕ) (xs : List A) → drop a (drop b xs) ≡ drop (b + a) xs
  drop-drop a zero xs = ap (λ k. drop k xs) (omega arith)
  drop-drop a (suc b) [] = drop_nil a ∙ sym (drop_nil (suc b + a))
  drop-drop a (suc b) (x ∷ xs) = drop-drop a b xs ∙ ap (λ k. drop k (x ∷ xs)) (suc_add b a)

  drop-append : (a : ℕ) (xs ys : List A) → a ≤ length xs → drop a (xs ++ ys) ≡ drop a xs ++ ys
  drop-append zero xs ys h = refl
  drop-append (suc a) [] ys h = ground arith
  drop-append (suc a) (x ∷ xs) ys h = drop-append a xs ys (ground arith)

  -- The entries one by one.
  abbrev pub push_all : ℕ → List A → List A → List A
  push_all n log [] = log
  push_all n log (x ∷ xs) = push_all n (push n log x) xs

  length-snoc : (xs : List A) (x : A) → length (xs ++ x ∷ []) ≡ suc (length xs)
  length-snoc xs x = omega (arith, length-append xs (x ∷ []))

  -- What an earlier cut took away is not needed.
  push-last_of : (n : ℕ) (ys : List A) (x : A) → push n (last_of n ys) x ≡ last_of n (ys ++ x ∷ [])
  unfolding push
  push-last_of n ys x =
      rw
        (
          last_of-drop n (last_of n ys ++ x ∷ []),
          length-snoc (last_of n ys) x,
          last_of-drop n ys,
          length-drop (length ys - n) ys,
          sym (drop-append (length ys - n) ys (x ∷ []) (omega arith)),
          drop-drop (suc (length ys - (length ys - n)) - n) (length ys - n) (ys ++ x ∷ []),
          last_of-drop n (ys ++ x ∷ []),
          length-snoc ys x,
        )
        (ap (λ k. drop k (ys ++ x ∷ [])) (omega arith))

  last_of_nil : (n : ℕ) → last_of {A = A} n [] ≡ []
  last_of_nil n = last_of-drop n [] ∙ drop_nil (0 - n)

  push_all-last_of : (n : ℕ) (ys xs : List A) → push_all n (last_of n ys) xs ≡ last_of n (ys ++ xs)
  push_all-last_of n ys [] = ap (last_of n) (sym (append_nil ys))
  push_all-last_of n ys (x ∷ xs) =
      ap (λ log. push_all n log xs) (push-last_of n ys x)
      ∙ push_all-last_of n (ys ++ x ∷ []) xs
      ∙ ap (last_of n) (append_assoc ys (x ∷ []) xs)

  -- A log that is cut to the last `n` entries after each new one holds, after any number of entries
  -- from the empty log, the last `n` of them all, and never more than `n`.
  pub push_all-lem :
      (n : ℕ) (xs : List A) → (push_all n [] xs ≡ last_of n xs) × (length (push_all n [] xs) ≤ n)
  push_all-lem n xs = (whole, rw whole (length-last_of-le n xs))
    where
      whole : push_all n [] xs ≡ last_of n xs
      whole = ap (λ log. push_all n log xs) (sym (last_of_nil n)) ∙ push_all-last_of n [] xs
