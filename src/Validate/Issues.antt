-- ===== src/Validate/Issues.antt =====
-- When the parts of the list of issues of `validateConfig` are empty.
use moreno_dnsleaf.Prelude.{
  ℕ, suc, Bool, false, List, [], ◌∷◌, ◌++◌, Option, none, some, ◌≡◌, refl, All, arith,
}
use moreno_dnsleaf.Prelude.Text.{Str}
use moreno_dnsleaf.Validate.Report.{Field, Message, Issue, concat, issue_if, issue_of, each}

pub append-eq-nil : {A : Type 0} (xs ys : List A) → xs ++ ys ≡ [] → (xs ≡ []) × (ys ≡ [])
append-eq-nil [] ys h = (refl, h)
append-eq-nil (x ∷ xs) ys h = grind arith

pub concat-eq-nil : (parts : List (List Issue)) → concat parts ≡ [] → All (λ part. part ≡ []) parts
unfolding concat
concat-eq-nil [] h = tt
concat-eq-nil (part ∷ parts) h =
    let (first, rest) = append-eq-nil part (concat parts) h in (first, concat-eq-nil parts rest)

pub issue_if-eq-nil : (b : Bool) (f : Field) (m : Str) → issue_if b f m ≡ [] → b ≡ false
unfolding issue_if
issue_if-eq-nil b f m h = ground arith

pub issue_of-eq-nil :
    {E : Type 0} (message : E → Message) (f : Field) (o : Option E)
    → issue_of message f o ≡ []
    → o ≡ none
unfolding issue_of
issue_of-eq-nil message f none h = refl
issue_of-eq-nil message f (some e) h = grind arith

module _ {A : Type 0} (P : A → Type 0) (check : ℕ → A → List Issue) where
  pub each-eq-nil :
      (i : ℕ) (xs : List A)
      → ((j : ℕ) (x : A) → check j x ≡ [] → P x)
      → each check i xs ≡ []
      → All P xs
  unfolding each
  each-eq-nil i [] fits h = tt
  each-eq-nil i (x ∷ xs) fits h =
      let (first, rest) = append-eq-nil (check i x) (each check (suc i) xs) h in
      (fits i x first, each-eq-nil (suc i) xs fits rest)
