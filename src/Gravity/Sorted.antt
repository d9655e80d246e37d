-- ===== src/Gravity/Sorted.antt =====
-- The order and the members of the array of `mergeGravityLocked` (blocklists.go).
use moreno_dnsleaf.Prelude.{
  Bool, true, false, ◌||◌, List, [], ◌∷◌, ◌++◌, ◌≡◌, refl, ap, ◌∙◌, arith, Bool-cases, inl, inr,
  any, All,
}
use moreno_dnsleaf.Prelude.Text.{Str, str_eq, str_eq_iff, str_lt}
use moreno_dnsleaf.Prelude.Order.{str_lt_trans, str_lt_asym, str_ge_trans, str_lt_of_ne}
use moreno_dnsleaf.Gravity.{
  insert_sorted, sort_strings, dedup_after, dedup, normalized_domains, merge_gravity,
}

abbrev pub member : Str → List Str → Bool
member z = any (λ d. str_eq d z)

-- Each string is smaller than all that follow.
abbrev pub Ascending : List Str → Type 0
Ascending [] = Unit
Ascending (x ∷ xs) = All (λ y. str_lt x y ≡ true) xs × Ascending xs

abbrev Sorted : List Str → Type 0
Sorted [] = Unit
Sorted (x ∷ xs) = All (λ y. str_lt y x ≡ false) xs × Sorted xs

module _ (P : Str → Type 0) where
  All-insert_sorted : (x : Str) (l : List Str) → P x → All P l → All P (insert_sorted x l)
  unfolding insert_sorted
  All-insert_sorted x [] p h = (p, tt)
  All-insert_sorted x (y ∷ ys) p h = ground (arith, All-insert_sorted x ys p h.1)

  All-map : (Q : Str → Type 0) (l : List Str) → ((y : Str) → P y → Q y) → All P l → All Q l
  All-map Q [] f h = tt
  All-map Q (y ∷ ys) f h = (f y h.0, All-map Q ys f h.1)

insert_sorted-Sorted : (x : Str) (l : List Str) → Sorted l → Sorted (insert_sorted x l)
unfolding insert_sorted
insert_sorted-Sorted x [] h = (tt, tt)
insert_sorted-Sorted x (y ∷ ys) h = elim (Bool-cases (str_lt y x)) [
  | inl less ↦
      rw less (All-insert_sorted _ x ys (str_lt_asym y x less) h.0, insert_sorted-Sorted x ys h.1)
  | inr ge ↦ rw ge ((ge, All-map _ _ ys (λ z k. str_ge_trans x y z ge k) h.0), h)
]

sort_strings-Sorted : (l : List Str) → Sorted (sort_strings l)
unfolding sort_strings
sort_strings-Sorted [] = tt
sort_strings-Sorted (x ∷ xs) = insert_sorted-Sorted x (sort_strings xs) (sort_strings-Sorted xs)

module _ (z : Str) where
  member-insert_sorted :
      (x : Str) (l : List Str) → member z (insert_sorted x l) ≡ (str_eq x z || member z l)
  unfolding insert_sorted
  member-insert_sorted x [] = refl
  member-insert_sorted x (y ∷ ys) = ground (arith, member-insert_sorted x ys)

  member-sort_strings : (l : List Str) → member z (sort_strings l) ≡ member z l
  unfolding sort_strings
  member-sort_strings [] = refl
  member-sort_strings (x ∷ xs) =
      member-insert_sorted x (sort_strings xs) ∙ ap (◌||◌ (str_eq x z)) (member-sort_strings xs)

  member-append : (l m : List Str) → member z (l ++ m) ≡ (member z l || member z m)
  member-append [] m = refl
  member-append (x ∷ l) m = ground (arith, member-append l m)

  member-dedup_after :
      (last : Str) (l : List Str)
      → (str_eq last z || member z (dedup_after last l)) ≡ (str_eq last z || member z l)
  unfolding dedup_after
  member-dedup_after last [] = refl
  member-dedup_after last (x ∷ xs) =
      ground (arith, str_eq_iff last x, member-dedup_after last xs, member-dedup_after x xs)

  member-dedup : (l : List Str) → member z (dedup l) ≡ member z l
  unfolding dedup
  member-dedup [] = refl
  member-dedup (x ∷ xs) = member-dedup_after x xs

dedup_after-Ascending :
    (last : Str) (l : List Str)
    → All (λ y. str_lt y last ≡ false) l
    → Sorted l
    → All (λ y. str_lt last y ≡ true) (dedup_after last l) × Ascending (dedup_after last l)
unfolding dedup_after
dedup_after-Ascending last [] h s = (tt, tt)
dedup_after-Ascending last (x ∷ xs) h s = elim (Bool-cases (str_eq last x)) [
  | inl same ↦ rw same (dedup_after-Ascending last xs h.1 s.1)
  | inr other ↦
      let up = str_lt_of_ne last x h.0 (λ e. absurd (ground (arith, str_eq_iff last x))) in
      let rest = dedup_after-Ascending x xs s.0 s.1 in
      rw other
        ((up, All-map _ _ (dedup_after x xs) (λ y k. str_lt_trans last x y up k) rest.0), rest)
]

dedup-Ascending : (l : List Str) → Sorted l → Ascending (dedup l)
unfolding dedup
dedup-Ascending [] s = tt
dedup-Ascending (x ∷ xs) s = dedup_after-Ascending x xs s.0 s.1

-- After a merge into a strictly ascending array the array is strictly ascending, and holds what it
-- held and the normal forms of the new domains that are not empty, nothing else.
pub merge_gravity_lem :
    (gravity domains : List Str)
    → Ascending gravity
    → Ascending (merge_gravity gravity domains)
      × ((z : Str)
          → member z (merge_gravity gravity domains)
            ≡ (member z gravity || member z (normalized_domains domains)))
unfolding merge_gravity
merge_gravity_lem gravity [] h = (h, λ z. unfold normalized_domains in ground arith)
merge_gravity_lem gravity (d ∷ ds) h =
    let all = gravity ++ normalized_domains (d ∷ ds) in
    (
      dedup-Ascending (sort_strings all) (sort_strings-Sorted all),
      λ z.
          member-dedup z (sort_strings all)
          ∙ member-sort_strings z all
          ∙ member-append z gravity (normalized_domains (d ∷ ds)),
    )
